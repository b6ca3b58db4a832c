-- ===== src/Run/Registry.antt =====
-- The methods of run.Registry (run/registry.go), each critical section as one function.
use agent_go.Prelude.{
  ℕ, zero, suc, ◌-◌, Bool, true, false, List, [], ◌∷◌, ◌++◌, Option, none, some, if◌then◌else◌,
  length, take, ltb, ◌==◌,
}
use agent_go.Prelude.Int.{ℤ, pos, negsuc}
use agent_go.Text.{Text, codes, is_blank, is_empty, text_eq}
use agent_go.Text.Table.{Table, lookup, insert, delete}
use agent_go.Errors.{Error, new_error}
use agent_go.Llm.{Usage, zero_usage}
use agent_go.Run.{
  Status, status_name, Record, running, succeeded, failed, cancelled, is_running, is_chat_err,
}

-- `stopped`: the cancel function of the run's context was called.
pub record Live : Type 0 where
  pub rec : Record
  pub stopped : Bool

pub record Registry : Type 0 where
  pub by_id : Table Live
  pub by_session : Table Text
  pub max_records : ℤ

-- NewRegistry
abbrev pub new_registry : ℤ → Registry
new_registry max = record { by_id = []; by_session = []; max_records = max }

-- maxRecords
abbrev pub record_limit : ℤ → ℕ
record_limit (negsuc n) = 512
record_limit (pos zero) = 512
record_limit (pos (suc n)) = suc n

pub data StartError : Type 0 where
  conflict : Text → Text → StartError

pub data Started : Type 0 where
  accepted : Record → Started
  refused : StartError → Started

abbrev new_record : Text → Text → Text → Text → ℕ → Record
new_record id session request input now = record {
  id = id;
  session_id = session;
  request_id = request;
  input = input;
  output = [];
  err = [];
  status = running;
  chat_error = false;
  channel_err = [];
  usage = zero_usage;
  started_at = now;
  finished_at = 0;
}

abbrev pub new_live : Text → Text → Text → Text → ℕ → Live
new_live id session request input now = record {
  rec = new_record id session request input now;
  stopped = false;
}

-- `if strings.TrimSpace(sessionID) == ""`: a session of its own, with a random name
abbrev pub session_or : Text → Text → Text
session_or fresh session = if is_blank session then fresh else session

-- The critical section of Start, for a session that has its name
unfoldable pub register : Text → Text → Text → Text → ℕ → Registry → Started × Registry
register id session request input now g = elim (lookup session g.by_session) [
  | some existing ↦ (refused (conflict session existing), g)
  | none ↦ (
    accepted (new_record id session request input now),
    record g {
      by_id = insert id (new_live id session request input now) g.by_id;
      by_session = insert session id g.by_session;
    },
  )
]

-- Start, up to the runner
unfoldable pub start : Text → Text → Text → Text → Text → ℕ → Registry → Started × Registry
unfolding register
start fresh id session request input now g =
    register id (session_or fresh session) request input now g

-- Get
abbrev pub get : Text → Registry → Option Record
get id g = elim (lookup id g.by_id) [ none ↦ none | some lv ↦ some lv.rec ]

abbrev already_finished : Status → Error
already_finished st = new_error (codes "run: already finished (" ++ (status_name st ++ codes ")"))

-- Cancel, before it waits; the runner is told by its context.
unfoldable pub cancel : Text → Registry → Option Error × Registry
cancel id g = elim (lookup id g.by_id) [
  | none ↦ (some (new_error (codes "run: not found: " ++ id)), g)
  | some lv ↦
      if is_running lv.rec.status
      then (none, record g { by_id = insert id (record lv { stopped = true }) g.by_id })
      else (some (already_finished lv.rec.status), g)
]

-- Annotate
unfoldable pub annotate : Text → (Record → Record) → Registry → Registry
annotate id f g = elim (lookup id g.by_id) [
  | none ↦ g
  | some lv ↦ record g { by_id = insert id (record lv { rec = f lv.rec }) g.by_id }
]

-- The time by which finished runs are sorted
abbrev ended_at : Record → ℕ
ended_at r = if r.finished_at == 0 then r.started_at else r.finished_at

-- The finished runs, in the order `visit` in which the range visits the keys of the map
unfoldable pub finished : List Text → Table Live → List (Text × ℕ)
finished [] m = []
finished (id ∷ visit) m =
    let rest = finished visit m in
    elim (lookup id m) [
      | none ↦ rest
      | some lv ↦ if is_running lv.rec.status then rest else (id, ended_at lv.rec) ∷ rest
    ]

-- sort.Slice; it may put equal times in any order, and so may `visit`.
unfoldable pub sort_in : Text × ℕ → List (Text × ℕ) → List (Text × ℕ)
sort_in x [] = x ∷ []
sort_in x (y ∷ ys) = let rest = sort_in x ys in if ltb y.1 x.1 then y ∷ rest else x ∷ y ∷ ys

unfoldable pub sort_items : List (Text × ℕ) → List (Text × ℕ)
unfolding sort_in
sort_items [] = []
sort_items (x ∷ xs) = sort_in x (sort_items xs)

unfoldable pub drop_items : List (Text × ℕ) → Table Live → Table Live
drop_items [] m = m
drop_items ((id, t) ∷ xs) m = drop_items xs (delete id m)

-- evictLocked
unfoldable pub evict : List Text → Registry → Registry
unfolding finished sort_items drop_items
evict visit g =
    let items = finished visit g.by_id in
    let extra = length items - record_limit g.max_records in
    record g { by_id = drop_items (take extra (sort_items items)) g.by_id }

abbrev error_text : Option Error → Error → Text
error_text none e = e.text
error_text (some err) e = err.text

-- What finish writes of the outcome: `over` is the error of the run's context.
unfoldable pub outcome : Option Error → Text → Option Error → Record → Record
unfolding is_chat_err
outcome (some e) out err r = record r { status = cancelled; err = error_text err e }
outcome none out (some err) r = record r {
  status = failed;
  err = err.text;
  chat_error = is_chat_err err;
}
outcome none out none r = record r { status = succeeded; output = out }

abbrev pub closed : Text → Usage → ℕ → Record → Record
closed request usage now r = record r {
  finished_at = now;
  usage = usage;
  request_id = if is_empty r.request_id then request else r.request_id;
}

-- `if g.bySession[sessionID] == id { delete(g.bySession, sessionID) }`
abbrev pub free_session : Text → Text → Table Text → Table Text
free_session session id m = elim (lookup session m) [
  | none ↦ m
  | some other ↦ if text_eq other id then delete session m else m
]

-- finish: what OnDone is told, and the registry
unfoldable pub finish :
    List Text
    → Text
    → Text
    → Text
    → Usage
    → Text
    → Option Error
    → Option Error
    → ℕ
    → Registry
    → Option Record × Registry
unfolding evict outcome
finish visit id session request usage out err over now g = elim (lookup id g.by_id) [
  | none ↦ (none, g)
  | some lv ↦
      let r = outcome over out err (closed request usage now lv.rec) in
      (
        some r,
        evict visit (record g {
          by_id = insert id (record lv { rec = r }) g.by_id;
          by_session = free_session session id g.by_session;
        }),
      )
]
