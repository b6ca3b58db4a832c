-- ===== src/Task/Manager.antt =====
-- The methods of task.Manager, each critical section of the lock as one function (task/task.go).
use agent_go.Prelude.{
  ℕ, zero, suc, Bool, true, false, ◌&&◌, ◌||◌, not, List, [], ◌∷◌, ◌++◌, Option, none, some,
  if◌then◌else◌, length, ltb,
}
use agent_go.Prelude.Int.{ℤ, pos, negsuc}
use agent_go.Text.{Text, codes, is_empty, text_eq}
use agent_go.Text.Table.{Table, lookup, insert, mem, remove}
use agent_go.Errors.{Error, new_error}
use agent_go.Task.{
  Task, Status, queued, running, succeeded, failed, cancelled, zero_task, is_queued, is_running,
  is_cancelled, is_failed, trim_goal,
}

-- `S` is the state of the store. `jobs` are the contexts of the tasks that run, each with whether
-- its cancel function was called; `cancels` are the keys of the map of these functions.
pub record Manager (S : Type 0) : Type 0 where
  pub queue_size : ℕ
  pub queue : List Text
  pub store : Option S
  pub tasks : Table Task
  pub order : List Text
  pub cancels : List Text
  pub jobs : Table Bool
  pub stopped : Bool

abbrev pub status_text : Status → Text
status_text queued = codes "queued"
status_text running = codes "running"
status_text succeeded = codes "succeeded"
status_text failed = codes "failed"
status_text cancelled = codes "cancelled"

abbrev pub new_task : Text → Text → ℕ → Task
new_task id goal now = record zero_task {
  id = id;
  goal = goal;
  status = queued;
  progress = codes "queued";
  created_at = now;
}

-- List
unfoldable pub list_from : List Text → Table Task → List Task
list_from [] tasks = []
list_from (id ∷ ids) tasks =
    let rest = list_from ids tasks in elim (lookup id tasks) [ none ↦ rest | some t ↦ t ∷ rest ]

abbrev finished_error : Status → Error
finished_error st = new_error (codes "task: already finished (" ++ (status_text st ++ codes ")"))

abbrev cancelled_task : ℕ → Task → Task
cancelled_task now t = record t {
  status = cancelled;
  progress = codes "cancelled before start";
  finished_at = now;
}

abbrev started_task : ℕ → Task → Task
started_task now t = record t { status = running; progress = codes "running"; started_at = now }

abbrev pub stop_task : ℕ → Text → Task → Task
stop_task now e t = record t {
  status = cancelled;
  error = e;
  progress = codes "cancelled";
  finished_at = now;
}

-- What the second critical section of runOne makes of a task, for what the runner returned
unfoldable pub settle : Bool → ℕ → Text × Option Error → Task → Task
settle over now (result, some e) t =
    if over && is_running t.status
    then stop_task now e.text t
    else if is_cancelled t.status
    then record t { finished_at = now }
    else if over
    then stop_task now e.text t
    else record t { status = failed; error = e.text; progress = codes "failed"; finished_at = now }
settle over now (result, none) t =
    if is_cancelled t.status then record t { finished_at = now } else record t {
      status = succeeded;
      result = result;
      progress = codes "done";
      error = [];
      finished_at = now;
    }

-- The loop body of restoreLocked
abbrev interrupted : Text
interrupted = codes "interrupted by restart"

abbrev pub restored_task : Task → Task
restored_task t =
    if is_running t.status
    then record t { status = failed; error = interrupted; progress = codes "failed" }
    else t

abbrev is_interrupted : Task → Bool
is_interrupted t = is_failed t.status && text_eq t.error interrupted

-- `if opt.QueueSize <= 0 { opt.QueueSize = 64 }`, and the same for the workers and 1
abbrev pub or_default : ℕ → ℤ → ℕ
or_default d (negsuc n) = d
or_default d (pos zero) = d
or_default d (pos (suc n)) = suc n

module _ {S : Type 0} where
  -- mustGet
  abbrev pub must_get : Text → Manager S → Task
  must_get id m = elim (lookup id m.tasks) [ none ↦ zero_task | some t ↦ t ]

  -- Get
  abbrev pub get : Text → Manager S → Option Task
  get id m = lookup id m.tasks

  abbrev pub list : Manager S → List Task
  list m = list_from m.order m.tasks

  -- The context's cancel function, if the map has one for the task.
  abbrev pub cancel_job : Text → Manager S → Manager S
  cancel_job id m =
      if mem id m.cancels
      then (elim (lookup id m.jobs) [
        | none ↦ m
        | some c ↦ record m { jobs = insert id true m.jobs }
      ])
      else m

  -- `taskCtx.Err() != nil`: its cancel function was called, or that of the root context.
  abbrev pub context_over : Text → Manager S → Bool
  context_over id m = m.stopped || (elim (lookup id m.jobs) [ none ↦ false | some c ↦ c ])

  unfoldable pub release : Text → Manager S → Manager S
  release id m = record m { cancels = remove id m.cancels; jobs = insert id true m.jobs }

  -- Stop, up to the wait for the workers. Each cancel function is called and deleted; what they
  -- cancel is over with the root context.
  unfoldable pub stop : Manager S → Manager S
  stop m = record m { stopped = true; cancels = [] }

  abbrev pub requeued : Task → Manager S → List Text
  requeued t m =
      if is_queued t.status && ltb (length m.queue) m.queue_size
      then m.queue ++ t.id ∷ []
      else m.queue

  abbrev pub empty_manager : ℤ → Option S → Manager S
  empty_manager queue_size store = record {
    queue_size = or_default 64 queue_size;
    queue = [];
    store = store;
    tasks = [];
    order = [];
    cancels = [];
    jobs = [];
    stopped = false;
  }

-- `put` is the store's Put; its error is ignored.
module _ {S : Type 0} (put : Task → S → S) where
  -- persist
  abbrev pub persist : Task → Option S → Option S
  persist t none = none
  persist t (some s) = some (put t s)

  -- A record behind the pointer in the map is changed, and persisted.
  abbrev pub write_task : Text → Task → Manager S → Manager S
  write_task id t m = record m { tasks = insert id t m.tasks; store = persist t m.store }

  -- The first part of Submit, for a goal that is not empty
  unfoldable pub register : Text → Text → ℕ → Manager S → Manager S
  register id goal now m =
      let m' = write_task id (new_task id goal now) m in record m' { order = m.order ++ id ∷ [] }

  -- setTerminal
  unfoldable pub set_terminal : Text → Status → Text → Text → ℕ → Manager S → Manager S
  set_terminal id st result error now m = elim (lookup id m.tasks) [
    | none ↦ m
    | some t ↦
        write_task id (record t { status = st; result = result; error = error; finished_at = now })
          m
  ]

  -- The select of Submit. With both cases ready the runtime picks one: `first` is its choice.
  unfoldable pub enqueue : Bool → Text → ℕ → Manager S → Option Error × Manager S
  unfolding set_terminal
  enqueue first id now m =
      let room = ltb (length m.queue) m.queue_size in
      if m.stopped && (first || not room)
      then (
        some (new_error (codes "task: manager stopped")),
        set_terminal id failed [] (codes "manager stopped") now m,
      )
      else if room
      then (none, record m { queue = m.queue ++ id ∷ [] })
      else (
        some (new_error (codes "task: queue full")),
        set_terminal id failed [] (codes "queue full") now m,
      )

  -- Submit, with nothing in between its two parts
  unfoldable pub submit : Bool → Text → Text → ℕ → Manager S → (Task × Option Error) × Manager S
  unfolding register enqueue
  submit first id goal now m =
      let g = trim_goal goal in
      let (e, m') = enqueue first id now (register id g now m) in
      if is_empty g
      then ((zero_task, some (new_error (codes "task: empty goal"))), m)
      else ((must_get id m', e), m')

  -- The switch of Cancel
  unfoldable pub cancel_found :
      Text → ℕ → Task → Status → Manager S → (Task × Option Error) × Manager S
  cancel_found id now t succeeded m = ((t, some (finished_error succeeded)), m)
  cancel_found id now t failed m = ((t, some (finished_error failed)), m)
  cancel_found id now t cancelled m = ((t, some (finished_error cancelled)), m)
  cancel_found id now t queued m =
      ((cancelled_task now t, none), write_task id (cancelled_task now t) m)
  cancel_found id now t running m = ((t, none), cancel_job id m)

  -- Cancel
  unfoldable pub cancel : Text → ℕ → Manager S → (Task × Option Error) × Manager S
  unfolding cancel_found
  cancel id now m = elim (lookup id m.tasks) [
    | none ↦ ((zero_task, some (new_error (codes "task: not found: " ++ id))), m)
    | some t ↦ cancel_found id now t t.status m
  ]

  abbrev pub launch : Text → ℕ → Task → Manager S → Manager S
  launch id now t m =
      let m' = write_task id (started_task now t) m in
      record m' { jobs = insert id false m.jobs; cancels = id ∷ m.cancels }

  -- The first critical section of runOne: whether the runner is called, and the manager
  unfoldable pub start : Text → ℕ → Manager S → Bool × Manager S
  start id now m = elim (lookup id m.tasks) [
    | none ↦ (false, m)
    | some t ↦ elim (is_queued t.status) [ false ↦ (false, m) | true ↦ (true, launch id now t m) ]
  ]

  -- The rest of runOne after the runner: the second critical section, and the deferred delete.
  unfoldable pub finish : Text → ℕ → Text × Option Error → Manager S → Manager S
  unfolding settle
  finish id now r m = elim (lookup id m.tasks) [
    | none ↦ m
    | some t ↦ write_task id (settle (context_over id m) now r t) m
  ]

  unfoldable pub restore_one : Task → Manager S → Manager S
  restore_one t m =
      let r = restored_task t in
      record m {
        tasks = insert r.id r m.tasks;
        order = m.order ++ r.id ∷ [];
        queue = requeued r m;
        store = if is_interrupted r then persist r m.store else m.store;
      }

  -- restoreLocked, with what List of the store returns; it is none after an error.
  unfoldable pub restore : Option (List Task) → Manager S → Manager S
  unfolding restore_one
  restore none m = m
  restore (some []) m = m
  restore (some (t ∷ ts)) m = restore (some ts) (restore_one t m)

  -- NewManager; `list` is the store's List.
  unfoldable pub new_manager : (S → Option (List Task)) → ℤ → Option S → Manager S
  unfolding restore
  new_manager list queue_size none = empty_manager queue_size none
  new_manager list queue_size (some s) = restore (list s) (empty_manager queue_size (some s))
