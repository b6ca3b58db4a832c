-- ===== src/Task/Places.antt =====
-- Where a task may be for each of its statuses, and what a step makes of it.
use agent_go.Prelude.{
  ℕ, ◌≡◌, refl, Bool, true, false, ◌&&◌, ◌||◌, not, List, [], ◌∷◌, ◌++◌, Option, none, some, arith,
}
use agent_go.Text.{Text, text_eq, text_eq_refl}
use agent_go.Text.Table.{
  Table, lookup, insert, mem, lookup-insert_self, lookup-insert_ne, mem-append,
}
use agent_go.Errors.{Error}
use agent_go.Task.{Task, Status, queued, running, succeeded, failed, cancelled, is_queued}
use agent_go.Task.{is_terminal}
use agent_go.Task.Manager.{settle}
use agent_go.Task.System.{System}

abbrev pub status_in : Text → Table Task → Option Status
status_in id tasks = elim (lookup id tasks) [ none ↦ none | some t ↦ some t.status ]

-- Where an id may be for a status: in the queue, with a worker that has taken it, with a Submit that
-- has not enqueued it, with a worker that runs it.
abbrev pub allowed : Option Status → Bool → Bool → Bool → Bool → Bool
allowed none q h s w = not (q || h || s || w)
allowed (some queued) q h s w = (q || h || s) && not w && not (s && (q || h))
allowed (some running) q h s w = w && not s
allowed (some cancelled) q h s w = not w && not (s && (q || h))
allowed (some succeeded) q h s w = not w && not s
allowed (some failed) q h s w = not w && not s

module _ {S : Type 0} where
  abbrev pub status_of : Text → System S → Option Status
  status_of id s = status_in id s.manager.tasks

  -- A queued task is waiting somewhere, a running one has a worker, and a finished one has none.
  abbrev pub IsPlaced : Text → System S → Type 0
  IsPlaced id s =
      allowed (status_of id s) (mem id s.manager.queue) (mem id s.held) (mem id s.submitting)
        (mem id s.working)
      ≡ true

pub placed :
    {st st' : Option Status} {q q' h h' s s' w w' : Bool}
    → st' ≡ st
    → q' ≡ q
    → h' ≡ h
    → s' ≡ s
    → w' ≡ w
    → allowed st q h s w ≡ true
    → allowed st' q' h' s' w' ≡ true
placed a b c d e p = rw (a, b, c, d, e) p

pub status_in-insert_self :
    (id : Text) (t : Task) (m : Table Task) → status_in id (insert id t m) ≡ some t.status
status_in-insert_self id t m = rw (status_in, lookup-insert_self id t m) refl

pub status_in-insert_ne :
    (id i : Text) (t : Task) (m : Table Task)
    → text_eq id i ≡ false
    → status_in i (insert id t m) ≡ status_in i m
status_in-insert_ne id i t m h = rw (status_in, lookup-insert_ne id i t m h) refl

pub unknown-absurd : (q h w : Bool) → allowed none q h true w ≡ true → ⊥
unknown-absurd q h w p = ground arith

pub status_none : (id : Text) (m : Table Task) → lookup id m ≡ none → status_in id m ≡ none
status_none id m e = rw (status_in, e) refl

pub pushed : (id : Text) (xs : List Text) → mem id (xs ++ id ∷ []) ≡ true
unfolding mem
pushed id xs = ground (arith, mem-append id xs (id ∷ []), text_eq_refl id)

pub pushed_ne :
    (id i : Text) (xs : List Text) → text_eq id i ≡ false → mem i (xs ++ id ∷ []) ≡ mem i xs
unfolding mem
pushed_ne id i xs ne = ground (arith, mem-append i xs (id ∷ []))

pub unheld-absurd : (q s w : Bool) → allowed none q true s w ≡ true → ⊥
unheld-absurd q s w p = ground arith

pub unworking-absurd : (q h s : Bool) → allowed none q h s true ≡ true → ⊥
unworking-absurd q h s p = ground arith

pub status_some :
    (id : Text) (m : Table Task) (t : Task) → lookup id m ≡ some t → status_in id m ≡ some t.status
status_some id m t e = rw (status_in, e) refl

pub cancel-allowed :
    (q h s w : Bool)
    → allowed (some queued) q h s w ≡ true
    → allowed (some cancelled) q h s w ≡ true
cancel-allowed q h s w p = ground arith

-- What a step makes of the places of the id that it is about
pub fail-allowed :
    (st : Option Status) (q h w : Bool)
    → allowed st q h true w ≡ true
    → allowed (some failed) q h false w ≡ true
fail-allowed none q h w p = ground arith
fail-allowed (some queued) q h w p = ground arith
fail-allowed (some running) q h w p = ground arith
fail-allowed (some cancelled) q h w p = ground arith
fail-allowed (some succeeded) q h w p = ground arith
fail-allowed (some failed) q h w p = ground arith

pub push-allowed :
    (st : Option Status) (q h w : Bool)
    → allowed st q h true w ≡ true
    → allowed st true h false w ≡ true
push-allowed none q h w p = ground arith
push-allowed (some queued) q h w p = ground arith
push-allowed (some running) q h w p = ground arith
push-allowed (some cancelled) q h w p = ground arith
push-allowed (some succeeded) q h w p = ground arith
push-allowed (some failed) q h w p = ground arith

pub take-allowed :
    (st : Option Status) (q h s w : Bool)
    → allowed st true h s w ≡ true
    → allowed st q true s w ≡ true
take-allowed none q h s w p = ground arith
take-allowed (some queued) q h s w p = ground arith
take-allowed (some running) q h s w p = ground arith
take-allowed (some cancelled) q h s w p = ground arith
take-allowed (some succeeded) q h s w p = ground arith
take-allowed (some failed) q h s w p = ground arith

pub skip-allowed :
    (st : Status) (q s w : Bool)
    → is_queued st ≡ false
    → allowed (some st) q true s w ≡ true
    → allowed (some st) q false s w ≡ true
skip-allowed queued q s w n p = cc
skip-allowed running q s w n p = ground arith
skip-allowed cancelled q s w n p = ground arith
skip-allowed succeeded q s w n p = ground arith
skip-allowed failed q s w n p = ground arith

pub launch-allowed :
    (st : Status) (q s w : Bool)
    → is_queued st ≡ true
    → allowed (some st) q true s w ≡ true
    → allowed (some running) q false s true ≡ true
launch-allowed queued q s w n p = ground arith
launch-allowed running q s w n p = cc
launch-allowed cancelled q s w n p = cc
launch-allowed succeeded q s w n p = cc
launch-allowed failed q s w n p = cc

pub settle-allowed :
    (st : Option Status) (new : Status) (q h s : Bool)
    → is_terminal new ≡ true
    → allowed st q h s true ≡ true
    → allowed (some new) q h s false ≡ true
unfolding is_terminal
settle-allowed none new q h s n p = ground arith
settle-allowed (some queued) new q h s n p = ground arith
settle-allowed (some cancelled) new q h s n p = ground arith
settle-allowed (some succeeded) new q h s n p = ground arith
settle-allowed (some failed) new q h s n p = ground arith
settle-allowed (some running) queued q h s n p = cc
settle-allowed (some running) running q h s n p = cc
settle-allowed (some running) cancelled q h s n p = ground arith
settle-allowed (some running) succeeded q h s n p = ground arith
settle-allowed (some running) failed q h s n p = ground arith

-- Whatever the runner returned, the task is finished.
pub settle-terminal :
    (over : Bool) (now : ℕ) (r : Text × Option Error) (t : Task)
    → is_terminal (settle over now r t).status ≡ true
unfolding settle is_terminal
settle-terminal over now (result, some e) t = ground arith
settle-terminal over now (result, none) t = ground arith
