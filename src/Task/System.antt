-- ===== src/Task/System.antt =====
-- The goroutines around a task.Manager: callers in Submit, Cancel and Stop, and the workers.
use agent_go.Prelude.{
  zero, suc, [], ◌-◌, ℕ, ◌<◌, ◌≡◌, Bool, true, false, List, ◌∷◌, Option, if◌then◌else◌,
}
use agent_go.Prelude.Int.{ℤ}
use agent_go.Text.{Text, is_empty}
use agent_go.Text.Table.{lookup, mem, remove}
use agent_go.Prelude.{none}
use agent_go.Errors.{Error}
use agent_go.Task.{Task, trim_goal}
use agent_go.Task.Manager.{
  Manager, register, enqueue, cancel, start, finish, release, stop, new_manager, or_default,
}

-- `idle` is the number of workers that wait at the select of workerLoop, `submitting` are the ids
-- between the two parts of Submit, `held` those that a worker has taken from the queue and not yet
-- looked up, `working` those whose runner is running.
pub record System (S : Type 0) : Type 0 where
  pub manager : Manager S
  pub idle : ℕ
  pub submitting : List Text
  pub held : List Text
  pub working : List Text

module _ {S : Type 0} where
  -- A manager and the workers that have begun to wait for its queue.
  abbrev pub launched : ℕ → Manager S → System S
  launched idle m = record { manager = m; idle = idle; submitting = []; held = []; working = [] }

  -- `for i := 0; i < opt.Workers; i++`
  unfoldable pub start_workers : ℕ → System S → System S
  start_workers zero s = s
  start_workers (suc n) s = start_workers n (record s { idle = suc s.idle })

module _ {S : Type 0} (put : Task → S → S) where
  -- NewManager, with the workers that it starts
  unfoldable pub new_system : (S → Option (List Task)) → ℤ → ℤ → Option S → System S
  unfolding start_workers new_manager
  new_system list queue_size workers store =
      start_workers (or_default 1 workers) (launched 0 (new_manager put list queue_size store))

  abbrev pub after_register : Text → Text → ℕ → System S → System S
  after_register id goal now s = record s {
    manager = register put id (trim_goal goal) now s.manager;
    submitting = id ∷ s.submitting;
  }

  abbrev pub after_enqueue : Bool → Text → ℕ → System S → System S
  after_enqueue first id now s = record s {
    manager = (enqueue put first id now s.manager).1;
    submitting = remove id s.submitting;
  }

  abbrev pub after_dequeue : Text → List Text → System S → System S
  after_dequeue id rest s = record s {
    manager = record s.manager { queue = rest };
    idle = s.idle - 1;
    held = id ∷ s.held;
  }

  abbrev pub after_start : Text → ℕ → System S → System S
  after_start id now s =
      let (runs, m) = start put id now s.manager in
      record s {
        manager = m;
        idle = if runs then s.idle else suc s.idle;
        held = remove id s.held;
        working = if runs then id ∷ s.working else s.working;
      }

  -- Between the two critical sections of the end of runOne nothing but Stop looks at the map that
  -- the second one changes.
  abbrev pub after_finish : Text → ℕ → Text × Option Error → System S → System S
  after_finish id now r s = record s {
    manager = release id (finish put id now r s.manager);
    idle = suc s.idle;
    working = remove id s.working;
  }

  -- One critical section of one goroutine. An id is random, so it is new. A worker that waits may
  -- leave when the root context is over.
  pub data Step (s : System S) : System S → Type 0 where
    registers :
        (id goal : Text) (now : ℕ)
        → is_empty (trim_goal goal) ≡ false
        → lookup id s.manager.tasks ≡ none
        → Step s (after_register id goal now s)
    enqueues :
        (first : Bool) (id : Text) (now : ℕ)
        → mem id s.submitting ≡ true
        → Step s (after_enqueue first id now s)
    cancels :
        (id : Text) (now : ℕ) → Step s (record s { manager = (cancel put id now s.manager).1 })
    dequeues :
        (id : Text) (rest : List Text)
        → s.manager.queue ≡ id ∷ rest
        → 0 < s.idle
        → Step s (after_dequeue id rest s)
    starts : (id : Text) (now : ℕ) → mem id s.held ≡ true → Step s (after_start id now s)
    finishes :
        (id : Text) (now : ℕ) (r : Text × Option Error)
        → mem id s.working ≡ true
        → Step s (after_finish id now r s)
    leaves : 0 < s.idle → Step s (record s { idle = s.idle - 1 })
    stops : Step s (record s { manager = stop s.manager })

  pub data Reach (s : System S) : System S → Type 0 where
    here : Reach s s
    next : {t u : System S} → Reach s t → Step t u → Reach s u
