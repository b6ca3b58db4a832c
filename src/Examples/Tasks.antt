-- ===== src/Examples/Tasks.antt =====
-- Concrete runs of a task manager.
use agent_go.Prelude.{length, ◌+◌, ◌≤◌, ◌≡◌, refl, false, List, [], ◌∷◌, some, arith}
use agent_go.Text.{Text, codes, text_eq}
use agent_go.Text.Table.{lookup, insert, mem, remove}
use agent_go.Errors.{new_error}
use agent_go.Task.{Task, Status, cancelled, running, succeeded, trim_goal}
use agent_go.Task.Manager.{new_manager, register, enqueue, cancel, start, finish, release}
use agent_go.Task.System.{
  launched, new_system, System, Step, registers, enqueues, cancels, dequeues, starts, finishes,
  Reach, here, next, after_register, after_enqueue, after_dequeue, after_start, after_finish,
}
use agent_go.Task.Places.{IsPlaced, status_of}
use agent_go.Task.Safety.{Reach-IsPlaced}
use agent_go.Task.Progress.{Advances, Step-Advances}
use agent_go.Task.Crew.{Reach-new_system}
use agent_go.Task.Store.{MemoryStore, memory_put}
use agent_go.Task.Agreement.{empty_store}
use agent_go.Task.Restart.{new_manager-IsPlaced}
use agent_go.Task.Saved.{IsSaved, Reach-IsSaved}
use agent_go.Prelude.Int.{pos}

abbrev task_id : Text
task_id = codes "t_1"

-- Nothing has been submitted yet; one worker, and room for one task.
abbrev idle : System MemoryStore
idle = record {
  manager = record {
    queue_size = 1;
    queue = [];
    store = some empty_store;
    tasks = [];
    order = [];
    cancels = [];
    jobs = [];
    stopped = false;
  };
  idle = 1;
  submitting = [];
  held = [];
  working = [];
}

abbrev registered : System MemoryStore
registered = after_register memory_put task_id (codes " sum up ") 10 idle

abbrev waiting : System MemoryStore
waiting = after_enqueue memory_put false task_id 11 registered

abbrev taken : System MemoryStore
taken = after_dequeue memory_put task_id [] waiting

abbrev running_one : System MemoryStore
running_one = after_start memory_put task_id 12 taken

abbrev cancelling : System MemoryStore
cancelling = record running_one { manager = (cancel memory_put task_id 13 running_one.manager).1 }

abbrev over : System MemoryStore
over =
    after_finish memory_put task_id 14 ([], some (new_error (codes "context canceled"))) cancelling

history : Reach memory_put idle over
unfolding register enqueue cancel start finish release trim_goal lookup insert mem remove text_eq
    agent_go.Text.is_empty agent_go.Text.is_nil
history =
    next
      (next
        (next
          (next
            (next (next here (registers task_id (codes " sum up ") 10 refl refl))
              (enqueues false task_id 11 refl))
            (dequeues task_id [] refl (omega arith)))
          (starts task_id 12 refl))
        (cancels task_id 13))
      (finishes task_id 14 ([], some (new_error (codes "context canceled"))) refl)

over_status : status_of task_id over ≡ some cancelled
unfolding register enqueue cancel start finish release trim_goal lookup insert mem remove text_eq
over_status = refl

idle-IsPlaced : (id : Text) → IsPlaced id idle
unfolding lookup mem
idle-IsPlaced id = refl

Reach-IsPlaced_example : IsPlaced task_id over
Reach-IsPlaced_example = Reach-IsPlaced memory_put idle-IsPlaced history task_id

fresh : new_system memory_put (λ s. some []) (pos 1) (pos 1) (some empty_store) ≡ idle
unfolding new_system
fresh = refl

Reach-new_system_example :
    (length over.manager.queue ≤ 1) × (length over.held + length over.working ≤ 1)
unfolding new_system
Reach-new_system_example =
    Reach-new_system memory_put (λ s. some []) (pos 1) (pos 1) (some empty_store) 1 1 refl refl
      history

-- A task, another one, and the first again, finished.
abbrev task_of : Text → Status → Task
task_of id st = record {
  id = id;
  goal = codes "sum up";
  status = st;
  progress = [];
  result = [];
  error = [];
  created_at = 1;
  started_at = 0;
  finished_at = 0;
}

abbrev two_tasks : List Task
two_tasks = task_of task_id running ∷ task_of (codes "t_2") running ∷ task_of task_id succeeded ∷ []

idle-IsSaved : IsSaved idle.manager
unfolding lookup
idle-IsSaved = record { kept = empty_store; store = refl; same = λ id. refl; named = λ id t e. cc }

Reach-IsSaved_example : IsSaved over.manager
Reach-IsSaved_example = Reach-IsSaved history idle-IsSaved

first_step : Step memory_put idle registered
unfolding trim_goal lookup agent_go.Text.is_empty agent_go.Text.is_nil
first_step = registers task_id (codes " sum up ") 10 refl refl

Step-Advances_example : Advances (status_of task_id idle) (status_of task_id registered)
Step-Advances_example = Step-Advances memory_put first_step idle-IsPlaced task_id

-- The same tasks, read by a new manager with room for three.
new_manager-IsPlaced_example :
    IsPlaced task_id
      (launched 1 (new_manager memory_put (λ s. some two_tasks) (pos 3) (some empty_store)))
new_manager-IsPlaced_example =
    new_manager-IsPlaced memory_put (λ s. some two_tasks) (pos 3) 1 empty_store two_tasks task_id
      refl (omega arith)
