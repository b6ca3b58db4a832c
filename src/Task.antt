-- ===== src/Task.antt =====
-- task/task.go: the record of an asynchronous job and the states it goes through.
pub mod Manager
pub mod System
pub mod Places
pub mod Safety
pub mod Progress
pub mod Limits
pub mod Crew
pub mod Store
pub mod Agreement
pub mod Saved
pub mod Restart
use agent_go.Prelude.{
  ℕ, Bool, true, false, ◌||◌, ◌&&◌, List, [], ◌∷◌, Option, none, some, if◌then◌else◌, ◌==◌,
}
use agent_go.Text.{Text, codes, is_nil}

pub data Status : Type 0 where
  queued : Status
  running : Status
  succeeded : Status
  failed : Status
  cancelled : Status

-- Times are numbers, and 0 is the zero time.
pub record Task : Type 0 where
  pub id : Text
  pub goal : Text
  pub status : Status
  pub progress : Text
  pub result : Text
  pub error : Text
  pub created_at : ℕ
  pub started_at : ℕ
  pub finished_at : ℕ

-- `Task{}`, whose status is the empty string: no code looks at the status of it.
abbrev pub zero_task : Task
zero_task = record {
  id = [];
  goal = [];
  status = queued;
  progress = [];
  result = [];
  error = [];
  created_at = 0;
  started_at = 0;
  finished_at = 0;
}

-- isTerminal
unfoldable pub is_terminal : Status → Bool
is_terminal succeeded = true
is_terminal failed = true
is_terminal cancelled = true
is_terminal queued = false
is_terminal running = false

abbrev pub is_queued : Status → Bool
is_queued queued = true
is_queued _ = false

abbrev pub is_running : Status → Bool
is_running running = true
is_running _ = false

abbrev pub is_cancelled : Status → Bool
is_cancelled cancelled = true
is_cancelled _ = false

abbrev pub is_failed : Status → Bool
is_failed failed = true
is_failed _ = false

-- `s[0] == ' ' || s[0] == '\t' || s[0] == '\n'`
abbrev is_goal_space : ℕ → Bool
is_goal_space c = c == 32 || c == 9 || c == 10

trim_front : Text → Text
trim_front [] = []
trim_front (c ∷ s) = let rest = trim_front s in if is_goal_space c then rest else c ∷ s

trim_back : Text → Text
trim_back [] = []
trim_back (c ∷ s) =
    let rest = trim_back s in if is_nil rest && is_goal_space c then [] else c ∷ rest

-- trimGoal
unfoldable pub trim_goal : Text → Text
unfolding trim_front trim_back
trim_goal s = trim_back (trim_front s)
