-- ===== src/Run.antt =====
-- run/registry.go: runs of agents as jobs, one at a time for a session.
pub mod Registry
pub mod Eviction
pub mod Keys
pub mod Bound
pub mod Ownership
pub mod Exclusive
use agent_go.Prelude.{ℕ, Bool, true, false, ◌||◌, Option, none, some}
use agent_go.Text.{Text, codes, contains}
use agent_go.Errors.{Error}
use agent_go.Llm.{Usage, zero_usage}

pub data Status : Type 0 where
  running : Status
  succeeded : Status
  failed : Status
  cancelled : Status

abbrev pub status_name : Status → Text
status_name running = codes "running"
status_name succeeded = codes "succeeded"
status_name failed = codes "failed"
status_name cancelled = codes "cancelled"

-- Times are numbers, and 0 is the zero time.
pub record Record : Type 0 where
  pub id : Text
  pub session_id : Text
  pub request_id : Text
  pub input : Text
  pub output : Text
  pub err : Text
  pub status : Status
  pub chat_error : Bool
  pub channel_err : Text
  pub usage : Usage
  pub started_at : ℕ
  pub finished_at : ℕ

abbrev pub is_running : Status → Bool
is_running running = true
is_running _ = false

-- isChatErr of an error that is not nil
unfoldable pub is_chat_err : Error → Bool
is_chat_err e = elim e.status [
  | some s ↦ true
  | none ↦ contains e.text (codes "llm chat") || contains e.text (codes "llm:")
]
