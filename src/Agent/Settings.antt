-- ===== src/Agent/Settings.antt =====
-- The settings of agent/agent.go's Agent that the loop and the history read.
use agent_go.Prelude.{Bool, Option, List}
use agent_go.Prelude.Int.{ℤ}
use agent_go.Text.{Text, CaseTables}
use agent_go.Llm.{Provider}

pub record Settings (W : Type 0) : Type 0 where
  pub unicode : CaseTables
  pub provider : Option (Provider W)
  -- `Provider.(llm.Streamer)`, for a provider that streams
  pub streamer : Option (Provider W)
  pub stream : Bool
  pub tool_names : List Text
  pub system_prompt : Text
  pub max_turns : ℤ
  pub max_tool_result_chars : ℤ
  pub max_history_messages : ℤ
  pub keep_recent_full_turns : ℤ
  pub disable_llm_summary : Bool
  pub summary_min_draft_runes : ℤ
  pub session_id : Text
