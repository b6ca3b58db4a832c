-- ===== src/Agent/History.antt =====
-- trimHistory of agent/history.go: old turns go into the sticky summary until the history fits.
pub mod Rest
pub mod Trimming
use agent_go.Prelude.{ℕ, zero, suc, ◌+◌, Bool, true, false, List, ◌==◌, ltb, if◌then◌else◌, length}
use agent_go.Prelude.Int.{ℤ, pos, negsuc}
use agent_go.Llm.{Message}
use agent_go.Agent.Settings.{Settings}
use agent_go.Agent.Turns.{trim_by_user_turns}
use agent_go.Agent.Summary.{extract_summary_body, upsert_summary}
use agent_go.Agent.Compress.{finalize_summary}
use agent_go.Agent.Spoken.{user_count}

-- `max > 0 && len(history) > max`
abbrev pub over_limit : ℤ → List Message → Bool
over_limit (negsuc n) h = false
over_limit (pos zero) h = false
over_limit (pos (suc n)) h = ltb (suc n) (length h)

module _ {W : Type 0} (c : Settings W) where
  -- Drop turns once, and fold them into the summary.
  abbrev pub trim_round : List Message → W → List Message × W
  trim_round h w =
      let r = trim_by_user_turns h c.max_history_messages in
      let (summary, w') = finalize_summary c (extract_summary_body h) r.dropped w in
      (upsert_summary r.out summary, w')

  abbrev pub dropped_by_round : List Message → ℕ
  dropped_by_round h = (trim_by_user_turns h c.max_history_messages).dropped_turns

  -- The loop of trimHistory. Each round drops a turn, so the number of users is enough fuel.
  unfoldable pub trim_rounds : ℕ → List Message → ℕ → W → List Message × ℕ × W
  trim_rounds zero h n w = (h, n, w)
  trim_rounds (suc fuel) h n w = elim (over_limit c.max_history_messages h) [
    | false ↦ (h, n, w)
    | true ↦ elim (dropped_by_round h == 0) [
      | true ↦ (h, n, w)
      | false ↦ let (h', w') = trim_round h w in trim_rounds fuel h' (n + dropped_by_round h) w'
    ]
  ]

  -- trimHistory: the new history, the number of turns dropped, and the world
  unfoldable pub trim_history : List Message → W → List Message × ℕ × W
  unfolding trim_rounds
  trim_history h w =
      if over_limit c.max_history_messages h
      then (if dropped_by_round h == 0
          then ((trim_by_user_turns h c.max_history_messages).out, 0, w)
          else (let (h', w') = trim_round h w in
              trim_rounds (user_count h) h' (dropped_by_round h) w'))
      else (h, 0, w)
