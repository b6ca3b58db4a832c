-- ===== src/Agent/Run/Reports.antt =====
-- Run of agent/agent.go: what the replies of a run report of their usage, and its sum.
use agent_go.Prelude.{
  ℕ, zero, suc, ◌≡◌, refl, subst, true, List, [], ◌∷◌, ◌++◌, Option, none, some, if◌then◌else◌,
}
use agent_go.Prelude.Int.{add_word}
use agent_go.Text.{Text, is_blank}
use agent_go.Llm.{Message, Provider, Usage, add_usage, zero_usage, user, text_message}
use agent_go.Agent.Settings.{Settings}
use agent_go.Agent.Profile.{upsert_profile}
use agent_go.Agent.Loop.{Env, Session, normalize_usage, turn_limit, session_messages}
use agent_go.Agent.Run.{finished, again, chat_agent, chat_request, turn_step}

-- `c` counts what `a` and `b` count, each of the four numbers as an int of Go.
pub record IsSum (a b c : Usage) : Type 0 where
  pub prompt : c.prompt_tokens ≡ add_word a.prompt_tokens b.prompt_tokens
  pub completion : c.completion_tokens ≡ add_word a.completion_tokens b.completion_tokens
  pub all : c.total_tokens ≡ add_word a.total_tokens b.total_tokens
  pub calls : c.calls ≡ add_word a.calls b.calls

pub add_usage-IsSum : (a b : Usage) → IsSum a b (add_usage a b)
unfolding add_usage
add_usage-IsSum a b = record { prompt = refl; completion = refl; all = refl; calls = refl }

-- Starting with `u`, the reports, each normalised, add up to `t`.
abbrev pub Totals : Usage → List Usage → Usage → Type 0
Totals u [] t = t ≡ u
Totals u (v ∷ vs) t = (s : Usage) × IsSum u (normalize_usage v) s × Totals s vs t

pub Totals-one : (u v : Usage) → Totals u (v ∷ []) (add_usage u (normalize_usage v))
Totals-one u v =
    let t = add_usage u (normalize_usage v) in (t, add_usage-IsSum u (normalize_usage v), refl)

pub Totals-append :
    (u v t : Usage) (vs ws : List Usage) → Totals u vs v → Totals v ws t → Totals u (vs ++ ws) t
Totals-append u v t [] ws same g = subst (λ x. Totals x ws t) same g
Totals-append u v t (x ∷ vs) ws (s, sum, h) g = (s, sum, Totals-append s v t vs ws h g)

module _ {W : Type 0} (c : Settings W) (env : Env W) where
  -- The report of the reply in one turn, if the model is asked.
  abbrev pub turn_reports : Provider W → List Message → W → List Usage
  turn_reports p messages w = elim (env.policy.ctx_err w) [
    | some e ↦ []
    | none ↦
        (chat_agent c env p (chat_request c env (upsert_profile messages (env.memory w))) w).0.usage
        ∷ []
  ]

  -- The reports of the replies in all turns, failed ones included.
  unfoldable pub reports : Provider W → ℕ → List Message → Usage → Session → W → List Usage
  unfolding turn_step chat_agent
  reports p zero messages usage s w = []
  reports p (suc left) messages usage s w = elim (turn_step c env p messages usage s w) [
    | finished o s' w' ↦ turn_reports p messages w
    | again messages' usage' w' ↦ turn_reports p messages w ++ reports p left messages' usage' s w'
  ]

  -- None if the run is refused before its first turn.
  unfoldable pub run_reports : Text → Text → Session → W → Option (List Usage)
  unfolding reports
  run_reports default_prompt input s w = elim c.provider [
    | none ↦ none
    | some p ↦
        if is_blank input
        then none
        else if s.running
        then none
        else some (
            reports p (turn_limit c.max_turns)
              (session_messages c env default_prompt (record s { running = true }) w
                ++ text_message user input ∷ [])
              zero_usage (record s { running = true }) w)
  ]
