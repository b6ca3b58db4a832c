-- ===== src/Examples/Runs.antt =====
-- Runs of the agent against the script.
use agent_go.Prelude.{
  ℕ, zero, suc, ◌+◌, ◌≡◌, ◌≢◌, refl, true, false, [], ◌∷◌, none, some, arith, inl, inr, ◌<◌,
}
use agent_go.Text.{codes, text_eq}
use agent_go.Errors.{Error, new_error}
use agent_go.Llm.{Provider, Request, zero_response, chat}
use agent_go.Llm.Router.{Router}
use agent_go.Tool.{ok, find_tool, execute_detail, approval_of, Approver}
use agent_go.Tool.Outcome.{IsOutcome, execute_detail-IsOutcome, unapproved_not_run}
use agent_go.Agent.Loop.{execute_tool_calls}
use agent_go.Agent.Loop.Calls.{Filled, Occurs, execute_tool_calls-Filled}
use agent_go.Agent.Run.{run}
use agent_go.Agent.Run.Reports.{run_reports}
use agent_go.Agent.Run.Failure.{EndsWell, run-EndsWell}
use agent_go.Examples.Data.{settings, env, fresh, scripted, echo, policy, call_named}

run-EndsWell_example :
    EndsWell
      (run_reports settings env [] (codes "hi") fresh 0)
      fresh
      (run settings env [] (codes "hi") fresh 0).0
      (run settings env [] (codes "hi") fresh 0).1
run-EndsWell_example = run-EndsWell settings env [] (codes "hi") fresh 0

execute_tool_calls-Filled_example :
    Filled settings env
      (execute_tool_calls settings env (call_named "1" "echo" ∷ call_named "2" "echo" ∷ []) 0).0
      1
      (call_named "2" "echo")
execute_tool_calls-Filled_example =
    execute_tool_calls-Filled settings env (call_named "1" "echo" ∷ call_named "2" "echo" ∷ []) 0 1
      (call_named "2" "echo") both refl
  where
    both : (j : ℕ) → j < 2 → Occurs j (1 ∷ 0 ∷ [])
    both zero h = inr (inl refl)
    both (suc zero) h = inl refl
    both (suc (suc j)) h = absurd (omega arith)

execute_detail-IsOutcome_example :
    IsOutcome (execute_detail policy (echo ∷ []) (codes "echo") (codes "{}") 0).0
execute_detail-IsOutcome_example =
    execute_detail-IsOutcome policy (echo ∷ []) (codes "echo") (codes "{}") 0

abbrev deny : Approver ℕ
deny a w = (false, none, w + 1)

unapproved_not_run_example :
    ((execute_detail policy (echo ∷ []) (codes "echo") (codes "{}") 0).1
      ≡ (deny (approval_of echo (codes "echo") (codes "{}")) 0).2)
    × ((execute_detail policy (echo ∷ []) (codes "echo") (codes "{}") 0).0.code ≢ ok)
unfolding find_tool text_eq
unapproved_not_run_example =
    unapproved_not_run policy (echo ∷ []) (codes "echo") (codes "{}") 0 echo deny refl refl refl
      refl (inl refl)

abbrev cancelled_error : Error
cancelled_error = record (new_error (codes "context canceled")) { canceled = true }

abbrev cancelling : Provider ℕ
cancelling req w = (zero_response, some cancelled_error, w + 1)

abbrev router : Router ℕ
router = record {
  primary = some cancelling;
  fallback = some scripted;
  summary_model = none;
  stream = some cancelling;
}

abbrev pub request : Request
request = record { model = []; messages = []; tools = []; purpose = chat }
