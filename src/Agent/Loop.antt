-- ===== src/Agent/Loop.antt =====
-- (*Agent).Run of agent/agent.go: chat, run the tools that are called, chat again, and commit.
pub mod Calls
use agent_go.Prelude.{
  ℕ, zero, suc, ◌+◌, Bool, true, false, ◌&&◌, ◌||◌, not, List, [], ◌∷◌, ◌++◌, Option, none, some,
  if◌then◌else◌, length, get_elem?, set, map, ◌==◌,
}
use agent_go.Prelude.Int.{ℤ, pos, negsuc, is_positive, add_word}
use agent_go.Text.{Text, codes, trim_space, is_blank, is_nil, is_empty, decimal}
use agent_go.Errors.{Error, new_error, wrap}
use agent_go.Llm.{
  Message, Request, Response, Provider, Usage, add_usage, zero_usage, ToolCall, chat, user, system,
  tool, text_message, zero_message,
}
use agent_go.Tool.{Tool, Policy, Code, ExecResult, execute_detail}
use agent_go.Tool
use agent_go.Agent.Settings.{Settings}
use agent_go.Agent.Clip.{cap_tool_result}
use agent_go.Agent.Memory.{Memory}
use agent_go.Agent.Profile.{upsert_profile, strip_profile_messages}
use agent_go.Agent.Fold.{fold_old_turns}
use agent_go.Agent.History.{trim_history}

-- agent/event.go
pub data Event : Type 0 where
  tool_start : Text → Text → Text → Event
  tool_end : Text → Text → Text → Code → Option Error → Event
  done : Text → Usage → Event
  failure : Text → Event

-- What the agent meets outside of itself: the sink of events, the profile behind the pointer
-- Memory, the store of sessions (`load` is none without one; the errors of the other two go to the log
-- alone), and the order in which the
-- goroutines of a batch of `n` calls run.
pub record Env (W : Type 0) : Type 0 where
  pub policy : Policy W
  pub tools : List (Tool W)
  pub emit : Event → W → W
  pub memory : W → Option Memory
  pub save : Text → List Message → W → W
  pub forget : Text → W → W
  pub load : Text → W → Option (List Message × Option Error)
  pub schedule : ℕ → W → List ℕ

-- The fields of Agent that a run changes; `running` is the lock.
pub record Session : Type 0 where
  pub history : List Message
  pub last_usage : Usage
  pub session_usage : Usage
  pub running : Bool

pub data Outcome : Type 0 where
  answered : Text → Outcome
  failed : Error → Outcome

pub record ToolCallResult : Type 0 where
  pub content : Text
  pub raw : Text
  pub truncated : Bool
  pub code : Option Code

abbrev pub no_result : ToolCallResult
no_result = record { content = []; raw = []; truncated = false; code = none }

-- normalizeUsage
unfoldable pub normalize_usage : Usage → Usage
normalize_usage u =
    let counted = is_positive u.prompt_tokens || is_positive u.completion_tokens in
    let v =
      if not (is_positive u.calls) && (counted || is_positive u.total_tokens)
      then record u { calls = 1 }
      else u in
    if v.total_tokens == 0 && counted
    then record v { total_tokens = add_word v.prompt_tokens v.completion_tokens }
    else v

-- recordAttemptUsage
unfoldable pub record_attempt_usage : Usage → Bool → Session → Session
record_attempt_usage u success s =
    if success
    then record s { last_usage = u; session_usage = add_usage s.session_usage u }
    else record s { last_usage = u }

-- The message that takes a result back to the model.
abbrev pub tool_message : ToolCall → ToolCallResult → Message
tool_message c r = record zero_message {
  role = tool;
  tool_call_id = c.id;
  name = c.function.name;
  content = r.content;
}

abbrev pub result_at : List ToolCallResult → ℕ → ToolCallResult
result_at out i = elim (get_elem? out i) [ none ↦ no_result | some r ↦ r ]

-- `for i, tc := range assistant.ToolCalls`: results in the order of the calls
unfoldable pub tool_messages : ℕ → List ToolCall → List ToolCallResult → List Message
tool_messages i [] out = []
tool_messages i (c ∷ calls) out = tool_message c (result_at out i) ∷ tool_messages (suc i) calls out

abbrev pub blank_results : List ToolCall → List ToolCallResult
blank_results calls = map (λ c. no_result) calls

abbrev pub default_max_turns : ℕ
default_max_turns = 8

-- `if maxTurns <= 0 { maxTurns = 8 }`
abbrev pub turn_limit : ℤ → ℕ
turn_limit (negsuc n) = default_max_turns
turn_limit (pos zero) = default_max_turns
turn_limit (pos (suc n)) = suc n

module _ {W : Type 0} (c : Settings W) (env : Env W) where
  -- `run` of executeToolCalls, for one call
  unfoldable pub run_call : ToolCall → W → ToolCallResult × W
  run_call tc w =
      let f = tc.function in
      let w1 = env.emit (tool_start f.name tc.id f.arguments) w in
      let (res, w2) = execute_detail env.policy env.tools f.name f.arguments w1 in
      let (content, truncated) = cap_tool_result c.max_tool_result_chars res.content in
      (
        record {
          content = content;
          raw = res.content;
          truncated = truncated;
          code = some res.code;
        },
        env.emit (tool_end f.name tc.id content res.code res.err) w2,
      )

  -- The goroutines of a batch, each as a whole, in the order of the list; each fills its own slot.
  unfoldable pub run_scheduled :
      List ToolCall → List ℕ → List ToolCallResult → W → List ToolCallResult × W
  unfolding run_call
  run_scheduled calls [] out w = (out, w)
  run_scheduled calls (i ∷ is) out w = elim (get_elem? calls i) [
    | none ↦ run_scheduled calls is out w
    | some tc ↦ let (r, w') = run_call tc w in run_scheduled calls is (set out i r) w'
  ]

  -- executeToolCalls; MaxToolConcurrency only narrows the orders that can occur
  unfoldable pub execute_tool_calls : List ToolCall → W → List ToolCallResult × W
  unfolding run_scheduled
  execute_tool_calls [] w = ([], w)
  execute_tool_calls (tc ∷ []) w = let (r, w') = run_call tc w in (r ∷ [], w')
  execute_tool_calls (tc ∷ d ∷ calls) w =
      let all = tc ∷ d ∷ calls in
      run_scheduled all (env.schedule (length all) w) (blank_results all) w

  -- sessionID
  abbrev pub session_key : Text
  session_key = let id = trim_space c.session_id in if is_empty id then codes "default" else id

  -- commitHistory and persistSession
  unfoldable pub commit_history : List Message → Session → W → Session × W
  commit_history messages s w =
      let kept = strip_profile_messages messages in
      let (folded, n) = fold_old_turns kept c.keep_recent_full_turns in
      let (trimmed, dropped, w1) = trim_history c folded w in
      (record s { history = trimmed }, env.save session_key trimmed w1)

  -- sessionMessages; the text of the default prompt is not modelled
  unfoldable pub session_messages : Text → Session → W → List Message
  session_messages default_prompt s w =
      let prompt = if is_empty c.system_prompt then default_prompt else c.system_prompt in
      let seed = if is_nil s.history then text_message system prompt ∷ [] else s.history in
      upsert_profile seed (env.memory w)
