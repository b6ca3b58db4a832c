-- ===== src/Agent/Run.antt =====
-- (*Agent).Run, Reset and RestoreSession of agent/agent.go, over the parts of Loop.
pub mod Commit
pub mod Reports
pub mod Failure
pub mod Working
pub mod Valid
use agent_go.Prelude.{
  ℕ, zero, suc, Bool, true, false, ◌&&◌, List, [], ◌∷◌, ◌++◌, Option, none, some, if◌then◌else◌,
}
use agent_go.Text.{Text, codes, trim_space, is_blank, decimal}
use agent_go.Errors.{Error, new_error, wrap}
use agent_go.Llm.{
  Message, Request, Response, Provider, Usage, add_usage, zero_usage, ToolCall, chat, user,
  text_message,
}
use agent_go.Agent.Settings.{Settings}
use agent_go.Agent.Profile.{upsert_profile}
use agent_go.Agent.Loop.{
  Env, Session, Outcome, answered, failed, done, failure, normalize_usage, record_attempt_usage,
  tool_messages, turn_limit, execute_tool_calls, commit_history, session_messages, session_key,
}

-- One pass of the loop: the run is over, or goes on.
pub data Step (W : Type 0) : Type 0 where
  finished : Outcome → Session → W → Step W
  again : List Message → Usage → W → Step W

abbrev pub restored : Session → Option (List Message × Option Error) → Option Error × Session
restored s none = (none, s)
restored s (some (msgs, some e)) = (some e, s)
restored s (some (msgs, none)) = (none, record s { history = msgs })

module _ {W : Type 0} (c : Settings W) (env : Env W) where
  -- (*Agent).chat: the stream is used when it is asked for and there is one.
  unfoldable pub chat_agent : Provider W → Provider W
  chat_agent p req w =
      if c.stream then (elim c.streamer [ some s ↦ s req w | none ↦ p req w ]) else p req w

  -- Case A of the loop: no tools, the run is committed.
  unfoldable pub finish_run : List Message → Usage → Session → Message → W → Step W
  finish_run messages usage s reply w =
      let (s', w1) = commit_history c env messages s w in
      let out = trim_space reply.content in
      finished (answered out) (record_attempt_usage usage true s') (env.emit (done out usage) w1)

  -- Case B: the calls are run, and their results follow.
  unfoldable pub call_tools : List Message → Usage → List ToolCall → W → Step W
  call_tools messages usage calls w =
      let (out, w') = execute_tool_calls c env calls w in
      again (messages ++ tool_messages 0 calls out) usage w'

  unfoldable pub after_reply : List Message → Usage → Session → Message → List ToolCall → W → Step W
  unfolding finish_run call_tools
  after_reply messages usage s reply [] w = finish_run messages usage s reply w
  after_reply messages usage s reply (tc ∷ calls) w = call_tools messages usage (tc ∷ calls) w

  unfoldable pub after_chat : List Message → Usage → Session → Response × Option Error × W → Step W
  unfolding after_reply
  after_chat messages usage s (resp, some e, w) =
      finished (failed (wrap (codes "agent: llm chat: ") e))
        (record_attempt_usage (add_usage usage (normalize_usage resp.usage)) false s)
        (env.emit (failure e.text) w)
  after_chat messages usage s (resp, none, w) =
      after_reply (messages ++ resp.message ∷ []) (add_usage usage (normalize_usage resp.usage)) s
        resp.message resp.message.tool_calls w

  abbrev pub chat_request : List Message → Request
  chat_request messages = record {
    model = [];
    messages = messages;
    tools = c.tool_names;
    purpose = chat;
  }

  -- The body of the loop
  unfoldable pub turn_step : Provider W → List Message → Usage → Session → W → Step W
  unfolding chat_agent after_chat
  turn_step p messages usage s w = elim (env.policy.ctx_err w) [
    | some e ↦ finished (failed (wrap (codes "agent: ") e)) (record_attempt_usage usage false s) w
    | none ↦
        let shown = upsert_profile messages (env.memory w) in
        after_chat shown usage s (chat_agent p (chat_request shown) w)
  ]

  abbrev max_turns_error : Error
  max_turns_error =
      new_error
        (codes "agent: exceeded max turns (" ++ (decimal (turn_limit c.max_turns) ++ codes ")"))

  -- `for turn := 1; turn <= maxTurns; turn++`, with the turns that are left
  unfoldable pub run_turns :
      Provider W → ℕ → List Message → Usage → Session → W → Outcome × Session × W
  unfolding turn_step
  run_turns p zero messages usage s w = (
    failed max_turns_error,
    record_attempt_usage usage false s,
    env.emit (failure max_turns_error.text) w,
  )
  run_turns p (suc left) messages usage s w = elim (turn_step p messages usage s w) [
    | finished o s' w' ↦ (o, s', w')
    | again messages' usage' w' ↦ run_turns p left messages' usage' s w'
  ]

  abbrev pub run_locked : Text → Provider W → Text → Session → W → Outcome × Session × W
  run_locked default_prompt p input s w =
      let start = session_messages c env default_prompt s w ++ text_message user input ∷ [] in
      run_turns p (turn_limit c.max_turns) start zero_usage s w

  abbrev pub unlock : Outcome × Session × W → Outcome × Session × W
  unlock (o, s, w) = (o, record s { running = false }, w)

  -- Run
  unfoldable pub run : Text → Text → Session → W → Outcome × Session × W
  unfolding run_turns
  run default_prompt input s w = elim c.provider [
    | none ↦ (failed (new_error (codes "agent: provider is nil")), s, w)
    | some p ↦
        if is_blank input
        then (failed (new_error (codes "agent: empty input")), s, w)
        else if s.running
        then (failed (new_error (codes "agent: run already in progress")), s, w)
        else unlock (run_locked default_prompt p input (record s { running = true }) w)
  ]

  -- Reset
  unfoldable pub reset : Session → W → Session × W
  reset s w = (
    record s { history = []; last_usage = zero_usage; session_usage = zero_usage },
    env.forget (session_key c env) w,
  )

  -- RestoreSession
  unfoldable pub restore_session : Session → W → Option Error × Session
  restore_session s w = restored s (env.load (session_key c env) w)
