-- ===== src/Session/Restore.antt =====
-- RestoreSession of agent/agent.go after a run, over a store of sessions (session/store.go).
use agent_go.Prelude.{
  ℕ, zero, suc, ◌≡◌, ap, ◌∙◌, List, [], ◌∷◌, Option, none, some, Option-cases, Bool-cases, subst,
  inl, inr,
}
use agent_go.Text.{Text, is_blank}
use agent_go.Errors.{Error}
use agent_go.Llm.{Message, Provider, Usage, Response, ToolCall}
use agent_go.Agent.Settings.{Settings}
use agent_go.Agent.Profile.{upsert_profile}
use agent_go.Agent.Loop.{
  Env, Session, Outcome, answered, failed, commit_history, session_key, record_attempt_usage,
}
use agent_go.Agent.Run.{
  Step, finished, again, finish_run, after_reply, after_chat, turn_step, run_turns, unlock, run,
  restore_session, restored, chat_agent, chat_request,
}
use agent_go.Session.Laws.{HasStore}

module _ {W : Type 0} (c : Settings W) (env : Env W) (laws : HasStore env) where
  -- The store has the history of the session.
  abbrev IsStored : Session → W → Type 0
  IsStored s w = env.load (session_key c env) w ≡ some (s.history, none)

  StepStores : Step W → Type 0
  StepStores (finished (answered t) s w) = IsStored s w
  StepStores (finished (failed e) s w) = Unit
  StepStores (again messages usage w) = Unit

  after_reply-Stores :
      (messages : List Message) (usage : Usage) (s : Session) (reply : Message)
      (calls : List ToolCall) (w : W)
      → StepStores (after_reply c env messages usage s reply calls w)
  unfolding after_reply finish_run commit_history record_attempt_usage StepStores
  after_reply-Stores messages usage s reply [] w = laws.load-emit _ _ _ ∙ laws.load-save _ _ _
  after_reply-Stores messages usage s reply (tc ∷ calls) w = tt

  after_chat-Stores :
      (messages : List Message) (usage : Usage) (s : Session) (r : Response × Option Error × W)
      → StepStores (after_chat c env messages usage s r)
  unfolding after_chat StepStores
  after_chat-Stores messages usage s (resp, some e, w) = tt
  after_chat-Stores messages usage s (resp, none, w) =
      after_reply-Stores _ _ s resp.message resp.message.tool_calls w

  turn_step-Stores :
      (p : Provider W) (messages : List Message) (usage : Usage) (s : Session) (w : W)
      → StepStores (turn_step c env p messages usage s w)
  unfolding turn_step
  turn_step-Stores p messages usage s w = elim (Option-cases (env.policy.ctx_err w)) [
    | inr (e, h) ↦ rw (h, turn_step) (unfold StepStores in tt)
    | inl h ↦
        let shown : List Message = upsert_profile messages (env.memory w) in
        rw (h, turn_step)
          (after_chat-Stores shown usage s (chat_agent c env p (chat_request c env shown) w))
  ]

  -- What is stored when a run ends with an answer
  RunStores : Outcome × Session × W → Type 0
  RunStores (o, s, w) = StepStores (finished o s w)

  run_turns-Stores :
      (p : Provider W) (n : ℕ) (messages : List Message) (usage : Usage) (s : Session) (w : W)
      → RunStores (run_turns c env p n messages usage s w)
  unfolding run_turns RunStores StepStores
  run_turns-Stores p zero messages usage s w = tt
  run_turns-Stores p (suc n) messages usage s w =
      go (turn_step c env p messages usage s w) (turn_step-Stores p messages usage s w)
        (λ m u v. run_turns-Stores p n m u s v)
    where
      go :
          (t : Step W)
          → StepStores t
          → ((m : List Message) (u : Usage) (v : W) → RunStores (run_turns c env p n m u s v))
          → RunStores (elim t [
            | finished o s' w' ↦ (o, s', w')
            | again m u v ↦ run_turns c env p n m u s v
          ])
      go (finished o s' w') h k = h
      go (again m u v) h k = k m u v

  RunStores-unlock : (r : Outcome × Session × W) → RunStores r → RunStores (unlock c env r)
  unfolding RunStores StepStores
  RunStores-unlock (answered t, s, w) h = h
  RunStores-unlock (failed e, s, w) h = h

  run-RunStores :
      (default_prompt input : Text) (s : Session) (w : W)
      → RunStores (run c env default_prompt input s w)
  unfolding run RunStores StepStores
  run-RunStores default_prompt input s w = elim (Option-cases c.provider) [
    | inl h ↦ rw (h, run) tt
    | inr (p, h) ↦
        rw (h, run)
          (elim (Bool-cases (is_blank input)) [
            | inl b ↦ rw b tt
            | inr b ↦ rw b (elim (Bool-cases s.running) [
              | inl r ↦ rw r tt
              | inr r ↦ rw r (RunStores-unlock _ (run_turns-Stores p _ _ _ _ w))
            ])
          ])
  ]

  stored-restored :
      (s t : Session) (w : W)
      → IsStored s w
      → restore_session c env t w ≡ (none, record t { history = s.history })
  unfolding restore_session
  stored-restored s t w h = ap (restored t) h

  -- For an environment whose store of sessions loads what was last saved, and is left alone by
  -- events: if a run answers, then restoring the session in the world that the run leaves, into
  -- any agent of the same settings, gives no error and exactly the history that the run committed.
  pub restore_session-run :
      (default_prompt input answer : Text) (s s' t : Session) (w w' : W)
      → run c env default_prompt input s w ≡ (answered answer, s', w')
      → restore_session c env t w' ≡ (none, record t { history = s'.history })
  unfolding RunStores StepStores
  restore_session-run default_prompt input answer s s' t w w' e =
      stored-restored s' t w' (subst RunStores e (run-RunStores default_prompt input s w))
