-- ===== src/Agent/Run/Valid.antt =====
-- Run of agent/agent.go: what it makes of the history of a session.
use agent_go.Prelude.{
  ℕ, zero, suc, ◌<◌, ◌≡◌, refl, sym, ap, ◌∙◌, Bool, true, false, List, [], ◌∷◌, ◌++◌, Option, none,
  some, arith, if◌then◌else◌, Option-cases, inl, inr, subst, append_assoc,
}
use agent_go.Text.{Text, is_blank, is_nil}
use agent_go.Errors.{Error}
use agent_go.Llm.{
  Message, Response, Provider, Usage, ToolCall, assistant, user, system, zero_usage, text_message,
}
use agent_go.Agent.Settings.{Settings}
use agent_go.Agent.Protocol.{IsPaired, IsPaired-append, pending, pending-append, bind, call_ids}
use agent_go.Agent.Spoken.{spoken, StartsWithUser, spoken-append, user_count, user_count-append}
use agent_go.Agent.Profile.{upsert_profile}
use agent_go.Agent.Loop.{
  Env, Session, Outcome, answered, failed, record_attempt_usage, tool_messages, turn_limit,
  execute_tool_calls, session_messages, ToolCallResult,
}
use agent_go.Agent.Loop.Calls.{pending-tool_messages}
use agent_go.Agent.Run.{
  Step, finished, again, chat_agent, after_reply, after_chat, turn_step, run_turns, unlock,
  run_locked, run,
}
use agent_go.Agent.Run.Commit.{IsSession, upsert_profile-IsSession, commit_history-IsCommitted}
use agent_go.Agent.Run.Working.{
  Replies, IsWorking, StartsWithUser-append, IsWorking-append, IsWorking-upsert_profile,
  pending-reply,
}

module _ {W : Type 0} (c : Settings W) (env : Env W) where
  abbrev StepIsValid : Session → Step W → Type 0
  StepIsValid s (finished (answered t) s' w) = IsSession s'.history × (0 < user_count s'.history)
  StepIsValid s (finished (failed e) s' w) = s'.history ≡ s.history
  StepIsValid s (again messages usage w) = IsWorking messages

  after_reply-IsValid :
      (h : List Message) (usage : Usage) (s : Session) (reply : Message) (calls : List ToolCall)
      (w : W)
      → IsWorking h
      → reply.role ≡ assistant
      → reply.tool_calls ≡ calls
      → StepIsValid s (after_reply c env (h ++ reply ∷ []) usage s reply calls w)
  unfolding after_reply record_attempt_usage
  after_reply-IsValid h usage s reply [] w k a e =
      let paired : IsPaired (h ++ reply ∷ []) =
        pending-reply h reply k.session.paired a ∙ ap (λ l. some (call_ids l)) e in
      let working = IsWorking-append h (reply ∷ []) k paired in
      let done = commit_history-IsCommitted c env (h ++ reply ∷ []) s w working.session in
      (done.session, done.users working.asked)
  after_reply-IsValid h usage s reply (tc ∷ calls) w k a e =
      let out : List ToolCallResult = (execute_tool_calls c env (tc ∷ calls) w).0 in
      let results : List Message = tool_messages 0 (tc ∷ calls) out in
      let waits = pending-reply h reply k.session.paired a ∙ ap (λ l. some (call_ids l)) e in
      let paired : IsPaired ((h ++ reply ∷ []) ++ results) =
        pending-append [] (h ++ reply ∷ []) results
        ∙ ap (λ o. bind o (λ q. pending q results)) waits
        ∙ pending-tool_messages 0 (tc ∷ calls) out in
      rw (append_assoc h (reply ∷ []) results)
        (IsWorking-append h (reply ∷ results) k (rw (← append_assoc h (reply ∷ []) results) paired))

  after_chat-IsValid :
      (h : List Message) (usage : Usage) (s : Session) (r : Response × Option Error × W)
      → IsWorking h
      → r.0.message.role ≡ assistant
      → StepIsValid s (after_chat c env h usage s r)
  unfolding after_chat record_attempt_usage
  after_chat-IsValid h usage s (resp, some e, w) k a = refl
  after_chat-IsValid h usage s (resp, none, w) k a =
      after_reply-IsValid h _ s resp.message resp.message.tool_calls w k a refl

  module _ (p : Provider W) (speaks : Replies (chat_agent c env p)) where
    turn_step-IsValid :
        (messages : List Message) (usage : Usage) (s : Session) (w : W)
        → IsWorking messages
        → StepIsValid s (turn_step c env p messages usage s w)
    unfolding turn_step record_attempt_usage
    turn_step-IsValid messages usage s w k = elim (Option-cases (env.policy.ctx_err w)) [
      | inr (e, h) ↦ rw (h, turn_step) refl
      | inl h ↦
          rw (h, turn_step)
            (after_chat-IsValid (upsert_profile messages (env.memory w)) usage s _
              (IsWorking-upsert_profile messages (env.memory w) k) (speaks _ w))
    ]

    abbrev RunIsValid : Session → Outcome × Session × W → Type 0
    RunIsValid s (o, s', w) = StepIsValid s (finished o s' w)

    run_turns-IsValid :
        (n : ℕ) (messages : List Message) (usage : Usage) (s : Session) (w : W)
        → IsWorking messages
        → RunIsValid s (run_turns c env p n messages usage s w)
    unfolding run_turns record_attempt_usage
    run_turns-IsValid zero messages usage s w k = refl
    run_turns-IsValid (suc n) messages usage s w k =
        go (turn_step c env p messages usage s w) (turn_step-IsValid messages usage s w k)
          (λ m u v. run_turns-IsValid n m u s v)
      where
        go :
            (t : Step W)
            → StepIsValid s t
            → ((m : List Message) (u : Usage) (v : W)
                → IsWorking m
                → RunIsValid s (run_turns c env p n m u s v))
            → RunIsValid s (elim t [
              | finished o s' w' ↦ (o, s', w')
              | again m u v ↦ run_turns c env p n m u s v
            ])
        go (finished o s' w') h k = h
        go (again m u v) h k = k m u v h

  -- The messages that a run starts from.
  abbrev start_messages : Text → Text → Session → W → List Message
  start_messages default_prompt input s w =
      session_messages c env default_prompt s w ++ text_message user input ∷ []

  asked-IsWorking :
      (h : List Message) (input : Text)
      → IsSession h
      → IsWorking (h ++ text_message user input ∷ [])
  unfolding pending
  asked-IsWorking h input k = record {
    session = record {
      paired = IsPaired-append h (text_message user input ∷ []) k.paired refl;
      start =
          subst StartsWithUser (sym (spoken-append h (text_message user input ∷ [])))
            (StartsWithUser-append (spoken h) (text_message user input ∷ []) k.start refl);
    };
    asked = omega (arith, user_count-append h (text_message user input ∷ []));
  }

  seed-IsSession :
      (b : Bool) (prompt : Text) (h : List Message)
      → IsSession h
      → IsSession (if b then text_message system prompt ∷ [] else h)
  unfolding pending
  seed-IsSession true prompt h k = record { paired = refl; start = tt }
  seed-IsSession false prompt h k = k

  start_messages-IsWorking :
      (default_prompt input : Text) (s : Session) (w : W)
      → IsSession s.history
      → IsWorking (start_messages default_prompt input s w)
  unfolding session_messages
  start_messages-IsWorking default_prompt input s w k =
      asked-IsWorking (session_messages c env default_prompt s w) input (
        upsert_profile-IsSession _ (env.memory w) (seed-IsSession (is_nil s.history) _ s.history k))

  -- The conversation that a run leaves, by its outcome.
  abbrev pub LeavesSession : Session → Outcome × Session × W → Type 0
  LeavesSession s (answered t, s', w) = IsSession s'.history × (0 < user_count s'.history)
  LeavesSession s (failed e, s', w) = s'.history ≡ s.history

  if-LeavesSession :
      (b : Bool) (s : Session) (x y : Outcome × Session × W)
      → LeavesSession s x
      → LeavesSession s y
      → LeavesSession s (if b then x else y)
  if-LeavesSession true s x y hx hy = hx
  if-LeavesSession false s x y hx hy = hy

  unlock-LeavesSession :
      (s : Session) (r : Outcome × Session × W)
      → LeavesSession (record s { running = true }) r
      → LeavesSession s (unlock c env r)
  unlock-LeavesSession s (failed e, s', w) h = h
  unlock-LeavesSession s (answered t, s', w) h = h

  run_turns-LeavesSession :
      (p : Provider W) (n : ℕ) (messages : List Message) (u : Usage) (s : Session) (w : W)
      → Replies (chat_agent c env p)
      → IsWorking messages
      → LeavesSession s (run_turns c env p n messages u s w)
  run_turns-LeavesSession p n messages u s w speaks k =
      flip (run_turns c env p n messages u s w) (run_turns-IsValid p speaks n messages u s w k)
    where
      flip : (r : Outcome × Session × W) → StepIsValid s (finished r.0 r.1 r.2) → LeavesSession s r
      flip (answered t, s', w) h = h
      flip (failed e, s', w) h = h

  -- If the provider replies as an assistant and the history before is a session, then after an
  -- answered run the history is a session in which a user has spoken, and after a failed run it is
  -- the history before.
  pub run-LeavesSession :
      (default_prompt input : Text) (s : Session) (w : W)
      → ((p : Provider W) → c.provider ≡ some p → Replies (chat_agent c env p))
      → IsSession s.history
      → LeavesSession s (run c env default_prompt input s w)
  unfolding run
  run-LeavesSession default_prompt input s w speaks k = elim (Option-cases c.provider) [
    | inl h ↦ rw (h, run) refl
    | inr (p, h) ↦
        let s1 : Session = record s { running = true } in
        rw (h, run)
          (if-LeavesSession (is_blank input) s _ _ refl (
            if-LeavesSession s.running s _ _ refl (
              unlock-LeavesSession s (run_locked c env default_prompt p input s1 w) (
                run_turns-LeavesSession p (turn_limit c.max_turns)
                  (start_messages default_prompt input s1 w) zero_usage s1 w (speaks p h)
                  (start_messages-IsWorking default_prompt input s1 w k)))))
  ]

  -- A conversation: runs one after another, each in whatever world it finds.
  pub talk : Text → List (Text × W) → Session → Session
  talk default_prompt [] s = s
  talk default_prompt ((input, w) ∷ rest) s =
      talk default_prompt rest (run c env default_prompt input s w).1
