-- ===== src/Agent/Run/Failure.antt =====
-- Run of agent/agent.go: errors, usage and the lock.
use agent_go.Prelude.{
  ℕ, zero, suc, ◌≡◌, refl, Bool, true, false, List, [], ◌∷◌, ◌++◌, Option, none, some,
  if◌then◌else◌, Option-cases, inl, inr,
}
use agent_go.Text.{Text, is_blank}
use agent_go.Errors.{Error}
use agent_go.Llm.{Message, Response, Provider, Usage, ToolCall, zero_usage, user, text_message}
use agent_go.Agent.Settings.{Settings}
use agent_go.Agent.Profile.{upsert_profile}
use agent_go.Agent.Loop.{
  Env, Session, Outcome, answered, failed, record_attempt_usage, turn_limit, commit_history,
  session_messages,
}
use agent_go.Agent.Run.Reports.{
  IsSum, add_usage-IsSum, Totals, Totals-one, Totals-append, turn_reports, reports, run_reports,
}
use agent_go.Agent.Run.{
  Step, finished, again, chat_agent, after_reply, after_chat, chat_request, turn_step, run_turns,
  max_turns_error, unlock, run_locked, run,
}

-- How a run ends that has the usage of these reports. On an error: the history, the session's usage
-- and the lock are those of before, or all of the session if no turn began. On an answer: the
-- session's usage has grown by the usage of the run.
abbrev pub EndsWell : Option (List Usage) → Session → Outcome → Session → Type 0
EndsWell none s (failed e) s' = s' ≡ s
EndsWell none s (answered t) s' = ⊥
EndsWell (some us) s (failed e) s' =
    (s'.history ≡ s.history)
    × (s'.session_usage ≡ s.session_usage)
    × (s'.running ≡ s.running)
    × Totals zero_usage us s'.last_usage
EndsWell (some us) s (answered t) s' =
    Totals zero_usage us s'.last_usage
    × IsSum s.session_usage s'.last_usage s'.session_usage
    × (s'.running ≡ s.running)

-- The same for a loop that starts with the usage `u`.
abbrev LoopEnds : Usage → List Usage → Session → Outcome → Session → Type 0
LoopEnds u us s (failed e) s' =
    (s'.history ≡ s.history)
    × (s'.session_usage ≡ s.session_usage)
    × (s'.running ≡ s.running)
    × Totals u us s'.last_usage
LoopEnds u us s (answered t) s' =
    Totals u us s'.last_usage
    × IsSum s.session_usage s'.last_usage s'.session_usage
    × (s'.running ≡ s.running)

later-LoopEnds :
    (u v : Usage) (us vs : List Usage) (s : Session) (o : Outcome) (s' : Session)
    → Totals u us v
    → LoopEnds v vs s o s'
    → LoopEnds u (us ++ vs) s o s'
later-LoopEnds u v us vs s (failed e) s' t (h, g, r, last) =
    (h, g, r, Totals-append u v s'.last_usage us vs t last)
later-LoopEnds u v us vs s (answered a) s' t (last, g, r) =
    (Totals-append u v s'.last_usage us vs t last, g, r)

module _ {W : Type 0} (c : Settings W) (env : Env W) where
  -- A turn ends the run, or goes on with the usage of its reports added.
  abbrev StepEnds : Usage → List Usage → Session → Step W → Type 0
  StepEnds u us s (finished o s' w) = LoopEnds u us s o s'
  StepEnds u us s (again messages v w) = Totals u us v

  attempt_failed :
      (u v : Usage) (us : List Usage) (s : Session) (e : Error)
      → Totals u us v
      → LoopEnds u us s (failed e) (record_attempt_usage v false s)
  unfolding record_attempt_usage
  attempt_failed u v us s e t = (refl, refl, refl, t)

  after_reply-StepEnds :
      (messages : List Message) (u v : Usage) (us : List Usage) (s : Session) (reply : Message)
      (calls : List ToolCall) (w : W)
      → Totals u us v
      → StepEnds u us s (after_reply c env messages v s reply calls w)
  unfolding after_reply record_attempt_usage commit_history
  after_reply-StepEnds messages u v us s reply [] w t = (t, add_usage-IsSum s.session_usage v, refl)
  after_reply-StepEnds messages u v us s reply (tc ∷ calls) w t = t

  after_chat-StepEnds :
      (messages : List Message) (u : Usage) (s : Session) (r : Response × Option Error × W)
      → StepEnds u (r.0.usage ∷ []) s (after_chat c env messages u s r)
  unfolding after_chat
  after_chat-StepEnds messages u s (resp, some e, w) =
      attempt_failed u _ (resp.usage ∷ []) s e (Totals-one u resp.usage)
  after_chat-StepEnds messages u s (resp, none, w) =
      after_reply-StepEnds _ u _ (resp.usage ∷ []) s resp.message resp.message.tool_calls w
        (Totals-one u resp.usage)

  turn_step-StepEnds :
      (p : Provider W) (messages : List Message) (u : Usage) (s : Session) (w : W)
      → StepEnds u (turn_reports c env p messages w) s (turn_step c env p messages u s w)
  unfolding turn_step
  turn_step-StepEnds p messages u s w = elim (Option-cases (env.policy.ctx_err w)) [
    | inr (e, h) ↦ rw (h, turn_step, turn_reports) (attempt_failed u u [] s e refl)
    | inl h ↦
        let shown : List Message = upsert_profile messages (env.memory w) in
        rw (h, turn_step, turn_reports)
          (after_chat-StepEnds shown u s (chat_agent c env p (chat_request c env shown) w))
  ]

  abbrev RunEnds : Usage → List Usage → Session → Outcome × Session × W → Type 0
  RunEnds u us s (o, s', w) = LoopEnds u us s o s'

  run_turns-RunEnds :
      (p : Provider W) (n : ℕ) (messages : List Message) (u : Usage) (s : Session) (w : W)
      → RunEnds u (reports c env p n messages u s w) s (run_turns c env p n messages u s w)
  unfolding run_turns reports
  run_turns-RunEnds p zero messages u s w = attempt_failed u u [] s (max_turns_error c env) refl
  run_turns-RunEnds p (suc n) messages u s w =
      go (turn_step c env p messages u s w) (turn_step-StepEnds p messages u s w)
        (λ m v x. run_turns-RunEnds p n m v s x)
    where
      go :
          (t : Step W)
          → StepEnds u (turn_reports c env p messages w) s t
          → ((m : List Message) (v : Usage) (x : W)
              → RunEnds v (reports c env p n m v s x) s (run_turns c env p n m v s x))
          → RunEnds u
              (elim t [
                | finished o s' w' ↦ turn_reports c env p messages w
                | again m v x ↦ turn_reports c env p messages w ++ reports c env p n m v s x
              ])
              s
              (elim t [
                | finished o s' w' ↦ (o, s', w')
                | again m v x ↦ run_turns c env p n m v s x
              ])
      go (finished o s' w') h k = h
      go (again m v x) h k =
          let r = run_turns c env p n m v s x in later-LoopEnds u v _ _ s r.0 r.1 h (k m v x)

  abbrev AllEnds : Option (List Usage) → Session → Outcome × Session × W → Type 0
  AllEnds us s (o, s', w) = EndsWell us s o s'

  unlock-EndsWell :
      (us : List Usage) (s : Session) (r : Outcome × Session × W)
      → s.running ≡ false
      → RunEnds zero_usage us (record s { running = true }) r
      → AllEnds (some us) s (unlock c env r)
  unlock-EndsWell us s (failed e, s', w) u h = (h.0, h.1, rw u, h.3)
  unlock-EndsWell us s (answered t, s', w) u h = (h.0, h.1, rw u)

  if-EndsWell :
      (b : Bool) (s : Session) (us vs : Option (List Usage)) (x y : Outcome × Session × W)
      → AllEnds us s x
      → (b ≡ false → AllEnds vs s y)
      → AllEnds (if b then us else vs) s (if b then x else y)
  if-EndsWell true s us vs x y hx hy = hx
  if-EndsWell false s us vs x y hx hy = hy refl

  locked-EndsWell :
      (default_prompt input : Text) (p : Provider W) (s : Session) (w : W)
      → s.running ≡ false
      → AllEnds
          (some (
            reports c env p
              (turn_limit c.max_turns)
              (session_messages c env default_prompt (record s { running = true }) w
                ++ text_message user input ∷ [])
              zero_usage
              (record s { running = true })
              w))
          s
          (unlock c env (run_locked c env default_prompt p input (record s { running = true }) w))
  locked-EndsWell default_prompt input p s w idle =
      let s1 : Session = record s { running = true } in
      let start : List Message =
        session_messages c env default_prompt s1 w ++ text_message user input ∷ [] in
      unlock-EndsWell _ s (run_turns c env p (turn_limit c.max_turns) start zero_usage s1 w) idle
        (run_turns-RunEnds p (turn_limit c.max_turns) start zero_usage s1 w)

  run-AllEnds :
      (default_prompt input : Text) (s : Session) (w : W)
      → AllEnds (run_reports c env default_prompt input s w) s (run c env default_prompt input s w)
  unfolding run run_reports
  run-AllEnds default_prompt input s w = elim (Option-cases c.provider) [
    | inl h ↦ rw (h, run, run_reports) refl
    | inr (p, h) ↦
        rw (h, run, run_reports)
          (if-EndsWell (is_blank input) s none _ _ _ refl λ _.
            if-EndsWell s.running s none _ _ _ refl
              λ idle. locked-EndsWell default_prompt input p s w idle)
  ]

  -- Whatever the world and the settings: a run that is refused (no provider, a blank input, a run
  -- in progress) returns an error and leaves the session as it was. Any other run leaves its last
  -- usage at the sum, as ints of Go, of the usage, as normalizeUsage gives it, of every reply that
  -- the model gave in its turns, failed ones included; if it returns an error, the history, the
  -- usage of the session and the lock are as before; if it returns an answer, the usage of the
  -- session has grown by exactly this sum, and the lock is as before.
  pub run-EndsWell :
      (default_prompt input : Text) (s : Session) (w : W)
      → EndsWell
          (run_reports c env default_prompt input s w)
          s
          (run c env default_prompt input s w).0
          (run c env default_prompt input s w).1
  run-EndsWell default_prompt input s w = run-AllEnds default_prompt input s w
