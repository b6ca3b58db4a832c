-- ===== src/Agent/Run/Commit.antt =====
-- commitHistory of agent/agent.go: the history that the next run starts from.
use agent_go.Prelude.{ℕ, zero, suc, ◌<◌, ◌≡◌, refl, sym, ap, ◌∙◌, List, [], length, subst, Option}
use agent_go.Prelude.Int.{ℤ, pos, negsuc}
use agent_go.Llm.{Message}
use agent_go.Agent.Settings.{Settings}
use agent_go.Agent.Protocol.{IsPaired, pending}
use agent_go.Agent.Spoken.{spoken, StartsWithUser, user_count, user_count-spoken}
use agent_go.Agent.Profile.{
  strip_profile_messages, strip_profile_messages-IsPaired, spoken-strip_profile_messages,
  upsert_profile, upsert_profile-IsPaired, spoken-upsert_profile,
}
use agent_go.Agent.Fold.{fold_old_turns, fold_but}
use agent_go.Agent.Fold.Whole.{Folds-users_of}
use agent_go.Agent.Fold.Folding.{fold_but-Folds, Folds-IsPaired, Folds-StartsWithUser, users_of}
use agent_go.Agent.History.Trimming.{trim_history-IsTrimmedRest}
use agent_go.Agent.History.Rest.{IsTrimmed}
use agent_go.Agent.Loop.{Env, Session, commit_history}

-- Calls and results are together, and a user speaks first.
pub record IsSession (h : List Message) : Type 0 where
  pub paired : IsPaired h
  pub start : StartsWithUser (spoken h)

pub nil-IsSession : IsSession []
unfolding pending
nil-IsSession = record { paired = refl; start = tt }

strip-IsSession : (h : List Message) → IsSession h → IsSession (strip_profile_messages h)
strip-IsSession h s = record {
  paired = strip_profile_messages-IsPaired h s.paired;
  start = subst StartsWithUser (sym (spoken-strip_profile_messages h)) s.start;
}

pub upsert_profile-IsSession :
    (h : List Message) (mem : Option _) → IsSession h → IsSession (upsert_profile h mem)
upsert_profile-IsSession h mem s = record {
  paired = upsert_profile-IsPaired h mem s.paired;
  start = subst StartsWithUser (sym (spoken-upsert_profile h mem)) s.start;
}

fold_but-IsSession : (keep : ℕ) (h : List Message) → IsSession h → IsSession (fold_but keep h).0
fold_but-IsSession keep h s = record {
  paired = Folds-IsPaired (fold_but-Folds keep h) s.paired;
  start = Folds-StartsWithUser (fold_but-Folds keep h) s.start;
}

-- If the history is a session, then so it is after foldOldTurns, for any number of turns to keep,
-- negative and zero included.
pub fold_old_turns-IsSession :
    (h : List Message) (n : ℤ) → IsSession h → IsSession (fold_old_turns h n).0
unfolding fold_old_turns
fold_old_turns-IsSession h (negsuc n) s = s
fold_old_turns-IsSession h (pos zero) s = fold_but-IsSession 1 h s
fold_old_turns-IsSession h (pos (suc n)) s = fold_but-IsSession (suc n) h s

-- For any number of turns to keep, foldOldTurns leaves the user messages of the history, in their
-- order, as they were.
pub users_of-fold_old_turns :
    (h : List Message) (n : ℤ) → users_of (fold_old_turns h n).0 ≡ users_of h
unfolding fold_old_turns
users_of-fold_old_turns h (negsuc n) = refl
users_of-fold_old_turns h (pos zero) = Folds-users_of (fold_but-Folds 1 h)
users_of-fold_old_turns h (pos (suc n)) = Folds-users_of (fold_but-Folds (suc n) h)

user_count-strip : (h : List Message) → user_count (strip_profile_messages h) ≡ user_count h
user_count-strip h =
    sym (user_count-spoken (strip_profile_messages h))
    ∙ ap user_count (spoken-strip_profile_messages h)
    ∙ user_count-spoken h

module _ {W : Type 0} (c : Settings W) (env : Env W) where
  -- What commitHistory makes of the messages of a run.
  pub record IsCommitted (messages h : List Message) : Type 0 where
    pub session : IsSession h
    pub trimmed : IsTrimmed c.max_history_messages h
    pub users : 0 < user_count messages → 0 < user_count h

  -- Committing the messages of a run that form a session leaves a history that is a session, that
  -- is within MaxHistoryMessages or has at most one user message, and that still has a user
  -- message if one was there.
  pub commit_history-IsCommitted :
      (messages : List Message) (s : Session) (w : W)
      → IsSession messages
      → IsCommitted messages (commit_history c env messages s w).0.history
  unfolding commit_history
  commit_history-IsCommitted messages s w ok =
      let kept : List Message = strip_profile_messages messages in
      let folded : List Message = (fold_old_turns kept c.keep_recent_full_turns).0 in
      let fine : IsSession folded =
        fold_old_turns-IsSession kept c.keep_recent_full_turns (strip-IsSession messages ok) in
      let t = trim_history-IsTrimmedRest c folded w fine.paired fine.start in
      let same : user_count folded ≡ user_count messages =
        ap length (users_of-fold_old_turns kept c.keep_recent_full_turns)
        ∙ user_count-strip messages in
      record {
        session = record { paired = t.rest.paired; start = t.rest.start };
        trimmed = t.trimmed;
        users = λ lt. t.rest.users (rw same lt);
      }
