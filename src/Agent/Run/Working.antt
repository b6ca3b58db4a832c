-- ===== src/Agent/Run/Working.antt =====
-- The working copy of the messages in a run, and what may be added to it.
use agent_go.Prelude.{◌<◌, ◌≡◌, sym, ap, ◌∙◌, List, [], ◌∷◌, ◌++◌, Option, some, arith, subst}
use agent_go.Llm.{Message, Request, Provider, assistant}
use agent_go.Agent.Protocol.{IsPaired, pending, pending-append, call_ids}
use agent_go.Agent.Spoken.{
  spoken, StartsWithUser, spoken-append, user_count, user_count-append, user_count-spoken,
}
use agent_go.Agent.Profile.{upsert_profile, spoken-upsert_profile}
use agent_go.Agent.Run.Commit.{IsSession, upsert_profile-IsSession}

-- What is documented of chat completions: a reply is an assistant's message.
module _ {W : Type 0} where
  abbrev pub Replies : Provider W → Type 0
  Replies p = (req : Request) (w : W) → (p req w).0.message.role ≡ assistant

-- The working copy of a run: a session in which a user has spoken.
pub record IsWorking (h : List Message) : Type 0 where
  pub session : IsSession h
  pub asked : 0 < user_count h

pub StartsWithUser-append :
    (a b : List Message) → StartsWithUser a → StartsWithUser b → StartsWithUser (a ++ b)
StartsWithUser-append [] b ha hb = hb
StartsWithUser-append (m ∷ a) b ha hb = ha

StartsWithUser-more :
    (a b : List Message) → StartsWithUser a → 0 < user_count a → StartsWithUser (a ++ b)
StartsWithUser-more [] b ha hb = absurd (omega arith)
StartsWithUser-more (m ∷ a) b ha hb = ha

-- More may be said, if calls and results stay together.
pub IsWorking-append :
    (h more : List Message) → IsWorking h → IsPaired (h ++ more) → IsWorking (h ++ more)
IsWorking-append h more k p = record {
  session = record {
    paired = p;
    start = subst StartsWithUser (sym (spoken-append h more)) (
        StartsWithUser-more (spoken h) (spoken more) k.session.start
          (rw (user_count-spoken h) (k.asked)));
  };
  asked = omega (arith, user_count-append h more, k.asked);
}

pub IsWorking-upsert_profile :
    (h : List Message) (mem : Option _) → IsWorking h → IsWorking (upsert_profile h mem)
IsWorking-upsert_profile h mem k = record {
  session = upsert_profile-IsSession h mem k.session;
  asked =
      subst (λ n. 0 < n)
        (sym (user_count-spoken h)
          ∙ ap user_count (sym (spoken-upsert_profile h mem))
          ∙ user_count-spoken (upsert_profile h mem))
        k.asked;
}

pub pending-reply :
    (h : List Message) (m : Message)
    → IsPaired h
    → m.role ≡ assistant
    → pending [] (h ++ m ∷ []) ≡ some (call_ids m.tool_calls)
unfolding pending
pending-reply h m p a = rw (pending-append [] h (m ∷ [])) (rw p (rw a))
