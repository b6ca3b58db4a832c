-- ===== src/Agent/Protocol/Cutting.antt =====
-- Paired conversations, cut at their user messages and put together again.
use agent_go.Prelude.{
  ◌≡◌, refl, ap, inl, inr, true, List, [], ◌∷◌, Option, none, some, arith, Bool-cases, All, concat,
  subst,
}
use agent_go.Text.{Text}
use agent_go.Llm.{Message, Role, system, user, assistant, tool, other, is_user}
use agent_go.Agent.Protocol.{next, bind, pending, IsPaired, IsPaired-append}
use agent_go.Agent.Turns.{Turn, split_user_turns, add_front, join_turns}

-- A user message comes only where nothing waits, and then nothing waits.
next-user :
    (r : Role) (p : List Text) (m : Message) (q : List Text)
    → is_user r ≡ true
    → next r p m ≡ some q
    → (p ≡ []) × (q ≡ [])
next-user user [] m q h e = ground arith
next-user user (i ∷ p) m q h e = cc
next-user system p m q h e = cc
next-user assistant p m q h e = cc
next-user tool p m q h e = cc
next-user (other r) p m q h e = cc

abbrev SplitPaired : List Text → List Message × List Turn → Type 0
SplitPaired p (prefix, turns) = (pending p prefix ≡ some []) × All IsPaired turns

pub pending-cons :
    (p : List Text) (m : Message) (msgs : List Message)
    → pending p (m ∷ msgs) ≡ some []
    → (q : List Text) × (next m.role p m ≡ some q) × (pending q msgs ≡ some [])
unfolding pending
pending-cons p m msgs h = go (next m.role p m) refl h
  where
    go :
        (o : Option (List Text))
        → next m.role p m ≡ o
        → bind o (λ q. pending q msgs) ≡ some []
        → (q : List Text) × (next m.role p m ≡ some q) × (pending q msgs ≡ some [])
    go none e h = cc
    go (some q) e h = (q, e, h)

add_front-SplitPaired :
    (p q : List Text) (m : Message) (s : List Message × List Turn)
    → next m.role p m ≡ some q
    → SplitPaired q s
    → SplitPaired p (add_front m s)
unfolding pending
add_front-SplitPaired p q m (prefix, turns) e h = elim (Bool-cases (is_user m.role)) [
  | inl u ↦
      let (pe, qe) = next-user m.role p m q u e in
      rw u (
        ap some pe,
        (subst (λ r. bind (next m.role r m) (λ q. pending q prefix) ≡ some []) pe (rw e h.0), h.1),
      )
  | inr n ↦ rw n (rw e h.0, h.1)
]

-- Each user-turn of a paired conversation is paired, and so is what stands before the first.
split_user_turns-SplitPaired :
    (p : List Text) (msgs : List Message)
    → pending p msgs ≡ some []
    → SplitPaired p (split_user_turns msgs)
unfolding split_user_turns
split_user_turns-SplitPaired p [] h = (h, tt)
split_user_turns-SplitPaired p (m ∷ msgs) h =
    let (q, e, rest) = pending-cons p m msgs h in
    add_front-SplitPaired p q m (split_user_turns msgs) e (split_user_turns-SplitPaired q msgs rest)

pub split_user_turns-IsPaired :
    (msgs : List Message)
    → IsPaired msgs
    → IsPaired (split_user_turns msgs).0 × All IsPaired (split_user_turns msgs).1
split_user_turns-IsPaired msgs h = split_user_turns-SplitPaired [] msgs h

concat-IsPaired : (turns : List Turn) → All IsPaired turns → IsPaired (concat turns)
unfolding pending
concat-IsPaired [] h = refl
concat-IsPaired (t ∷ turns) h = IsPaired-append t (concat turns) h.0 (concat-IsPaired turns h.1)

pub join_turns-IsPaired :
    (prefix : List Message) (turns : List Turn)
    → IsPaired prefix
    → All IsPaired turns
    → IsPaired (join_turns prefix turns)
unfolding join_turns
join_turns-IsPaired prefix turns hp ht =
    IsPaired-append prefix (concat turns) hp (concat-IsPaired turns ht)
