-- ===== src/Agent/Turns/Shape.antt =====
-- splitUserTurns and joinTurns of agent/history.go against each other.
use agent_go.Prelude.{
  ◌≡◌, refl, ap, ◌∙◌, true, false, List, [], ◌∷◌, ◌++◌, arith, length, concat, All, length-append,
  Bool-cases, inl, inr,
}
use agent_go.Llm.{Message, is_user}
use agent_go.Agent.Turns.{Turn, split_user_turns, add_front, join_turns, count_messages}

abbrev pub NotUser : Message → Type 0
NotUser m = is_user m.role ≡ false

-- One user message, and then none.
abbrev pub IsTurn : Turn → Type 0
IsTurn [] = ⊥
IsTurn (m ∷ t) = (is_user m.role ≡ true) × All NotUser t

pub record IsSplit (prefix : List Message) (turns : List Turn) : Type 0 where
  pub bare_prefix : All NotUser prefix
  pub all_turns : All IsTurn turns

abbrev Splits : List Message × List Turn → Type 0
Splits (prefix, turns) = IsSplit prefix turns

add_front-IsSplit : (m : Message) (s : List Message × List Turn) → Splits s → Splits (add_front m s)
add_front-IsSplit m (prefix, turns) h = elim (Bool-cases (is_user m.role)) [
  | inl e ↦ rw e (record { bare_prefix = tt; all_turns = ((e, h.bare_prefix), h.all_turns) })
  | inr e ↦ rw e (record { bare_prefix = (e, h.bare_prefix); all_turns = h.all_turns })
]

pub split_user_turns-IsSplit :
    (msgs : List Message) → IsSplit (split_user_turns msgs).0 (split_user_turns msgs).1
unfolding split_user_turns
split_user_turns-IsSplit [] = record { bare_prefix = tt; all_turns = tt }
split_user_turns-IsSplit (m ∷ msgs) =
    add_front-IsSplit m (split_user_turns msgs) (split_user_turns-IsSplit msgs)

join-add_front :
    (m : Message) (s : List Message × List Turn)
    → join_turns (add_front m s).0 (add_front m s).1 ≡ m ∷ join_turns s.0 s.1
unfolding join_turns
join-add_front m (prefix, turns) = ground arith

-- Joining the prefix and the turns that splitUserTurns finds in any conversation gives the
-- conversation.
pub join_turns-split_user_turns :
    (msgs : List Message) → join_turns (split_user_turns msgs).0 (split_user_turns msgs).1 ≡ msgs
unfolding split_user_turns
join_turns-split_user_turns [] = unfold join_turns in refl
join_turns-split_user_turns (m ∷ msgs) =
    join-add_front m (split_user_turns msgs)
    ∙ ap (λ (l : List Message). m ∷ l) (join_turns-split_user_turns msgs)

split-bare :
    (ms rest : List Message) (turns : List Turn)
    → All NotUser ms
    → split_user_turns rest ≡ ([], turns)
    → split_user_turns (ms ++ rest) ≡ (ms, turns)
unfolding split_user_turns
split-bare [] rest turns h e = e
split-bare (m ∷ ms) rest turns h e = rw (split-bare ms rest turns h.1 e) (rw (h.0))

split-turns : (turns : List Turn) → All IsTurn turns → split_user_turns (concat turns) ≡ ([], turns)
unfolding split_user_turns
split-turns [] h = refl
split-turns ([] ∷ turns) h = absurd h.0
split-turns ((m ∷ t) ∷ turns) h =
    rw (split-bare t (concat turns) turns h.0.1 (split-turns turns h.1)) (rw (h.0.0))

-- If a prefix has no user message and each turn starts with a user message and has no other, then
-- splitting their join gives this prefix and these turns.
pub split_user_turns-join_turns :
    (prefix : List Message) (turns : List Turn)
    → IsSplit prefix turns
    → split_user_turns (join_turns prefix turns) ≡ (prefix, turns)
unfolding join_turns
split_user_turns-join_turns prefix turns h =
    split-bare prefix (concat turns) turns h.bare_prefix (split-turns turns h.all_turns)

-- countMessages is the length of what joinTurns builds.
pub count_messages-eq-length :
    (prefix : List Message) (turns : List Turn)
    → count_messages prefix turns ≡ length (join_turns prefix turns)
unfolding count_messages join_turns
count_messages-eq-length prefix [] = omega (arith, length-append prefix [])
count_messages-eq-length prefix (t ∷ turns) = omega (
  arith,
  count_messages-eq-length prefix turns,
  length-append prefix (t ++ concat turns),
  length-append prefix (concat turns),
  length-append t (concat turns),
)
