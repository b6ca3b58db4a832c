-- ===== src/Agent/Spoken.antt =====
-- A conversation without its system messages: what users, the model and the tools said.
use agent_go.Prelude.{
  ℕ, ◌+◌, ◌≡◌, refl, sym, ap, ◌∙◌, Bool, true, false, not, List, [], ◌∷◌, ◌++◌, arith, length,
  filter, filter-append, All, take, drop, take-append-drop, Bool-cases, inl, inr, concat,
  length-append,
}
use agent_go.Llm.{Message, Role, user, system, assistant, tool, other, is_user, is_system}
use agent_go.Agent.Turns.{Turn, split_user_turns, add_front, join_turns}
use agent_go.Agent.Turns.Shape.{NotUser, IsTurn}

abbrev pub is_spoken : Message → Bool
is_spoken m = not (is_system m.role)

abbrev pub spoken : List Message → List Message
spoken msgs = filter is_spoken msgs

-- How many user messages there are.
abbrev pub user_count : List Message → ℕ
user_count msgs = length (filter (λ m. is_user m.role) msgs)

-- The first thing said, if any, is a user's.
abbrev pub StartsWithUser : List Message → Type 0
StartsWithUser [] = Unit
StartsWithUser (m ∷ msgs) = is_user m.role ≡ true

pub spoken-append : (xs ys : List Message) → spoken (xs ++ ys) ≡ spoken xs ++ spoken ys
spoken-append xs ys = filter-append is_spoken xs ys

pub user_count-append :
    (xs ys : List Message) → user_count (xs ++ ys) ≡ user_count xs + user_count ys
user_count-append xs ys =
    ap length (filter-append (λ (m : Message). is_user m.role) xs ys)
    ∙ length-append (filter (λ (m : Message). is_user m.role) xs)
        (filter (λ (m : Message). is_user m.role) ys)

-- Taking out system messages, or putting one in, is not heard.
pub spoken-filter :
    (keep : Message → Bool) (msgs : List Message)
    → ((m : Message) → keep m ≡ false → is_system m.role ≡ true)
    → spoken (filter keep msgs) ≡ spoken msgs
spoken-filter keep [] out = refl
spoken-filter keep (m ∷ msgs) out =
    let rest = spoken-filter keep msgs out in let gone = out m in ground arith

pub spoken-insert :
    (n : ℕ) (m : Message) (msgs : List Message)
    → is_system m.role ≡ true
    → spoken (take n msgs ++ m ∷ drop n msgs) ≡ spoken msgs
spoken-insert n m msgs h =
    spoken-append (take n msgs) (m ∷ drop n msgs)
    ∙ rw h (sym (spoken-append (take n msgs) (drop n msgs)) ∙ ap spoken (take-append-drop n msgs))

user_not_system : (r : Role) → is_user r ≡ true → is_system r ≡ false
user_not_system user h = refl
user_not_system system h = cc
user_not_system assistant h = refl
user_not_system tool h = refl
user_not_system (other r) h = refl

-- Users are counted alike in both.
pub user_count-spoken : (msgs : List Message) → user_count (spoken msgs) ≡ user_count msgs
user_count-spoken [] = refl
user_count-spoken (m ∷ msgs) =
    let rest = user_count-spoken msgs in let u = user_not_system m.role in ground arith

user_count_bare : (msgs : List Message) → All NotUser msgs → user_count msgs ≡ 0
user_count_bare [] h = refl
user_count_bare (m ∷ msgs) h = rw (h.0) (user_count_bare msgs h.1)

user_count-concat :
    (turns : List Turn) → All IsTurn turns → user_count (concat turns) ≡ length turns
user_count-concat [] h = refl
user_count-concat ([] ∷ turns) h = absurd h.0
user_count-concat ((m ∷ t) ∷ turns) h = rw (h.0.0) (
    omega (
      arith,
      user_count-append t (concat turns),
      user_count_bare t h.0.1,
      user_count-concat turns h.1,
    ))

-- There is a turn for each user message.
pub user_count-join_turns :
    (prefix : List Message) (turns : List Turn)
    → All NotUser prefix
    → All IsTurn turns
    → user_count (join_turns prefix turns) ≡ length turns
unfolding join_turns
user_count-join_turns prefix turns hp ht = omega (
  arith,
  user_count-append prefix (concat turns),
  user_count_bare prefix hp,
  user_count-concat turns ht,
)

spoken-add_front :
    (m : Message) (s : List Message × List Turn)
    → (is_user m.role ≡ false → is_system m.role ≡ true)
    → spoken s.0 ≡ []
    → spoken (add_front m s).0 ≡ []
spoken-add_front m (prefix, turns) h e = elim (Bool-cases (is_user m.role)) [
  | inl u ↦ rw u
  | inr n ↦ rw n (rw (h n) e)
]

-- Where a user speaks first, nothing is said before the first turn.
pub spoken-prefix :
    (msgs : List Message) → StartsWithUser (spoken msgs) → spoken (split_user_turns msgs).0 ≡ []
unfolding split_user_turns
spoken-prefix [] h = refl
spoken-prefix (m ∷ msgs) h = elim (Bool-cases (is_system m.role)) [
  | inl s ↦ spoken-add_front m (split_user_turns msgs) (λ _. s) (spoken-prefix msgs (rw s at h))
  | inr n ↦ first m (split_user_turns msgs) (rw n at h)
]
  where
    first :
        (m : Message) (s : List Message × List Turn)
        → is_user m.role ≡ true
        → spoken (add_front m s).0 ≡ []
    first m (prefix, turns) u = rw u

pub spoken-concat-StartsWithUser :
    (turns : List Turn) → All IsTurn turns → StartsWithUser (spoken (concat turns))
spoken-concat-StartsWithUser [] h = tt
spoken-concat-StartsWithUser ([] ∷ turns) h = absurd h.0
spoken-concat-StartsWithUser ((m ∷ t) ∷ turns) h = rw (user_not_system m.role h.0.0) (h.0.0)
