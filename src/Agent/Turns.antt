-- ===== src/Agent/Turns.antt =====
-- agent/history.go: a conversation is a prefix and user-turns, and trimming drops whole turns.
pub mod Shape
pub mod Trim
use agent_go.Prelude.{
  ℕ, zero, suc, ◌+◌, ◌≤◌, ◌<◌, ◌≡◌, refl, ap, ◌∙◌, Bool, true, false, List, [], ◌∷◌, ◌++◌, arith,
  ltb, leb, if◌then◌else◌, length, concat, All, length-append, Bool-cases, inl, inr, Option, none,
  some, ◌≢◌,
}
use agent_go.Prelude.Int.{ℤ, pos, negsuc}
use agent_go.Llm.{Message, is_user}

abbrev pub Turn : Type 0
Turn = List Message

-- splitUserTurns: messages before the first user message, then one turn from each user message up
-- to the next. The two cursors are read from the end of the slice.
abbrev pub add_front : Message → List Message × List Turn → List Message × List Turn
add_front m (prefix, turns) =
    if is_user m.role then ([], (m ∷ prefix) ∷ turns) else (m ∷ prefix, turns)

unfoldable pub split_user_turns : List Message → List Message × List Turn
split_user_turns [] = ([], [])
split_user_turns (m ∷ msgs) = add_front m (split_user_turns msgs)

-- countMessages
unfoldable pub count_messages : List Message → List Turn → ℕ
count_messages prefix [] = length prefix
count_messages prefix (t ∷ turns) = count_messages prefix turns + length t

-- joinTurns
unfoldable pub join_turns : List Message → List Turn → List Message
join_turns prefix turns = prefix ++ concat turns

-- The loop of trimByUserTurns: the removed turns and the turns that stay.
unfoldable pub drop_turns : List Message → ℕ → List Turn → List Turn × List Turn
drop_turns prefix max [] = ([], [])
drop_turns prefix max (t ∷ []) = ([], t ∷ [])
drop_turns prefix max (t ∷ u ∷ turns) =
    let (removed, rest) = drop_turns prefix max (u ∷ turns) in
    if ltb max (count_messages prefix (t ∷ u ∷ turns))
    then (t ∷ removed, rest)
    else ([], t ∷ u ∷ turns)

pub record Trimmed : Type 0 where
  pub out : List Message
  pub dropped : List Message
  pub dropped_turns : ℕ

abbrev untrimmed : List Message → Trimmed
untrimmed msgs = record { out = msgs; dropped = []; dropped_turns = 0 }

abbrev trim_split : ℕ → List Message → List Message × List Turn → Trimmed
trim_split max msgs (prefix, []) = untrimmed msgs
trim_split max msgs (prefix, t ∷ turns) =
    let (removed, rest) = drop_turns prefix max (t ∷ turns) in
    record {
      out = join_turns prefix rest;
      dropped = concat removed;
      dropped_turns = length removed;
    }

-- trimByUserTurns; `maxMessages <= 0` means no limit
unfoldable pub trim_by_user_turns : List Message → ℤ → Trimmed
unfolding split_user_turns drop_turns join_turns
trim_by_user_turns msgs (negsuc n) = untrimmed msgs
trim_by_user_turns msgs (pos zero) = untrimmed msgs
trim_by_user_turns msgs (pos (suc n)) =
    if leb (length msgs) (suc n)
    then untrimmed msgs
    else trim_split (suc n) msgs (split_user_turns msgs)
