-- ===== src/Agent/Fold.antt =====
-- agent/fold.go: older user-turns shrink to the user message and the final answer.
pub mod Shape
pub mod Folding
pub mod Whole
use agent_go.Prelude.{
  ℕ, zero, suc, ◌+◌, ◌-◌, Bool, true, false, ◌&&◌, not, List, [], ◌∷◌, ◌++◌, Option, none, some,
  if◌then◌else◌, ltb, leb, length,
}
use agent_go.Prelude.Int.{ℤ, pos, negsuc}
use agent_go.Text.{Text, codes, is_nil, is_blank, join}
use agent_go.Llm.{Message, Role, system, user, assistant, tool, other, is_user, text_message}
use agent_go.Agent.Clip.{clip_one_line}
use agent_go.Agent.Turns.{Turn, split_user_turns, join_turns}
use agent_go.Agent.Summary.{tool_label}

abbrev pub default_keep_recent_full_turns : ℕ
default_keep_recent_full_turns = 1

-- `finalAsst` and `toolBits`
abbrev pub Scan : Type 0
Scan = Option Message × List Text

-- One message of the loop of foldOneUserTurn; the arrow is U+2192.
unfoldable pub scan_message : Role → Message → Scan → Scan
scan_message tool m (final, bits) =
    (final, bits ++ (tool_label m.name ++ 0x2192 ∷ clip_one_line m.content 40) ∷ [])
scan_message assistant m (final, bits) =
    if is_nil m.tool_calls then (some m, bits) else (final, bits)
scan_message system m s = s
scan_message user m s = s
scan_message (other r) m s = s

unfoldable pub scan_turn : List Message → Scan → Scan
unfolding scan_message
scan_turn [] s = s
scan_turn (m ∷ msgs) s = scan_turn msgs (scan_message m.role m s)

unfoldable pub folded_note : List Text → Text
folded_note bits = codes "[folded tools: " ++ (join (codes "; ") bits ++ codes "]")

-- The messages that stay behind the user's.
unfoldable pub fold_reply : Scan → List Message
unfolding folded_note
fold_reply (some m, bits) =
    (if is_blank m.content && not (is_nil bits) then record m { content = folded_note bits } else m)
    ∷ []
fold_reply (none, bits) = if is_nil bits then [] else text_message assistant (folded_note bits) ∷ []

-- foldOneUserTurn
unfoldable pub fold_one_user_turn : Turn → Turn
unfolding scan_turn fold_reply
fold_one_user_turn [] = []
fold_one_user_turn (u ∷ rest) =
    if is_user u.role then u ∷ fold_reply (scan_turn rest (none, [])) else u ∷ rest

-- The loop of foldOldTurns over the first turns, with the count of those that got shorter.
unfoldable pub fold_turns : ℕ → List Turn → List Turn × ℕ
unfolding fold_one_user_turn
fold_turns zero turns = (turns, 0)
fold_turns (suc n) [] = ([], 0)
fold_turns (suc n) (t ∷ turns) =
    let (rest, folded) = fold_turns n turns in
    let t' = fold_one_user_turn t in
    (t' ∷ rest, if ltb (length t') (length t) then folded + 1 else folded)

-- foldOldTurns for a number of turns to keep that is above 0
unfoldable pub fold_but : ℕ → List Message → List Message × ℕ
unfolding fold_turns
fold_but keep msgs =
    let (prefix, turns) = split_user_turns msgs in
    let (turns', folded) = fold_turns (length turns - keep) turns in
    if leb (length turns) keep then (msgs, 0) else (join_turns prefix turns', folded)

-- foldOldTurns
unfoldable pub fold_old_turns : List Message → ℤ → List Message × ℕ
unfolding fold_but
fold_old_turns msgs (negsuc n) = (msgs, 0)
fold_old_turns msgs (pos zero) = fold_but default_keep_recent_full_turns msgs
fold_old_turns msgs (pos (suc n)) = fold_but (suc n) msgs
