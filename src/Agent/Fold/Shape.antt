-- ===== src/Agent/Fold/Shape.antt =====
-- foldOneUserTurn of agent/fold.go: the shape of a folded turn.
use agent_go.Prelude.{
  ◌≡◌, refl, ap, true, false, ◌&&◌, not, List, [], ◌∷◌, Option, none, some, arith, Bool-cases, inl,
  inr,
}
use agent_go.Text.{is_nil, is_nil-eq, is_blank}
use agent_go.Llm.{Message, Role, system, user, assistant, tool, other, is_user}
use agent_go.Agent.Turns.{Turn}
use agent_go.Agent.Turns.Shape.{IsTurn}
use agent_go.Agent.Protocol.{IsPaired, pending, next}
use agent_go.Agent.Fold.{Scan, scan_message, scan_turn, fold_reply, fold_one_user_turn}

-- A plain answer: an assistant message that calls no tool.
abbrev pub IsAnswer : Message → Type 0
IsAnswer m = (m.role ≡ assistant) × (m.tool_calls ≡ [])

abbrev HoldsAnswer : Option Message → Type 0
HoldsAnswer none = Unit
HoldsAnswer (some m) = IsAnswer m

abbrev pub IsReply : List Message → Type 0
IsReply [] = Unit
IsReply (m ∷ []) = IsAnswer m
IsReply (m ∷ n ∷ msgs) = ⊥

scan_message-answer :
    (r : Role) (m : Message) (s : Scan)
    → m.role ≡ r
    → HoldsAnswer s.0
    → HoldsAnswer (scan_message r m s).0
unfolding scan_message
scan_message-answer tool m (final, bits) e h = h
scan_message-answer system m s e h = h
scan_message-answer user m s e h = h
scan_message-answer (other r) m s e h = h
scan_message-answer assistant m (final, bits) e h = elim (Bool-cases (is_nil m.tool_calls)) [
  | inl p ↦ rw p (e, is_nil-eq m.tool_calls p)
  | inr p ↦ rw p h
]

scan_turn-answer :
    (msgs : List Message) (s : Scan) → HoldsAnswer s.0 → HoldsAnswer (scan_turn msgs s).0
unfolding scan_turn
scan_turn-answer [] s h = h
scan_turn-answer (m ∷ msgs) s h =
    scan_turn-answer msgs (scan_message m.role m s) (scan_message-answer m.role m s refl h)

fold_reply-IsReply : (s : Scan) → HoldsAnswer s.0 → IsReply (fold_reply s)
unfolding fold_reply
fold_reply-IsReply (some m, bits) h = elim (Bool-cases (is_blank m.content && not (is_nil bits))) [
  | inl e ↦ rw e h
  | inr e ↦ rw e h
]
fold_reply-IsReply (none, bits) h = elim (Bool-cases (is_nil bits)) [
  | inl e ↦ rw e tt
  | inr e ↦ rw e (refl, refl)
]

-- A user message with its reply.
abbrev pub IsExchange : Turn → Type 0
IsExchange [] = ⊥
IsExchange (u ∷ rest) = (is_user u.role ≡ true) × IsReply rest

pub fold_one_user_turn-IsExchange : (t : Turn) → IsTurn t → IsExchange (fold_one_user_turn t)
unfolding fold_one_user_turn
fold_one_user_turn-IsExchange [] h = h
fold_one_user_turn-IsExchange (u ∷ rest) h =
    rw (h.0) (h.0, fold_reply-IsReply _ (scan_turn-answer rest (none, []) tt))

answer_not_user : (r : Role) → r ≡ assistant → is_user r ≡ false
answer_not_user r e = rw e

pub IsExchange-IsTurn : (t : Turn) → IsExchange t → IsTurn t
IsExchange-IsTurn [] h = h
IsExchange-IsTurn (u ∷ []) h = (h.0, tt)
IsExchange-IsTurn (u ∷ a ∷ []) h = (h.0, (answer_not_user a.role h.1.0, tt))
IsExchange-IsTurn (u ∷ a ∷ b ∷ rest) h = absurd h.1

next-answer : (m : Message) → IsAnswer m → next m.role [] m ≡ some []
next-answer m h = rw (h.0) (rw (h.1))

next_user : (r : Role) (m : Message) → is_user r ≡ true → next r [] m ≡ some []
next_user user m h = refl
next_user system m h = refl
next_user assistant m h = cc
next_user tool m h = cc
next_user (other r) m h = refl

pub IsExchange-IsPaired : (t : Turn) → IsExchange t → IsPaired t
unfolding pending
IsExchange-IsPaired [] h = absurd h
IsExchange-IsPaired (u ∷ []) h = rw (next_user u.role u h.0)
IsExchange-IsPaired (u ∷ a ∷ []) h = rw (next_user u.role u h.0) (rw (next-answer a h.1))
IsExchange-IsPaired (u ∷ a ∷ b ∷ rest) h = absurd h.1

fold_reply_again :
    (m : Message) → IsAnswer m → fold_reply (scan_message m.role m (none, [])) ≡ m ∷ []
unfolding scan_message fold_reply is_nil
fold_reply_again m h = rw (h.0) (rw (h.1) (ground arith))

-- An exchange is as short as a turn gets.
pub fold_one_user_turn-IsExchange_id : (t : Turn) → IsExchange t → fold_one_user_turn t ≡ t
unfolding fold_one_user_turn is_nil
fold_one_user_turn-IsExchange_id [] h = refl
fold_one_user_turn-IsExchange_id (u ∷ []) h = rw (h.0)
fold_one_user_turn-IsExchange_id (u ∷ a ∷ []) h =
    rw (h.0) (ap (λ (l : List Message). u ∷ l) (fold_reply_again a h.1))
fold_one_user_turn-IsExchange_id (u ∷ a ∷ b ∷ rest) h = absurd h.1
