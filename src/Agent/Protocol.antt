-- ===== src/Agent/Protocol.antt =====
-- What an OpenAI-compatible endpoint accepts: after an assistant message with tool calls come the
-- results of just those calls, in order, and nothing else may come between. The specification that
-- histories are held to; no code of the repository.
pub mod Cutting
pub mod Systems
use agent_go.Prelude.{
  ◌≡◌, refl, Bool, List, [], ◌∷◌, ◌++◌, Option, none, some, map, if◌then◌else◌, arith,
}
use agent_go.Text.{Text, text_eq}
use agent_go.Llm.{Message, Role, system, user, assistant, tool, other, ToolCall}

abbrev pub call_ids : List ToolCall → List Text
call_ids calls = map (λ (c : ToolCall). c.id) calls

-- The calls that still wait for a result, after one more message; `none` is a violation.
abbrev pub next : Role → List Text → Message → Option (List Text)
next tool [] m = none
next tool (i ∷ rest) m = if text_eq i m.tool_call_id then some rest else none
next assistant [] m = some (call_ids m.tool_calls)
next assistant (i ∷ rest) m = none
next system [] m = some []
next system (i ∷ rest) m = none
next user [] m = some []
next user (i ∷ rest) m = none
next (other r) [] m = some []
next (other r) (i ∷ rest) m = none

abbrev pub bind {ℓ κ} : {A : Type ℓ} {B : Type κ} → Option A → (A → Option B) → Option B
bind none f = none
bind (some a) f = f a

unfoldable pub pending : List Text → List Message → Option (List Text)
pending p [] = some p
pending p (m ∷ msgs) = bind (next m.role p m) (λ q. pending q msgs)

-- Every call has its result, and every result its call.
abbrev pub IsPaired : List Message → Type 0
IsPaired msgs = pending [] msgs ≡ some []

bind-pending :
    (o : Option (List Text)) (xs ys : List Message)
    → ((q : List Text) → pending q (xs ++ ys) ≡ bind (pending q xs) (λ r. pending r ys))
    → bind o (λ q. pending q (xs ++ ys)) ≡ bind (bind o (λ q. pending q xs)) (λ r. pending r ys)
bind-pending none xs ys h = refl
bind-pending (some q) xs ys h = h q

pub pending-append :
    (p : List Text) (xs ys : List Message)
    → pending p (xs ++ ys) ≡ bind (pending p xs) (λ q. pending q ys)
unfolding pending
pending-append p [] ys = refl
pending-append p (m ∷ xs) ys = bind-pending (next m.role p m) xs ys (λ q. pending-append q xs ys)

pub IsPaired-append : (xs ys : List Message) → IsPaired xs → IsPaired ys → IsPaired (xs ++ ys)
IsPaired-append xs ys hx hy = rw (pending-append [] xs ys) (rw hx hy)
