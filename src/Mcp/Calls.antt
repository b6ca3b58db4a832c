-- ===== src/Mcp/Calls.antt =====
-- mcp/client.go: calls that wait for a reply, the loop that reads replies, and the end of the pipe.
-- A step is one critical section, so that all interleavings are sequences of steps.
use agent_go.Prelude.{ℕ, suc, ◌&&◌, not, List, [], ◌∷◌, ◌++◌, map, if◌then◌else◌, ◌≡◌}
use agent_go.Text.{Text, decimal, is_empty, trim_space, is_blank}
use agent_go.Text.Table.{mem, remove}

-- What the channel of a call gets: a result, or the text of an error.
pub data Reply : Type 0 where
  result : Text → Reply
  failure : Text → Reply

-- Client: the keys of the calls that wait, and, by key, what was sent to their channels.
pub record Client : Type 0 where
  pub next_id : ℕ
  pub pending : List Text
  pub inbox : List (Text × Reply)

-- newClient
abbrev pub new_client : Client
new_client = record { next_id = 0; pending = []; inbox = [] }

-- `rawID, _ := json.Marshal(c.nextID.Add(1))`: the number in decimal
abbrev pub next_key : Client → Text
next_key c = decimal (suc c.next_id)

-- The first critical section of call: `c.pending[key] = ch`, for a number that does not wrap.
unfoldable pub begin_call : Client → Client
unfolding remove decimal
begin_call c = record c {
  next_id = suc c.next_id;
  pending = next_key c ∷ remove (next_key c) c.pending;
}

-- `delete(c.pending, key)`, after a failed write or a context that ended
unfoldable pub give_up : Text → Client → Client
unfolding remove
give_up key c = record c { pending = remove key c.pending }

-- rpcResponse
pub record Response : Type 0 where
  pub id : Text
  pub method : Text
  pub reply : Reply

-- One message in readLoop: notifications and unknown ids are passed over.
unfoldable pub dispatch : Response → Client → Client
unfolding mem remove is_empty is_blank trim_space
dispatch r c =
    let key = trim_space r.id in
    if not (is_empty r.method) && is_blank r.id
    then c
    else if mem key c.pending
    then record c { pending = remove key c.pending; inbox = (key, r.reply) ∷ c.inbox }
    else c

-- failAll
unfoldable pub fail_all : Text → Client → Client
fail_all e c = record c { pending = []; inbox = map (λ key. (key, failure e)) c.pending ++ c.inbox }

-- What any goroutine does to the client in one critical section.
pub data Step : Client → Client → Type 0 where
  called : {c d : Client} → d ≡ begin_call c → Step c d
  gave_up : {c d : Client} → (key : Text) → d ≡ give_up key c → Step c d
  received : {c d : Client} → (r : Response) → d ≡ dispatch r c → Step c d
  hung_up : {c d : Client} → (e : Text) → d ≡ fail_all e c → Step c d

pub data Reach : Client → Client → Type 0 where
  stay : {c : Client} → Reach c c
  go : {c d e : Client} → Step c d → Reach d e → Reach c e
