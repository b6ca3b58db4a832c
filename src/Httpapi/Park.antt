-- ===== src/Httpapi/Park.antt =====
-- httpapi/approve.go: calls that are parked until somebody decides, with the times as arguments.
use agent_go.Prelude.{
  ℕ, ◌+◌, ◌*◌, Bool, false, List, [], ◌∷◌, Option, none, some, if◌then◌else◌, ltb,
}
use agent_go.Text.{Text, codes}
use agent_go.Text.Table.{Table, lookup, insert, delete}
use agent_go.Errors.{Error, new_error}
use agent_go.Tool.{Approval}

-- approvalTTL: five minutes, in nanoseconds
abbrev pub approval_ttl : ℕ
approval_ttl = 5 * 60 * 1000000000

-- pendingApproval; its channel is kept apart, since it outlives the entry.
pub record Pending : Type 0 where
  pub request : Approval
  pub run_id : Text
  pub deadline : ℕ

-- Park, and what was sent to the channel of each id and not yet received.
pub record Park : Type 0 where
  pub wait : Table Pending
  pub channel : Table Bool

-- NewPark
abbrev pub new_park : Park
new_park = record { wait = []; channel = [] }

-- The critical section of Approve, with a new channel for the id.
unfoldable pub ask : Text → Approval → Text → ℕ → Park → Park
unfolding insert delete
ask id req run_id now p = record {
  wait =
      insert id (record { request = req; run_id = run_id; deadline = now + approval_ttl }) p.wait;
  channel = delete id p.channel;
}

-- drop
unfoldable pub drop_ask : Text → Park → Park
unfolding delete
drop_ask id p = record p { wait = delete id p.wait }

abbrev pub decide_found : Text → Bool → ℕ → Park → Pending → Option Error × Park
decide_found id allow now p pend =
    let q = drop_ask id p in
    if ltb pend.deadline now
    then (some (new_error (codes "approval expired")), q)
    else (none, record q { channel = insert id allow q.channel })

-- Decide
unfoldable pub decide : Text → Bool → ℕ → Park → Option Error × Park
unfolding lookup insert drop_ask
decide id allow now p = elim (lookup id p.wait) [
  | none ↦ (some (new_error (codes "unknown approval id")), p)
  | some pend ↦ decide_found id allow now p pend
]

-- Which case of the select in Approve is taken.
pub data Wake : Type 0 where
  context_over : Error → Wake
  expired : Wake
  decided : Wake

-- The end of Approve; it goes on waiting (none) for a decision that was not sent.
unfoldable pub finish_ask : Text → Wake → Park → Option (Bool × Option Error)
unfolding lookup
finish_ask id (context_over e) p = some (false, some e)
finish_ask id expired p = some (false, some (new_error (codes "approval expired")))
finish_ask id decided p = elim (lookup id p.channel) [ none ↦ none | some v ↦ some (v, none) ]

-- What happens to a park, by any of its callers.
pub data Event : Type 0 where
  asks : Text → Approval → Text → ℕ → Event
  decides : Text → Bool → ℕ → Event
  drops : Text → Event

abbrev pub park_step : Event → Park → Park
park_step (asks id req run_id now) p = ask id req run_id now p
park_step (decides id allow now) p = (decide id allow now p).1
park_step (drops id) p = drop_ask id p

-- The park after a log of events, the latest first.
unfoldable pub after_log : List Event → Park
unfolding ask decide drop_ask
after_log [] = new_park
after_log (e ∷ es) = park_step e (after_log es)
