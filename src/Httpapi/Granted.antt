-- ===== src/Httpapi/Granted.antt =====
-- httpapi/approve.go: what lets a parked call through.
use agent_go.Prelude.{ℕ, ◌+◌, ◌≤◌, ◌≡◌, Bool, List, [], ◌∷◌, some, ◌⊎◌}
use agent_go.Text.{Text}
use agent_go.Text.Table.{lookup}
use agent_go.Tool.{Approval}
use agent_go.Httpapi.Park.{approval_ttl, Pending, Park, Event, asks, decides}

-- A call was parked under this id at this time.
abbrev pub WasAsked : Text → ℕ → List Event → Type 0
WasAsked id t [] = ⊥
WasAsked id t (e ∷ es) =
    ((req : Approval) × (run_id : Text) × (e ≡ asks id req run_id t)) ⊎ WasAsked id t es

-- Somebody decided so on this id, in time for a call that was parked before.
abbrev pub IsGranted : Text → Bool → List Event → Type 0
IsGranted id v [] = ⊥
IsGranted id v (e ∷ es) =
    ((now : ℕ) × (t : ℕ) × (e ≡ decides id v now) × WasAsked id t es × (now ≤ t + approval_ttl))
    ⊎ IsGranted id v es

-- Each call that waits was parked, and each value in a channel was decided in time.
record IsLogged (p : Park) (es : List Event) : Type 0 where
  pub waiting :
      (id : Text) (pend : Pending)
      → lookup id p.wait ≡ some pend
      → (t : ℕ) × WasAsked id t es × (pend.deadline ≡ t + approval_ttl)
  pub sent : (id : Text) (v : Bool) → lookup id p.channel ≡ some v → IsGranted id v es
