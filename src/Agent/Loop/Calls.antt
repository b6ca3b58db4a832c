-- ===== src/Agent/Loop/Calls.antt =====
-- executeToolCalls of agent/agent.go: the slots of the results, and the messages made of them.
use agent_go.Prelude.{
  ℕ, zero, suc, ◌<◌, ◌≡◌, ◌≢◌, refl, sym, ap, ◌∙◌, ◌⊎◌, inl, inr, List, [], ◌∷◌, none, some, arith,
  length, length-set, length-map, get_elem?, set, Option-cases,
}
use native.Mathlib.Decide.{ℕ_discrete}
use agent_go.Text.{text_eq_refl}
use agent_go.Llm.{ToolCall}
use agent_go.Agent.Settings.{Settings}
use agent_go.Agent.Protocol.{pending, call_ids}
use agent_go.Agent.Loop.{
  Env, ToolCallResult, no_result, tool_messages, run_call, run_scheduled, execute_tool_calls,
  blank_results,
}

-- The messages that follow a batch answer its calls, all of them, in order.
pub pending-tool_messages :
    (i : ℕ) (calls : List ToolCall) (out : List ToolCallResult)
    → pending (call_ids calls) (tool_messages i calls out) ≡ some []
unfolding pending tool_messages
pending-tool_messages i [] out = refl
pending-tool_messages i (c ∷ calls) out =
    rw (text_eq_refl c.id) (pending-tool_messages (suc i) calls out)

get_elem?-set_self :
    (out : List ToolCallResult) (i : ℕ) (r : ToolCallResult)
    → i < length out
    → get_elem? (set out i r) i ≡ some r
get_elem?-set_self [] i r h = absurd (omega arith)
get_elem?-set_self (x ∷ out) zero r h = refl
get_elem?-set_self (x ∷ out) (suc i) r h = get_elem?-set_self out i r (omega arith)

get_elem?-set_ne :
    (out : List ToolCallResult) (i j : ℕ) (r : ToolCallResult)
    → i ≢ j
    → get_elem? (set out j r) i ≡ get_elem? out i
get_elem?-set_ne [] i j r h = refl
get_elem?-set_ne (x ∷ out) zero zero r h = absurd (h refl)
get_elem?-set_ne (x ∷ out) zero (suc j) r h = refl
get_elem?-set_ne (x ∷ out) (suc i) zero r h = refl
get_elem?-set_ne (x ∷ out) (suc i) (suc j) r h = get_elem?-set_ne out i j r (λ e. h (ap suc e))

abbrev pub Occurs : ℕ → List ℕ → Type 0
Occurs i [] = ⊥
Occurs i (j ∷ js) = (i ≡ j) ⊎ Occurs i js

module _ {W : Type 0} (c : Settings W) (env : Env W) where
  -- Slot `i` holds what the call `tc` gave in some world.
  abbrev pub Filled : List ToolCallResult → ℕ → ToolCall → Type 0
  Filled out i tc = (w : W) × (get_elem? out i ≡ some (run_call c env tc w).0)

  -- One goroutine fills its slot, and leaves the others.
  step-Filled :
      (calls : List ToolCall) (j : ℕ) (is : List ℕ) (out : List ToolCallResult) (w : W) (i : ℕ)
      (tc d : ToolCall)
      → get_elem? calls i ≡ some tc
      → get_elem? calls j ≡ some d
      → i < length out
      → Filled out i tc ⊎ Occurs i (j ∷ is)
      → Dec (i ≡ j)
      → Filled (set out j (run_call c env d w).0) i tc ⊎ Occurs i is
  step-Filled calls j is out w i tc d e f b h (yes p) =
      let both : some d ≡ some tc = sym f ∙ ap (get_elem? calls) (sym p) ∙ e in
      let same : d ≡ tc = cc in
      inl (
        w,
        rw (← p) (
            get_elem?-set_self out i _ b ∙ ap (λ (x : ToolCall). some (run_call c env x w).0) same),
      )
  step-Filled calls j is out w i tc d e f b (inl (v, g)) (no p) =
      inl (v, get_elem?-set_ne out i j _ p ∙ g)
  step-Filled calls j is out w i tc d e f b (inr (inl q)) (no p) = absurd (p q)
  step-Filled calls j is out w i tc d e f b (inr (inr o)) (no p) = inr o

  missing-Filled :
      (calls : List ToolCall) (j : ℕ) (is : List ℕ) (out : List ToolCallResult) (i : ℕ)
      (tc : ToolCall)
      → get_elem? calls i ≡ some tc
      → get_elem? calls j ≡ none
      → Filled out i tc ⊎ Occurs i (j ∷ is)
      → Filled out i tc ⊎ Occurs i is
  missing-Filled calls j is out i tc e f (inl g) = inl g
  missing-Filled calls j is out i tc e f (inr (inl q)) =
      cc (sym f ∙ ap (get_elem? calls) (sym q) ∙ e)
  missing-Filled calls j is out i tc e f (inr (inr o)) = inr o

  run_scheduled-Filled :
      (calls : List ToolCall) (is : List ℕ) (out : List ToolCallResult) (w : W) (i : ℕ)
      (tc : ToolCall)
      → get_elem? calls i ≡ some tc
      → i < length out
      → Filled out i tc ⊎ Occurs i is
      → Filled (run_scheduled c env calls is out w).0 i tc
  unfolding run_scheduled
  run_scheduled-Filled calls [] out w i tc e b (inl f) = f
  run_scheduled-Filled calls [] out w i tc e b (inr o) = absurd o
  run_scheduled-Filled calls (j ∷ is) out w i tc e b h = elim (Option-cases (get_elem? calls j)) [
    | inl f ↦
        rw (f, run_scheduled)
          (run_scheduled-Filled calls is out w i tc e b (missing-Filled calls j is out i tc e f h))
    | inr (d, f) ↦
        rw (f, run_scheduled)
          (run_scheduled-Filled calls is (set out j (run_call c env d w).0) (run_call c env d w).1 i
            tc e (rw (length-set out j (run_call c env d w).0) b)
            (step-Filled calls j is out w i tc d e f b h (ℕ_discrete i j)))
  ]

  get_elem?-length :
      (calls : List ToolCall) (i : ℕ) (tc : ToolCall)
      → get_elem? calls i ≡ some tc
      → i < length (blank_results calls)
  get_elem?-length [] i tc e = cc
  get_elem?-length (d ∷ calls) zero tc e = omega arith
  get_elem?-length (d ∷ calls) (suc i) tc e = omega (arith, get_elem?-length calls i tc e)

  -- Whatever the order in which the goroutines of a batch run, if each of them is in the order,
  -- then slot i of the results holds what running call i gave, in some world.
  pub execute_tool_calls-Filled :
      (calls : List ToolCall) (w : W) (i : ℕ) (tc : ToolCall)
      → ((j : ℕ) → j < length calls → Occurs j (env.schedule (length calls) w))
      → get_elem? calls i ≡ some tc
      → Filled (execute_tool_calls c env calls w).0 i tc
  unfolding execute_tool_calls
  execute_tool_calls-Filled [] w i tc all e = cc
  execute_tool_calls-Filled (d ∷ []) w zero tc all e =
      let same : d ≡ tc = cc in (w, ap (λ (x : ToolCall). some (run_call c env x w).0) same)
  execute_tool_calls-Filled (d ∷ []) w (suc i) tc all e = cc
  execute_tool_calls-Filled (d ∷ x ∷ calls) w i tc all e =
      let b = get_elem?-length (d ∷ x ∷ calls) i tc e in
      run_scheduled-Filled (d ∷ x ∷ calls) _ _ w i tc e b
        (inr (all i (omega (arith, length-map (λ (t : ToolCall). no_result) calls))))
