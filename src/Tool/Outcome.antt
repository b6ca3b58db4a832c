-- ===== src/Tool/Outcome.antt =====
-- ExecuteDetail of tool/exec.go: what a call comes to, on every path.
use agent_go.Prelude.{
  ◌≡◌, ◌≢◌, refl, Bool, true, false, List, ◌++◌, Option, none, some, arith, if◌then◌else◌,
  Option-cases, inl, inr, ◌⊎◌,
}
use agent_go.Text.{Text, codes}
use agent_go.Errors.{Error}
use agent_go.Tool.{
  Code, ok, error, unknown, canceled, denied, timeout, ExecResult, Tool, Policy, Approver, failed,
  canceled_result, error_code, find_tool, finish_run, run_tool, after_approval, approval_of, gate,
  execute_found, execute_detail,
}

-- Either all is well and no error is kept, or the error is kept and the model reads its text.
pub data IsOutcome (r : ExecResult) : Type 0 where
  fine : r.code ≡ ok → r.err ≡ none → IsOutcome r
  failing :
      (e : Error)
      → r.code ≢ ok
      → r.err ≡ some e
      → r.content ≡ codes "error: " ++ e.text
      → IsOutcome r

failed-IsOutcome : (name : Text) (c : Code) (e : Error) → c ≢ ok → IsOutcome (failed name c e)
failed-IsOutcome name c e h = failing e h refl refl

error_code-ne-ok : (e : Error) (ctx : Option Error) → error_code e ctx ≢ ok
unfolding error_code
error_code-ne-ok e ctx h = ground arith

module _ {W : Type 0} (p : Policy W) where
  run_tool-IsOutcome :
      (name : Text) (r : Text × Option Error × W) → IsOutcome (finish_run p name r).0
  run_tool-IsOutcome name (result, some e, w) = failed-IsOutcome name _ e (error_code-ne-ok e _)
  run_tool-IsOutcome name (result, none, w) = fine refl refl

  after_approval-IsOutcome :
      (t : Tool W) (name args : Text) (a : Bool × Option Error × W)
      → IsOutcome (after_approval p t name args a).0
  unfolding after_approval run_tool
  after_approval-IsOutcome t name args (allow, some e, w) = failed-IsOutcome name error e (λ h. cc)
  after_approval-IsOutcome t name args (false, none, w) = failed-IsOutcome name denied _ (λ h. cc)
  after_approval-IsOutcome t name args (true, none, w) = run_tool-IsOutcome name (t.run args w)

  execute_found-IsOutcome :
      (t : Tool W) (name args : Text) (w : W) → IsOutcome (execute_found p t name args w).0
  unfolding execute_found run_tool
  execute_found-IsOutcome t name args w = elim (Option-cases (gate p t)) [
    | inl e ↦ rw (e, execute_found) (run_tool-IsOutcome name (t.run args w))
    | inr (ask, e) ↦
        rw (e, execute_found)
          (after_approval-IsOutcome t name args (ask (approval_of t name args) w))
  ]

  canceled_result-IsOutcome : (name : Text) (e : Error) → IsOutcome (canceled_result name e)
  unfolding canceled_result
  canceled_result-IsOutcome name e = failed-IsOutcome name _ e (code e.deadline)
    where
      code : (b : Bool) → (if b then timeout else canceled) ≢ ok
      code true h = cc
      code false h = cc

  -- On every branch of ExecuteDetail, either the code is ok and no error is kept, or the code is
  -- not ok, an error is kept and the content is "error: " with the error's text.
  pub execute_detail-IsOutcome :
      (tools : List (Tool W)) (name args : Text) (w : W)
      → IsOutcome (execute_detail p tools name args w).0
  unfolding execute_detail
  execute_detail-IsOutcome tools name args w = elim (Option-cases (p.ctx_err w)) [
    | inr (e, c) ↦ rw (c, execute_detail) (canceled_result-IsOutcome name e)
    | inl c ↦ elim (Option-cases (find_tool name tools)) [
      | inl f ↦ rw (c, execute_detail) (rw f (failed-IsOutcome name unknown _ (λ h. cc)))
      | inr (t, f) ↦ rw (c, execute_detail) (rw f (execute_found-IsOutcome t name args w))
    ]
  ]

  -- If the tool is found, it needs approval, the policy has an approver, the context is not over,
  -- and the approver says no or fails, then executing the call leaves the world that the approver
  -- left, so the tool does not run, and the code is not ok.
  pub unapproved_not_run :
      (tools : List (Tool W)) (name args : Text) (w : W) (t : Tool W) (ask : Approver W)
      → find_tool name tools ≡ some t
      → t.annotations.needs_approval ≡ true
      → p.approver ≡ some ask
      → p.ctx_err w ≡ none
      → ((ask (approval_of t name args) w).0 ≡ false)
        ⊎ ((e : Error) × ((ask (approval_of t name args) w).1 ≡ some e))
      → ((execute_detail p tools name args w).1 ≡ (ask (approval_of t name args) w).2)
        × ((execute_detail p tools name args w).0.code ≢ ok)
  unfolding execute_detail
  unapproved_not_run tools name args w t ask f n a c h =
      let g : gate p t ≡ some ask = ground arith in
      rw (c, execute_detail)
        (rw f (rw (g, execute_found) (refused (ask (approval_of t name args) w) h)))
    where
      refused :
          (r : Bool × Option Error × W)
          → (r.0 ≡ false) ⊎ ((e : Error) × (r.1 ≡ some e))
          → ((after_approval p t name args r).1 ≡ r.2)
            × ((after_approval p t name args r).0.code ≢ ok)
      refused (allow, some e, w) h = (refl, λ q. cc)
      refused (false, none, w) h = (refl, λ q. cc)
      refused (true, none, w) (inl h) = cc
      refused (true, none, w) (inr (e, h)) = cc
