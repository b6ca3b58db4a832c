-- ===== src/Tool.antt =====
-- Package tool: the registry, and one call under its policy (tool/tool.go, tool/exec.go).
pub mod Outcome
use agent_go.Prelude.{
  Bool, true, false, ◌&&◌, ◌||◌, List, [], ◌∷◌, ◌++◌, Option, none, some, if◌then◌else◌,
}
use agent_go.Text.{Text, codes, text_eq}
use agent_go.Errors.{Error, new_error}

pub data Code : Type 0 where
  ok error unknown canceled denied timeout : Code

pub record Annotations : Type 0 where
  pub title : Text
  pub read_only : Bool
  pub destructive : Bool
  pub open_world : Bool
  pub needs_approval : Bool

pub record Approval : Type 0 where
  pub name : Text
  pub args : Text
  pub meta : Annotations

-- How long a call took is not modelled.
pub record ExecResult : Type 0 where
  pub name : Text
  pub content : Text
  pub err : Option Error
  pub code : Code

-- A tool acts on the world `W`; `annotations` are the zero ones if it is no Annotator.
pub record Tool (W : Type 0) : Type 0 where
  pub name : Text
  pub annotations : Annotations
  pub run : Text → W → Text × Option Error × W

abbrev pub Approver : Type 0 → Type 0
Approver W = Approval → W → Bool × Option Error × W

-- Policy, with what a call asks of its context: its error now, and the error of the context that
-- the timeout derives, if there is a timeout. `quote` is `%q`.
pub record Policy (W : Type 0) : Type 0 where
  pub ctx_err : W → Option Error
  pub timeout_err : Option (W → Option Error)
  pub approver : Option (Approver W)
  pub redact : Option (Text → Text → Text)
  pub quote : Text → Text

abbrev pub failed : Text → Code → Error → ExecResult
failed name code e = record {
  name = name;
  content = codes "error: " ++ e.text;
  err = some e;
  code = code;
}

-- canceledResult
unfoldable pub canceled_result : Text → Error → ExecResult
canceled_result name e = failed name (if e.deadline then timeout else canceled) e

abbrev pub is_deadline : Option Error → Bool
is_deadline none = false
is_deadline (some e) = e.deadline

abbrev pub is_canceled : Option Error → Bool
is_canceled none = false
is_canceled (some e) = e.canceled

-- The switch on the error of a tool, and the error of the call's context.
unfoldable pub error_code : Error → Option Error → Code
error_code e ctx =
    if e.deadline || is_deadline ctx
    then timeout
    else if e.canceled || is_canceled ctx
    then canceled
    else error

module _ {W : Type 0} where
  -- NewRegistry and its map: the last tool of a name is the one that is found.
  unfoldable pub find_tool : Text → List (Tool W) → Option (Tool W)
  find_tool name [] = none
  find_tool name (t ∷ tools) =
      let here : Option (Tool W) = if text_eq t.name name then some t else none in
      elim (find_tool name tools) [ some later ↦ some later | none ↦ here ]

  abbrev pub run_ctx_err : Policy W → W → Option Error
  run_ctx_err p w = elim p.timeout_err [ none ↦ p.ctx_err w | some f ↦ f w ]

  abbrev pub redacted : Policy W → Text → Text → Text
  redacted p name s = elim p.redact [ none ↦ s | some f ↦ f name s ]

  abbrev pub finish_run : Policy W → Text → Text × Option Error × W → ExecResult × W
  finish_run p name (result, some e, w) = (failed name (error_code e (run_ctx_err p w)) e, w)
  finish_run p name (result, none, w) =
      (record { name = name; content = redacted p name result; err = none; code = ok }, w)

  unfoldable pub run_tool : Policy W → Tool W → Text → Text → W → ExecResult × W
  unfolding error_code
  run_tool p t name args w = finish_run p name (t.run args w)

  -- What follows the answer of the approver.
  unfoldable pub after_approval :
      Policy W → Tool W → Text → Text → Bool × Option Error × W → ExecResult × W
  unfolding run_tool
  after_approval p t name args (allow, some e, w) = (failed name error e, w)
  after_approval p t name args (false, none, w) =
      (failed name denied (new_error (codes "tool call denied")), w)
  after_approval p t name args (true, none, w) = run_tool p t name args w

  abbrev pub approval_of : Tool W → Text → Text → Approval
  approval_of t name args = record { name = name; args = args; meta = t.annotations }

  abbrev pub gate : Policy W → Tool W → Option (Approver W)
  gate p t = if t.annotations.needs_approval then p.approver else none

  unfoldable pub execute_found : Policy W → Tool W → Text → Text → W → ExecResult × W
  unfolding after_approval run_tool
  execute_found p t name args w = elim (gate p t) [
    | none ↦ run_tool p t name args w
    | some ask ↦ after_approval p t name args (ask (approval_of t name args) w)
  ]

  -- (*Registry).ExecuteDetail
  unfoldable pub execute_detail : Policy W → List (Tool W) → Text → Text → W → ExecResult × W
  unfolding execute_found canceled_result find_tool
  execute_detail p tools name args w = elim (p.ctx_err w) [
    | some e ↦ (canceled_result name e, w)
    | none ↦ elim (find_tool name tools) [
      | none ↦ (failed name unknown (new_error (codes "unknown tool " ++ p.quote name)), w)
      | some t ↦ execute_found p t name args w
    ]
  ]
