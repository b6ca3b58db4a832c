-- ===== src/Examples/Sums.antt =====
-- A calculator on natural numbers, for tool/builtin.go.
use agent_go.Prelude.{ℕ, ◌+◌, ◌*◌, ◌-◌, ◌≡◌, refl, true, none, some, ◌⊎◌, inl, inr, ◌==◌}
use agent_go.Prelude.Int.{pos, negsuc}
use agent_go.Text.{Text, codes, decimal, trim_space, atoi}
use agent_go.Errors.{Error, new_error}
use agent_go.Builtin.Calculator.{
  Floats, panics, eval_two_operand, Computes, eval_two_operand-Computes,
}

abbrev parsed : Text → ℕ ⊎ Error
parsed t = elim (atoi t) [
  | some (pos n) ↦ inl n
  | some (negsuc n) ↦ inl 0
  | none ↦ inr (new_error (codes "invalid syntax"))
]

abbrev numbers : Floats ℕ
numbers = record {
  parse = parsed;
  format = decimal;
  add = λ a b. a + b;
  sub = λ a b. a - b;
  mul = λ a b. a * b;
  div = λ a b. 0;
  is_zero = λ a. a == 0;
  is_finite = λ a. true;
}

eval_two_operand-Computes_example :
    Computes numbers (λ t. t) 2 3 42 (eval_two_operand numbers (λ t. t) (codes " 2 * 3"))
unfolding trim_space atoi
eval_two_operand-Computes_example =
    eval_two_operand-Computes numbers (λ t. t) (codes " 2 * 3") 50 (codes " ") (codes " 3") 42 2 3
      refl (refl, tt)
      (inr ((refl, (refl, (refl, (refl, tt)))), inr ((refl, (refl, (refl, (refl, tt)))), inl refl)))
      refl refl

-- An expression with nothing but space in it.
blank_panics : eval_two_operand numbers (λ t. t) (codes "  ") ≡ panics
unfolding eval_two_operand trim_space
blank_panics = refl
