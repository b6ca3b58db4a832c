-- ===== src/Builtin/Calculator.antt =====
-- tool/builtin.go: the calculator, over floating-point numbers that are given, and word_count.
use agent_go.Prelude.{
  ℕ, ◌≡◌, refl, sym, ◌∙◌, ap, Bool, true, false, List, [], ◌∷◌, ◌++◌, Option, none, some, ◌⊎◌, inl,
  inr, if◌then◌else◌, ◌==◌, All, arith, append-nil, append_assoc, subst, Bool-cases,
}
use agent_go.Text.{Text, codes, trim_space}
use agent_go.Errors.{Error, new_error, wrap}

-- float64 and package strconv.
pub record Floats (F : Type 0) : Type 0 where
  pub parse : Text → F ⊎ Error
  pub format : F → Text
  pub add : F → F → F
  pub sub : F → F → F
  pub mul : F → F → F
  pub div : F → F → F
  pub is_zero : F → Bool
  pub is_finite : F → Bool

-- What a call comes to: Go code may also panic.
pub data Calc (F : Type 0) : Type 0 where
  value : F → Calc F
  refused : Error → Calc F
  panics : Calc F

-- The text before and after the first such character, at or after the second character.
unfoldable pub split_at_char : ℕ → Text → Text → Option (Text × Text)
split_at_char op before [] = none
split_at_char op before (c ∷ s) = elim (c == op) [
  | true ↦ some (before, s)
  | false ↦ split_at_char op (before ++ (c ∷ [])) s
]

module _ {F : Type 0} (fl : Floats F) (quote : Text → Text) where
  abbrev pub divide : F → F → Calc F
  divide a b =
      if fl.is_zero b then refused (new_error (codes "division by zero")) else value (fl.div a b)

  -- The switch on the operator: "+", "-", "*" or "/".
  abbrev pub apply_op : ℕ → F → F → Calc F
  apply_op op a b =
      if op == 43
      then value (fl.add a b)
      else if op == 45
      then value (fl.sub a b)
      else if op == 42
      then value (fl.mul a b)
      else divide a b

  abbrev pub with_right : ℕ → F → F ⊎ Error → Calc F
  with_right op a (inr e) = refused (wrap (codes "right operand: ") e)
  with_right op a (inl b) = apply_op op a b

  abbrev pub with_left : ℕ → F ⊎ Error → Text → Calc F
  with_left op (inr e) right = refused (wrap (codes "left operand: ") e)
  with_left op (inl a) right = with_right op a (fl.parse (trim_space right))

  abbrev pub operands : ℕ → Text × Text → Calc F
  operands op (left, right) = with_left op (fl.parse (trim_space left)) right

  abbrev pub invalid_number : Error
  invalid_number = new_error (codes "invalid number")

  abbrev pub single : Text → F ⊎ Error → Calc F
  single expr (inl v) = if fl.is_finite v then value v else refused invalid_number
  single expr (inr e) = refused (
      new_error (codes "unsupported expression " ++ (quote expr ++ codes " (want like \"2 + 3\")")))

  -- `for _, op := range ops`, over an expression of first character `c` and rest `s`
  unfoldable pub try_ops : List ℕ → ℕ → Text → Calc F
  unfolding split_at_char trim_space
  try_ops [] c s = single (c ∷ s) (fl.parse (c ∷ s))
  try_ops (op ∷ ops) c s = elim (split_at_char op (c ∷ []) s) [
    | some parts ↦ operands op parts
    | none ↦ try_ops ops c s
  ]

  abbrev pub operators : List ℕ
  operators = 43 ∷ 45 ∷ 42 ∷ 47 ∷ []

  -- `expr[1:]` of an empty text panics.
  abbrev pub eval_trimmed : Text → Calc F
  eval_trimmed [] = panics
  eval_trimmed (c ∷ s) = try_ops operators c s

  -- evalTwoOperand
  unfoldable pub eval_two_operand : Text → Calc F
  unfolding try_ops trim_space
  eval_two_operand expr = eval_trimmed (trim_space expr)

  -- (Calculator).Run, for ParseArgs
  unfoldable pub run_calculator : (Text → Text ⊎ Error) → Text → Calc Text
  unfolding eval_two_operand
  run_calculator parse args = elim (parse args) [
    | inr e ↦ refused e
    | inl expr ↦ elim (eval_two_operand expr) [
      | value v ↦ value (fl.format v)
      | refused e ↦ refused e
      | panics ↦ panics
    ]
  ]

  -- No such character in a text.
  abbrev pub Lacks : ℕ → Text → Type 0
  Lacks op s = All (λ (c : ℕ). (c == op) ≡ false) s

  split_at_char-Lacks : (op : ℕ) (before s : Text) → Lacks op s → split_at_char op before s ≡ none
  unfolding split_at_char
  split_at_char-Lacks op before [] h = refl
  split_at_char-Lacks op before (c ∷ s) h =
      rw (split_at_char, h.0) (split_at_char-Lacks op (before ++ (c ∷ [])) s h.1)

  split_at_char-found :
      (op : ℕ) (before l r : Text)
      → Lacks op l
      → split_at_char op before (l ++ (op ∷ r)) ≡ some (before ++ l, r)
  unfolding split_at_char
  split_at_char-found op before [] r h =
      let here : (op == op) ≡ true = ground arith in
      rw (split_at_char, here) (ap (λ (t : Text). some (t, r)) (sym (append-nil before)))
  split_at_char-found op before (c ∷ l) r h =
      rw (split_at_char, h.0)
        (split_at_char-found op (before ++ (c ∷ [])) l r h.1
          ∙ ap (λ (t : Text). some (t, r)) (append_assoc before (c ∷ []) l))

  -- The operator is one of these, and those before it do not occur.
  abbrev pub IsFirst : List ℕ → ℕ → Text → Type 0
  IsFirst [] op s = ⊥
  IsFirst (o ∷ os) op s = (o ≡ op) ⊎ (Lacks o s × IsFirst os op s)

  try_ops-first :
      (ops : List ℕ) (c : ℕ) (l r : Text) (op : ℕ)
      → Lacks op l
      → IsFirst ops op (l ++ (op ∷ r))
      → try_ops ops c (l ++ (op ∷ r)) ≡ operands op (c ∷ l, r)
  unfolding try_ops
  try_ops-first [] c l r op h g = elim g [ ]
  try_ops-first (o ∷ os) c l r op h (inl same) =
      ap (λ (x : ℕ). try_ops (x ∷ os) c (l ++ (op ∷ r))) same
      ∙ rw (try_ops, split_at_char-found op (c ∷ []) l r h) refl
  try_ops-first (o ∷ os) c l r op h (inr (absent, later)) =
      rw (try_ops, split_at_char-Lacks o (c ∷ []) (l ++ (op ∷ r)) absent)
        (try_ops-first os c l r op h later)

  -- What an operator makes of two numbers: 43 is "+", 45 "-", 42 "*" and 47 "/".
  pub data Computes (a b : F) : ℕ → Calc F → Type 0 where
    adds : Computes a b 43 (value (fl.add a b))
    subtracts : Computes a b 45 (value (fl.sub a b))
    multiplies : Computes a b 42 (value (fl.mul a b))
    divides : fl.is_zero b ≡ false → Computes a b 47 (value (fl.div a b))
    divides_by_zero :
        fl.is_zero b ≡ true → Computes a b 47 (refused (new_error (codes "division by zero")))

  divide-Computes : (a b : F) → Computes a b 47 (divide a b)
  divide-Computes a b = elim (Bool-cases (fl.is_zero b)) [
    | inl e ↦ rw e (divides_by_zero e)
    | inr e ↦ rw e (divides e)
  ]

  apply_op-Computes :
      (op : ℕ) (a b : F) (t : Text) → IsFirst operators op t → Computes a b op (apply_op op a b)
  apply_op-Computes op a b t (inl e) = subst (λ k. Computes a b k (apply_op k a b)) e adds
  apply_op-Computes op a b t (inr (h, inl e)) =
      subst (λ k. Computes a b k (apply_op k a b)) e subtracts
  apply_op-Computes op a b t (inr (h, inr (g, inl e))) =
      subst (λ k. Computes a b k (apply_op k a b)) e multiplies
  apply_op-Computes op a b t (inr (h, inr (g, inr (f, inl e)))) =
      subst (λ k. Computes a b k (apply_op k a b)) e (divide-Computes a b)
  apply_op-Computes op a b t (inr (h, inr (g, inr (f, inr (k, e))))) = elim e [ ]

  -- If an expression without the space around it is a character, a text without some operator,
  -- this operator (one of + - * /), and a text, no operator that is searched before occurs after
  -- the first character, and the two texts, the space around them taken off, are numbers, then the
  -- calculator gives their sum, difference or product, for / their quotient if the right one is
  -- not zero, and otherwise the error that says that it divides by zero.
  pub eval_two_operand-Computes :
      (expr : Text) (c : ℕ) (l r : Text) (op : ℕ) (a b : F)
      → trim_space expr ≡ c ∷ (l ++ (op ∷ r))
      → Lacks op l
      → IsFirst operators op (l ++ (op ∷ r))
      → fl.parse (trim_space (c ∷ l)) ≡ inl a
      → fl.parse (trim_space r) ≡ inl b
      → Computes a b op (eval_two_operand expr)
  unfolding eval_two_operand
  eval_two_operand-Computes expr c l r op a b e h g p q =
      let same : eval_two_operand expr ≡ apply_op op a b =
        ap eval_trimmed e ∙ try_ops-first operators c l r op h g ∙ rw p (rw q refl) in
      subst (Computes a b op) (sym same) (apply_op-Computes op a b (l ++ (op ∷ r)) g)
