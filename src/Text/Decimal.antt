-- ===== src/Text/Decimal.antt =====
-- `%d` of a count: decimal digits, and how many there are.
use agent_go.Prelude.{
  ℕ, zero, suc, ◌+◌, ◌-◌, ◌*◌, ◌/◌, ◌%◌, ◌^◌, ◌≤◌, ◌<◌, ◌≡◌, refl, sym, ◌∙◌, ap, true, false, ◌&&◌,
  List, [], ◌∷◌, arith, ltb, leb, ◌==◌, length, if◌then◌else◌, Option, none, some, All, Bool-cases,
  inl, inr, ltb→lt, ltb→le, lt→ltb, subst,
}
use agent_go.Prelude.Int.{ℤ, pos, negsuc, sign_bit}
use native.Mathlib.Nat.{pow-suc}

-- The digits of `n` in front of `out`; the fuel is more than the number of digits.
unfoldable pub digits : ℕ → ℕ → List ℕ → List ℕ
digits zero n out = out
digits (suc fuel) n out =
    let more = digits fuel (n / 10) ((48 + n % 10) ∷ out) in
    if ltb n 10 then (48 + n) ∷ out else more

-- A number has at most as many digits as its value plus one.
unfoldable pub decimal : ℕ → List ℕ
unfolding digits
decimal n = digits (suc n) n []

length-digits :
    (k fuel n : ℕ) (out : List ℕ) → n < 10 ^ suc k → length (digits fuel n out) ≤ suc k + length out
unfolding digits
length-digits k zero n out h = omega arith
length-digits zero (suc fuel) n out h = ground (arith, lt→ten n h)
  where
    lt→ten : (n : ℕ) → n < 10 ^ 1 → n < 10
    lt→ten n h = omega arith
length-digits (suc k) (suc fuel) n out h = ground (
  arith,
  length-digits k fuel (n / 10) ((48 + n % 10) ∷ out) (tenth n (10 ^ suc k) (rw (pow-suc) at h)),
)
  where
    tenth : (n m : ℕ) → n < m * 10 → n / 10 < m
    tenth n m h = omega arith

-- A number below 10 ^ (k + 1) has at most k + 1 digits.
pub length-decimal : (k n : ℕ) → n < 10 ^ suc k → length (decimal n) ≤ suc k
unfolding decimal
length-decimal k n h = omega (arith, length-digits k (suc n) n [] h)

-- The digits of a number, read from the left onto `acc`.
unfoldable pub parse_digits : ℕ → List ℕ → Option ℕ
parse_digits acc [] = some acc
parse_digits acc (c ∷ s) = elim (leb 48 c && leb c 57) [
  | true ↦ parse_digits (acc * 10 + (c - 48)) s
  | false ↦ none
]

-- strconv.Atoi, for the size of Go's int
abbrev unsigned : List ℕ → Option ℕ
unsigned [] = none
unsigned (c ∷ s) = parse_digits 0 (c ∷ s)

abbrev in_range : Option ℕ → Option ℤ
in_range none = none
in_range (some n) = if ltb n sign_bit then some (pos n) else none

abbrev negated : Option ℕ → Option ℤ
negated none = none
negated (some zero) = some (pos 0)
negated (some (suc n)) = if ltb n sign_bit then some (negsuc n) else none

unfoldable pub atoi : List ℕ → Option ℤ
unfolding parse_digits
atoi [] = none
atoi (c ∷ s) =
    if c == 45
    then negated (unsigned s)
    else if c == 43
    then in_range (unsigned s)
    else in_range (unsigned (c ∷ s))

abbrev pub IsDigit : ℕ → Type 0
IsDigit c = (48 ≤ c) × (c ≤ 57)

digits-IsDigit : (fuel n : ℕ) (out : List ℕ) → All IsDigit out → All IsDigit (digits fuel n out)
unfolding digits
digits-IsDigit zero n out h = h
digits-IsDigit (suc fuel) n out h = elim (Bool-cases (ltb n 10)) [
  | inl e ↦ let small = ltb→lt n 10 e in rw e ((omega arith, omega arith), h)
  | inr e ↦
      rw e (digits-IsDigit fuel (n / 10) ((48 + n % 10) ∷ out) ((omega arith, omega arith), h))
]

pub decimal-IsDigit : (n : ℕ) → All IsDigit (decimal n)
unfolding decimal
decimal-IsDigit n = digits-IsDigit (suc n) n [] tt

parse_digits-digit :
    (acc d n : ℕ) (s : List ℕ)
    → d < 10
    → acc * 10 + d ≡ n
    → parse_digits acc ((48 + d) ∷ s) ≡ parse_digits n s
unfolding parse_digits
parse_digits-digit acc d n s h e =
    let is_digit : (leb 48 (48 + d) && leb (48 + d) 57) ≡ true = ground arith in
    rw (parse_digits, is_digit) (ap (λ (m : ℕ). parse_digits m s) (value acc d n e))
  where
    value : (acc d n : ℕ) → acc * 10 + d ≡ n → acc * 10 + (48 + d - 48) ≡ n
    value acc d n e = omega arith

parse_digits-digits :
    (fuel n : ℕ) (out : List ℕ) → n < fuel → parse_digits 0 (digits fuel n out) ≡ parse_digits n out
unfolding digits
parse_digits-digits zero n out h = absurd (omega arith)
parse_digits-digits (suc fuel) n out h = elim (Bool-cases (ltb n 10)) [
  | inl e ↦ rw e (parse_digits-digit 0 n n out (ltb→lt n 10 e) (omega arith))
  | inr e ↦ rw e (
      parse_digits-digits fuel (n / 10) ((48 + n % 10) ∷ out) (omega (arith, ltb→le n 10 e))
      ∙ parse_digits-digit (n / 10) (n % 10) n out (omega arith) (omega arith))
]

digits-cons :
    (fuel n d : ℕ) (out : List ℕ) → (c : ℕ) × (s : List ℕ) × (digits fuel n (d ∷ out) ≡ c ∷ s)
unfolding digits
digits-cons zero n d out = (d, out, refl)
digits-cons (suc fuel) n d out = elim (Bool-cases (ltb n 10)) [
  | inl e ↦ (48 + n, d ∷ out, rw e refl)
  | inr e ↦ let (c, s, h) = digits-cons fuel (n / 10) (48 + n % 10) (d ∷ out) in (c, s, rw e h)
]

pub decimal-cons : (n : ℕ) → (c : ℕ) × (s : List ℕ) × (decimal n ≡ c ∷ s)
unfolding decimal digits
decimal-cons n = elim (Bool-cases (ltb n 10)) [
  | inl e ↦ (48 + n, [], rw e refl)
  | inr e ↦ let (c, s, h) = digits-cons n (n / 10) (48 + n % 10) [] in (c, s, rw e h)
]

atoi-digit : (c : ℕ) (s : List ℕ) → IsDigit c → atoi (c ∷ s) ≡ in_range (parse_digits 0 (c ∷ s))
unfolding atoi
atoi-digit c s h =
    let no_minus : (c == 45) ≡ false = ground arith in
    let no_plus : (c == 43) ≡ false = ground arith in rw no_minus (rw no_plus refl)

-- What is printed reads back.
pub atoi-decimal : (n : ℕ) → n < sign_bit → atoi (decimal n) ≡ some (pos n)
unfolding decimal parse_digits
atoi-decimal n h =
    let (c, s, e) = decimal-cons n in
    let fits : ltb n sign_bit ≡ true = lt→ltb n sign_bit h in
    ap atoi e
    ∙ atoi-digit c s (subst (All IsDigit) e (decimal-IsDigit n)).0
    ∙ ap (λ l. in_range (parse_digits 0 l)) (sym e)
    ∙ ap in_range (parse_digits-digits (suc n) n [] (omega arith))
    ∙ in_range-fits n fits
  where
    in_range-fits : (n : ℕ) → ltb n sign_bit ≡ true → in_range (parse_digits n []) ≡ some (pos n)
    in_range-fits n e = rw e refl

some-inj : (m n : ℕ) → ◌≡◌ {A = Option ℕ} (some m) (some n) → m ≡ n
some-inj m n h = cc

-- Two numbers that print alike are equal.
pub decimal_inj : (m n : ℕ) → decimal m ≡ decimal n → m ≡ n
unfolding decimal parse_digits
decimal_inj m n h = some-inj m n (
    sym (parse_digits-digits (suc m) m [] (omega arith))
    ∙ ap (parse_digits 0) h
    ∙ parse_digits-digits (suc n) n [] (omega arith))
