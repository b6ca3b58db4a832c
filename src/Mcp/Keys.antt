-- ===== src/Mcp/Keys.antt =====
-- Lists of distinct keys, with a key that is taken out or moved.
use agent_go.Prelude.{
  ◌≡◌, refl, sym, ◌∙◌, ap, subst, Bool, true, false, ◌||◌, List, [], ◌∷◌, ◌++◌, arith, Bool-cases,
  inl, inr, All,
}
use agent_go.Text.{Text, text_eq, text_eq_iff, text_ne_sym}
use agent_go.Text.Table.{mem, remove, mem-append}

-- No text stands twice.
abbrev pub AreDistinct : List Text → Type 0
AreDistinct [] = Unit
AreDistinct (k ∷ ks) = (mem k ks ≡ false) × AreDistinct ks

pub either_false : (a b : Bool) → (a || b) ≡ false → (a ≡ false) × (b ≡ false)
either_false a b h = ground arith

pub both_false : (a b : Bool) → a ≡ false → b ≡ false → (a || b) ≡ false
both_false a b h g = ground arith

mem-remove_append :
    (i k : Text) (xs ys : List Text) → mem i (xs ++ ys) ≡ false → mem i (remove k xs ++ ys) ≡ false
unfolding mem remove
mem-remove_append i k [] ys h = h
mem-remove_append i k (x ∷ xs) ys h =
    let (first, rest) = either_false (text_eq x i) (mem i (xs ++ ys)) h in
    elim (Bool-cases (text_eq x k)) [
      | inl e ↦ rw e (mem-remove_append i k xs ys rest)
      | inr e ↦ rw e (
          both_false (text_eq x i) (mem i (remove k xs ++ ys)) first
            (mem-remove_append i k xs ys rest))
    ]

pub AreDistinct-remove :
    (k : Text) (xs ys : List Text) → AreDistinct (xs ++ ys) → AreDistinct (remove k xs ++ ys)
unfolding remove
AreDistinct-remove k [] ys h = h
AreDistinct-remove k (x ∷ xs) ys h = elim (Bool-cases (text_eq x k)) [
  | inl e ↦ rw e (AreDistinct-remove k xs ys h.1)
  | inr e ↦ rw e (mem-remove_append x k xs ys h.0, AreDistinct-remove k xs ys h.1)
]

module _ {ℓ} (P : Text → Type ℓ) where
  pub All-remove : (k : Text) (xs ys : List Text) → All P (xs ++ ys) → All P (remove k xs ++ ys)
  unfolding remove
  All-remove k [] ys h = h
  All-remove k (x ∷ xs) ys h = elim (Bool-cases (text_eq x k)) [
    | inl e ↦ rw e (All-remove k xs ys h.1)
    | inr e ↦ rw e (h.0, All-remove k xs ys h.1)
  ]

  -- What holds of a member and of all holds of all when the member is moved.
  pub All-between : (k : Text) (xs ys : List Text) → P k → All P (xs ++ ys) → All P (xs ++ (k ∷ ys))
  All-between k [] ys p h = (p, h)
  All-between k (x ∷ xs) ys p h = (h.0, All-between k xs ys p h.1)

  pub All-mem : (k : Text) (xs ys : List Text) → mem k xs ≡ true → All P (xs ++ ys) → P k
  unfolding mem
  All-mem k [] ys e h = cc
  All-mem k (x ∷ xs) ys e h = elim (Bool-cases (text_eq x k)) [
    | inl d ↦ subst P ((text_eq_iff x k).0 d) h.0
    | inr d ↦ All-mem k xs ys (rw d at e) h.1
  ]

mem-between :
    (i k : Text) (xs ys : List Text)
    → text_eq k i ≡ false
    → mem i (xs ++ ys) ≡ false
    → mem i (xs ++ (k ∷ ys)) ≡ false
unfolding mem
mem-between i k [] ys e h = both_false (text_eq k i) (mem i ys) e h
mem-between i k (x ∷ xs) ys e h =
    let (first, rest) = either_false (text_eq x i) (mem i (xs ++ ys)) h in
    both_false (text_eq x i) (mem i (xs ++ (k ∷ ys))) first (mem-between i k xs ys e rest)

pub AreDistinct-between :
    (k : Text) (xs ys : List Text)
    → mem k (xs ++ ys) ≡ false
    → AreDistinct (xs ++ ys)
    → AreDistinct (xs ++ (k ∷ ys))
unfolding mem
AreDistinct-between k [] ys e h = (e, h)
AreDistinct-between k (x ∷ xs) ys e h =
    let (first, rest) = either_false (text_eq x k) (mem k (xs ++ ys)) e in
    (mem-between x k xs ys (text_ne_sym x k first) h.0, AreDistinct-between k xs ys rest h.1)

-- A member of the first part is not in the second.
pub AreDistinct-apart :
    (k : Text) (xs ys : List Text) → AreDistinct (xs ++ ys) → mem k xs ≡ true → mem k ys ≡ false
unfolding mem
AreDistinct-apart k [] ys h e = cc
AreDistinct-apart k (x ∷ xs) ys h e = elim (Bool-cases (text_eq x k)) [
  | inl d ↦
      let gone : mem k (xs ++ ys) ≡ false =
        subst (λ j. mem j (xs ++ ys) ≡ false) ((text_eq_iff x k).0 d) h.0 in
      (either_false (mem k xs) (mem k ys) (sym (mem-append k xs ys) ∙ gone)).1
  | inr d ↦ AreDistinct-apart k xs ys h.1 (rw d at e)
]

pub remove-absent : (k : Text) (xs : List Text) → mem k xs ≡ false → remove k xs ≡ xs
unfolding mem remove
remove-absent k [] h = refl
remove-absent k (x ∷ xs) h =
    let (first, rest) = either_false (text_eq x k) (mem k xs) h in
    rw first (ap (λ (l : List Text). x ∷ l) (remove-absent k xs rest))
