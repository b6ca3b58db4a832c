-- ===== src/Agent/Memory/Distinct.antt =====
-- Bounded lists of distinct entries, as addLike and addNote of agent/memory.go keep them.
use agent_go.Prelude.{
  ℕ, zero, suc, ◌-◌, ◌≤◌, ◌≡◌, refl, Bool, true, false, ◌||◌, List, [], ◌∷◌, ◌++◌, arith, length,
  length-append, length-drop, drop, any, All, All-append, All-drop, ltb, Bool-cases, inl, inr,
  ltb→le,
}
use agent_go.Text.{Text, is_empty}
use agent_go.Agent.Memory.{push_bounded, add_distinct}

-- No member is the same as one before it.
abbrev pub Distinct : (Text → Text → Bool) → List Text → Type 0
Distinct same [] = Unit
Distinct same (x ∷ xs) = (any (λ y. same x y) xs ≡ false) × Distinct same xs

-- Something is written, and no more than `max` runes.
abbrev pub IsEntry : ℕ → Text → Type 0
IsEntry max v = (is_empty v ≡ false) × (length v ≤ max)

pub record IsBoundedList (same : Text → Text → Bool) (count runes : ℕ) (xs : List Text)
    : Type 0 where
  pub few : length xs ≤ count
  pub entries : All (IsEntry runes) xs
  pub distinct : Distinct same xs

any-append : (p : Text → Bool) (xs ys : List Text) → any p (xs ++ ys) ≡ (any p xs || any p ys)
any-append p [] ys = refl
any-append p (x ∷ xs) ys = ground (arith, any-append p xs ys)

module _ (same : Text → Text → Bool) where
  Distinct-snoc :
      (xs : List Text) (v : Text)
      → Distinct same xs
      → any (λ x. same x v) xs ≡ false
      → Distinct same (xs ++ v ∷ [])
  Distinct-snoc [] v h a = (refl, tt)
  Distinct-snoc (x ∷ xs) v h a =
      (ground (arith, any-append (same x) xs (v ∷ [])), Distinct-snoc xs v h.1 (ground arith))

  Distinct-drop : (n : ℕ) (xs : List Text) → Distinct same xs → Distinct same (drop n xs)
  Distinct-drop zero xs h = h
  Distinct-drop (suc n) [] h = h
  Distinct-drop (suc n) (x ∷ xs) h = Distinct-drop n xs h.1

  push_bounded-IsBoundedList :
      (count runes : ℕ) (v : Text) (xs : List Text)
      → IsBoundedList same count runes xs
      → IsEntry runes v
      → any (λ x. same x v) xs ≡ false
      → IsBoundedList same count runes (push_bounded count v xs)
  push_bounded-IsBoundedList count runes v xs b e a =
      let ys : List Text = xs ++ v ∷ [] in
      let all : All (IsEntry runes) ys = All-append (IsEntry runes) xs (v ∷ []) b.entries (e, tt) in
      let d : Distinct same ys = Distinct-snoc xs v b.distinct a in
      elim (Bool-cases (ltb count (length ys))) [
        | inl o ↦ rw o (record {
          few = omega (arith, length-drop (length ys - count) ys);
          entries = All-drop (IsEntry runes) (length ys - count) ys all;
          distinct = Distinct-drop (length ys - count) ys d;
        })
        | inr o ↦ rw o (record { few = ltb→le _ _ o; entries = all; distinct = d })
      ]

  pub add_distinct-IsBoundedList :
      (count runes : ℕ) (v : Text) (xs : List Text)
      → IsBoundedList same count runes xs
      → length v ≤ runes
      → IsBoundedList same count runes (add_distinct same count v xs)
  unfolding add_distinct
  add_distinct-IsBoundedList count runes v xs b short = elim (Bool-cases (is_empty v)) [
    | inl e ↦ rw e b
    | inr e ↦ elim (Bool-cases (any (λ x. same x v) xs)) [
      | inl a ↦ rw e (rw a b)
      | inr a ↦ rw e (rw a (push_bounded-IsBoundedList count runes v xs b (e, short) a))
    ]
  ]

  any-drop_snoc :
      (p : Text → Bool) (n : ℕ) (xs : List Text) (v : Text)
      → n ≤ length xs
      → p v ≡ true
      → any p (drop n (xs ++ v ∷ [])) ≡ true
  any-drop_snoc p zero xs v h e = ground (arith, any-append p xs (v ∷ []))
  any-drop_snoc p (suc n) [] v h e = absurd (omega arith)
  any-drop_snoc p (suc n) (x ∷ xs) v h e = any-drop_snoc p n xs v (omega arith) e

  -- What was added is there, or something the same as it.
  pub add_distinct_records :
      (count : ℕ) (v : Text) (xs : List Text)
      → same v v ≡ true
      → is_empty v ≡ false
      → any (λ x. same x v) (add_distinct same (suc count) v xs) ≡ true
  unfolding add_distinct
  add_distinct_records count v xs r e = elim (Bool-cases (any (λ x. same x v) xs)) [
    | inl a ↦ rw e (rw a a)
    | inr a ↦ rw e (
        rw a (elim (Bool-cases (ltb (suc count) (length (xs ++ v ∷ [])))) [
          | inl o ↦ rw o (
              any-drop_snoc (λ x. same x v) (length (xs ++ v ∷ []) - suc count) xs v
                (omega (arith, length-append xs (v ∷ []))) r)
          | inr o ↦ rw o (any-drop_snoc (λ x. same x v) 0 xs v (omega arith) r)
        ]))
  ]
