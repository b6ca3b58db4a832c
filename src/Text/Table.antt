-- ===== src/Text/Table.antt =====
-- Go maps with string keys, as lists of pairs, and sets of strings.
use agent_go.Prelude.{
  ◌≡◌, refl, sym, ap, ◌∙◌, Bool, false, ◌||◌, List, [], ◌∷◌, ◌++◌, Option, none, some, arith,
  if◌then◌else◌, Bool-cases, inl, inr, ◌⊎◌,
}
use agent_go.Text.Equality.{text_eq, text_eq_iff, text_eq_refl}
use agent_go.Prelude.{ℕ}

abbrev pub Table {ℓ} : Type ℓ → Type ℓ
Table A = List (List ℕ × A)

module _ {ℓ} {A : Type ℓ} where
  -- `v, ok := m[k]`
  unfoldable pub lookup : List ℕ → Table A → Option A
  lookup k [] = none
  lookup k ((j, v) ∷ m) = if text_eq j k then some v else lookup k m

  -- `m[k] = v`
  unfoldable pub insert : List ℕ → A → Table A → Table A
  insert k v [] = (k, v) ∷ []
  insert k v ((j, x) ∷ m) =
      let rest = insert k v m in if text_eq j k then (k, v) ∷ m else (j, x) ∷ rest

  pub lookup-insert_self : (k : List ℕ) (v : A) (m : Table A) → lookup k (insert k v m) ≡ some v
  unfolding lookup insert
  lookup-insert_self k v [] = rw (text_eq_refl k) refl
  lookup-insert_self k v ((j, x) ∷ m) = elim (Bool-cases (text_eq j k)) [
    | inl e ↦ rw e (rw (text_eq_refl k) refl)
    | inr e ↦ rw e (rw e (lookup-insert_self k v m))
  ]

  pub lookup-insert_ne :
      (k i : List ℕ) (v : A) (m : Table A)
      → text_eq k i ≡ false
      → lookup i (insert k v m) ≡ lookup i m
  unfolding lookup insert
  lookup-insert_ne k i v [] h = rw h refl
  lookup-insert_ne k i v ((j, x) ∷ m) h = elim (Bool-cases (text_eq j k)) [
    | inl e ↦ let same : j ≡ k = (text_eq_iff j k).0 e in rw e (rw same (rw h refl))
    | inr e ↦ rw e (elim (Bool-cases (text_eq j i)) [
      | inl d ↦ rw d refl
      | inr d ↦ rw d (lookup-insert_ne k i v m h)
    ])
  ]

  -- `delete(m, k)`
  unfoldable pub delete : List ℕ → Table A → Table A
  delete k [] = []
  delete k ((j, x) ∷ m) = let rest = delete k m in if text_eq j k then rest else (j, x) ∷ rest

  pub lookup-delete_self : (k : List ℕ) (m : Table A) → lookup k (delete k m) ≡ none
  unfolding lookup delete
  lookup-delete_self k [] = refl
  lookup-delete_self k ((j, x) ∷ m) = elim (Bool-cases (text_eq j k)) [
    | inl e ↦ rw e (lookup-delete_self k m)
    | inr e ↦ rw e (rw e (lookup-delete_self k m))
  ]

  pub lookup-delete_ne :
      (k i : List ℕ) (m : Table A) → text_eq k i ≡ false → lookup i (delete k m) ≡ lookup i m
  unfolding lookup delete
  lookup-delete_ne k i [] h = refl
  lookup-delete_ne k i ((j, x) ∷ m) h = elim (Bool-cases (text_eq j k)) [
    | inl e ↦
        let same : j ≡ k = (text_eq_iff j k).0 e in rw e (rw same (rw h (lookup-delete_ne k i m h)))
    | inr e ↦ rw e (elim (Bool-cases (text_eq j i)) [
      | inl d ↦ rw d refl
      | inr d ↦ rw d (lookup-delete_ne k i m h)
    ])
  ]

  -- What is found after a write is what was written, or was there under another key.
  pub lookup-insert_cases :
      (k i : List ℕ) (v u : A) (m : Table A)
      → lookup i (insert k v m) ≡ some u
      → ((k ≡ i) × (some v ≡ some u)) ⊎ ((text_eq k i ≡ false) × (lookup i m ≡ some u))
  lookup-insert_cases k i v u m e = elim (Bool-cases (text_eq k i)) [
    | inl d ↦
        let same : k ≡ i = (text_eq_iff k i).0 d in
        inl (same, sym (lookup-insert_self k v m) ∙ ap (λ j. lookup j (insert k v m)) same ∙ e)
    | inr d ↦ inr (d, sym (lookup-insert_ne k i v m d) ∙ e)
  ]

  none-some : (u : A) → none ≡ some u → ⊥
  none-some u e = cc

  -- What is found after a deletion was there under another key.
  pub lookup-delete_cases :
      (k i : List ℕ) (u : A) (m : Table A)
      → lookup i (delete k m) ≡ some u
      → (text_eq k i ≡ false) × (lookup i m ≡ some u)
  lookup-delete_cases k i u m e = elim (Bool-cases (text_eq k i)) [
    | inl d ↦ absurd (
        none-some u (
          sym (lookup-delete_self k m)
          ∙ ap (λ j. lookup j (delete k m)) ((text_eq_iff k i).0 d)
          ∙ e))
    | inr d ↦ (d, sym (lookup-delete_ne k i m d) ∙ e)
  ]

  -- Two keys with different entries differ.
  pub lookup-ne :
      (k i : List ℕ) (u : A) (m : Table A)
      → lookup k m ≡ none
      → lookup i m ≡ some u
      → text_eq k i ≡ false
  lookup-ne k i u m e f = elim (Bool-cases (text_eq k i)) [
    | inl d ↦ absurd (none-some u (sym e ∙ ap (λ j. lookup j m) ((text_eq_iff k i).0 d) ∙ f))
    | inr d ↦ d
  ]

-- `_, ok := m[k]`, for a map whose values do not matter
unfoldable pub mem : List ℕ → List (List ℕ) → Bool
mem k [] = false
mem k (j ∷ xs) = text_eq j k || mem k xs

-- `delete(m, k)`
unfoldable pub remove : List ℕ → List (List ℕ) → List (List ℕ)
remove k [] = []
remove k (j ∷ xs) = let rest = remove k xs in if text_eq j k then rest else j ∷ rest

pub mem-append : (k : List ℕ) (xs ys : List (List ℕ)) → mem k (xs ++ ys) ≡ (mem k xs || mem k ys)
unfolding mem
mem-append k [] ys = refl
mem-append k (x ∷ xs) ys = ground (arith, mem-append k xs ys)

pub mem-remove_self : (k : List ℕ) (xs : List (List ℕ)) → mem k (remove k xs) ≡ false
unfolding mem remove
mem-remove_self k [] = refl
mem-remove_self k (x ∷ xs) = elim (Bool-cases (text_eq x k)) [
  | inl e ↦ rw e (mem-remove_self k xs)
  | inr e ↦ rw e (rw e (mem-remove_self k xs))
]

pub mem-remove_ne :
    (k i : List ℕ) (xs : List (List ℕ)) → text_eq k i ≡ false → mem i (remove k xs) ≡ mem i xs
unfolding mem remove
mem-remove_ne k i [] h = refl
mem-remove_ne k i (x ∷ xs) h = elim (Bool-cases (text_eq x k)) [
  | inl e ↦
      let same : x ≡ k = (text_eq_iff x k).0 e in rw e (rw same (rw h (mem-remove_ne k i xs h)))
  | inr e ↦ rw e (elim (Bool-cases (text_eq x i)) [
    | inl d ↦ rw d refl
    | inr d ↦ rw d (mem-remove_ne k i xs h)
  ])
]
