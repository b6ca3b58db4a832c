-- ===== src/Text/Equality.antt =====
-- `==` on strings, and the tests for the empty string and the empty list.
use agent_go.Prelude.{ℕ, ◌≡◌, refl, ◌↔◌, Bool, true, false, ◌&&◌, List, [], ◌∷◌, arith, ◌==◌}

unfoldable pub text_eq : List ℕ → List ℕ → Bool
text_eq [] [] = true
text_eq [] (d ∷ t) = false
text_eq (c ∷ s) [] = false
text_eq (c ∷ s) (d ∷ t) = c == d && text_eq s t

text_eq_sound : (s t : List ℕ) → text_eq s t ≡ true → s ≡ t
unfolding text_eq
text_eq_sound [] [] h = refl
text_eq_sound [] (d ∷ t) h = cc
text_eq_sound (c ∷ s) [] h = cc
text_eq_sound (c ∷ s) (d ∷ t) h = ground (arith, text_eq_sound s t)

pub text_eq_refl : (s : List ℕ) → text_eq s s ≡ true
unfolding text_eq
text_eq_refl [] = refl
text_eq_refl (c ∷ s) = ground (arith, text_eq_refl s)

pub text_eq_iff : (s t : List ℕ) → (text_eq s t ≡ true) ↔ (s ≡ t)
text_eq_iff s t = (text_eq_sound s t, λ e. rw (← e) (text_eq_refl s))

pub text_ne_sym : (a b : List ℕ) → text_eq a b ≡ false → text_eq b a ≡ false
text_ne_sym a b h = ground (arith, text_eq_iff a b, text_eq_iff b a, text_eq_refl a)

-- `len(xs) == 0`
unfoldable pub is_nil {ℓ} : {A : Type ℓ} → List A → Bool
is_nil [] = true
is_nil (x ∷ xs) = false

pub is_nil-eq {ℓ} : {A : Type ℓ} (s : List A) → is_nil s ≡ true → s ≡ []
unfolding is_nil
is_nil-eq [] h = refl
is_nil-eq (x ∷ s) h = cc

-- `s == ""`
unfoldable pub is_empty : List ℕ → Bool
is_empty [] = true
is_empty (c ∷ s) = false

pub is_empty-eq : (s : List ℕ) → is_empty s ≡ true → s ≡ []
unfolding is_empty
is_empty-eq [] h = refl
is_empty-eq (c ∷ s) h = cc
