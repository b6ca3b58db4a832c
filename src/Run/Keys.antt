-- ===== src/Run/Keys.antt =====
-- The keys of the items that evictLocked of run/registry.go sorts.
use agent_go.Prelude.{
  ℕ, suc, ◌≡◌, refl, sym, ap, ◌∙◌, Bool, true, false, ◌||◌, List, [], ◌∷◌, arith, Bool-cases, inl,
  inr, length, take, ltb, zero,
}
use agent_go.Text.{Text, text_ne_sym, text_eq, text_eq_refl}
use agent_go.Text.Table.{mem}
use agent_go.Run.Registry.{sort_in, sort_items}

abbrev pub keys : List (Text × ℕ) → List Text
keys [] = []
keys (x ∷ xs) = x.0 ∷ keys xs

-- No key stands twice.
abbrev pub Once : List Text → Type 0
Once [] = Unit
Once (id ∷ ids) = (mem id ids ≡ false) × Once ids

pub or_false : (a b : Bool) → (a || b) ≡ false → (a ≡ false) × (b ≡ false)
or_false false b h = (refl, h)
or_false true b h = cc

-- Sorting keeps the keys.
pub mem-sort_in :
    (k : Text) (x : Text × ℕ) (ys : List (Text × ℕ))
    → mem k (keys (sort_in x ys)) ≡ (text_eq x.0 k || mem k (keys ys))
unfolding sort_in mem
mem-sort_in k x [] = refl
mem-sort_in k x (y ∷ ys) = let rest = mem-sort_in k x ys in ground arith

pub mem-sort_items :
    (k : Text) (xs : List (Text × ℕ)) → mem k (keys (sort_items xs)) ≡ mem k (keys xs)
unfolding sort_items mem
mem-sort_items k [] = refl
mem-sort_items k (x ∷ xs) =
    mem-sort_in k x (sort_items xs) ∙ ap (λ b. text_eq x.0 k || b) (mem-sort_items k xs)

pub sort_in-Once :
    (x : Text × ℕ) (ys : List (Text × ℕ))
    → mem x.0 (keys ys) ≡ false
    → Once (keys ys)
    → Once (keys (sort_in x ys))
unfolding sort_in mem
sort_in-Once x [] n h = (n, tt)
sort_in-Once x (y ∷ ys) n h = elim (Bool-cases (ltb y.1 x.1)) [
  | inr e ↦ rw e (n, h)
  | inl e ↦
      let (a, b) = or_false (text_eq y.0 x.0) (mem x.0 (keys ys)) n in
      rw e (
        mem-sort_in y.0 x ys ∙ ap (λ c. c || mem y.0 (keys ys)) (text_ne_sym y.0 x.0 a) ∙ h.0,
        sort_in-Once x ys b h.1,
      )
]

pub length-sort_in : (x : Text × ℕ) (ys : List (Text × ℕ)) → length (sort_in x ys) ≡ suc (length ys)
unfolding sort_in
length-sort_in x [] = refl
length-sort_in x (y ∷ ys) = let rest = length-sort_in x ys in ground arith

pub length-sort_items : (xs : List (Text × ℕ)) → length (sort_items xs) ≡ length xs
unfolding sort_items
length-sort_items [] = refl
length-sort_items (x ∷ xs) = length-sort_in x (sort_items xs) ∙ ap suc (length-sort_items xs)

pub sort_items-Once : (xs : List (Text × ℕ)) → Once (keys xs) → Once (keys (sort_items xs))
unfolding sort_items
sort_items-Once [] h = tt
sort_items-Once (x ∷ xs) h =
    sort_in-Once x (sort_items xs) (mem-sort_items x.0 xs ∙ h.0) (sort_items-Once xs h.1)

pub mem-take :
    (k : Text) (n : ℕ) (xs : List (Text × ℕ))
    → mem k (keys xs) ≡ false
    → mem k (keys (take n xs)) ≡ false
unfolding mem
mem-take k zero xs h = refl
mem-take k (suc n) [] h = refl
mem-take k (suc n) (x ∷ xs) h =
    let (a, b) = or_false (text_eq x.0 k) (mem k (keys xs)) h in
    ap (λ c. c || mem k (keys (take n xs))) a ∙ mem-take k n xs b

pub take-Once : (n : ℕ) (xs : List (Text × ℕ)) → Once (keys xs) → Once (keys (take n xs))
take-Once zero xs h = tt
take-Once (suc n) [] h = tt
take-Once (suc n) (x ∷ xs) h = (mem-take x.0 n xs h.0, take-Once n xs h.1)

-- The keys of one list are among those of another.
abbrev pub AreAmong : List Text → List Text → Type 0
AreAmong [] ids = Unit
AreAmong (k ∷ ks) ids = (mem k ids ≡ true) × AreAmong ks ids

pub AreAmong-tail : (k : Text) (ks ids : List Text) → AreAmong ks ids → AreAmong ks (k ∷ ids)
unfolding mem
AreAmong-tail k [] ids h = tt
AreAmong-tail k (j ∷ ks) ids h =
    (ap (λ b. text_eq k j || b) h.0 ∙ or_true (text_eq k j), AreAmong-tail k ks ids h.1)
  where
    or_true : (b : Bool) → (b || true) ≡ true
    or_true false = refl
    or_true true = refl

pub AreAmong-take : (n : ℕ) (xs : List (Text × ℕ)) → AreAmong (keys (take n xs)) (keys xs)
unfolding mem
AreAmong-take zero xs = tt
AreAmong-take (suc n) [] = tt
AreAmong-take (suc n) (x ∷ xs) = (
  ap (λ b. b || mem x.0 (keys xs)) (text_eq_refl x.0),
  AreAmong-tail x.0 (keys (take n xs)) (keys xs) (AreAmong-take n xs),
)

pub AreAmong-sort_items :
    (ks : List Text) (xs : List (Text × ℕ))
    → AreAmong ks (keys (sort_items xs))
    → AreAmong ks (keys xs)
AreAmong-sort_items [] xs h = tt
AreAmong-sort_items (k ∷ ks) xs h = (sym (mem-sort_items k xs) ∙ h.0, AreAmong-sort_items ks xs h.1)
