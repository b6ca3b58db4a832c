-- ===== src/Text/Trim.antt =====
-- strings.TrimSpace.
use agent_go.Prelude.{
  ℕ, suc, ◌≤◌, ◌≡◌, refl, ap, ◌∙◌, Bool, true, false, ◌&&◌, ◌||◌, List, [], ◌∷◌, arith, ◌==◌, leb,
  if◌then◌else◌, length, Bool-cases, inl, inr, filter, not, All, ◌++◌, sym,
}

-- unicode.IsSpace
unfoldable pub is_space : ℕ → Bool
is_space c =
    (leb 9 c && leb c 13)
    || c == 32
    || c == 0x85
    || c == 0xa0
    || c == 0x1680
    || (leb 0x2000 c && leb c 0x200a)
    || c == 0x2028
    || c == 0x2029
    || c == 0x202f
    || c == 0x205f
    || c == 0x3000

trim_left : List ℕ → List ℕ
trim_left [] = []
trim_left (c ∷ s) = let rest = trim_left s in if is_space c then rest else c ∷ s

-- A space goes when nothing but spaces follows.
abbrev cut : ℕ → List ℕ → List ℕ
cut c [] = if is_space c then [] else c ∷ []
cut c (d ∷ r) = c ∷ d ∷ r

trim_right : List ℕ → List ℕ
trim_right [] = []
trim_right (c ∷ s) = cut c (trim_right s)

unfoldable pub trim_space : List ℕ → List ℕ
unfolding trim_left trim_right is_space
trim_space s = trim_right (trim_left s)

-- `strings.TrimSpace(s) == ""`
unfoldable pub is_blank : List ℕ → Bool
unfolding trim_space
is_blank s = elim (trim_space s) [ [] ↦ true | _ ∷ _ ↦ false ]

length-trim_left : (s : List ℕ) → length (trim_left s) ≤ length s
unfolding trim_left
length-trim_left [] = omega arith
length-trim_left (c ∷ s) = ground (arith, length-trim_left s)

length-cut : (c : ℕ) (r : List ℕ) → length (cut c r) ≤ suc (length r)
length-cut c [] = ground arith
length-cut c (d ∷ r) = omega arith

length-trim_right : (s : List ℕ) → length (trim_right s) ≤ length s
unfolding trim_right
length-trim_right [] = omega arith
length-trim_right (c ∷ s) = omega (arith, length-trim_right s, length-cut c (trim_right s))

pub length-trim_space : (s : List ℕ) → length (trim_space s) ≤ length s
unfolding trim_space trim_left trim_right
length-trim_space s = omega (arith, length-trim_left s, length-trim_right (trim_left s))

-- A text that starts with no space keeps its first character on the right trim.
abbrev StartsBare : List ℕ → Type 0
StartsBare [] = Unit
StartsBare (c ∷ s) = is_space c ≡ false

trim_left-StartsBare : (s : List ℕ) → StartsBare (trim_left s)
unfolding trim_left
trim_left-StartsBare [] = tt
trim_left-StartsBare (c ∷ s) = elim (Bool-cases (is_space c)) [
  | inl e ↦ rw e (trim_left-StartsBare s)
  | inr e ↦ rw e e
]

trim_left-StartsBare_id : (s : List ℕ) → StartsBare s → trim_left s ≡ s
unfolding trim_left
trim_left-StartsBare_id [] h = refl
trim_left-StartsBare_id (c ∷ s) h = rw h

cut-StartsBare : (c : ℕ) (r : List ℕ) → is_space c ≡ false → StartsBare (cut c r)
cut-StartsBare c [] h = rw h h
cut-StartsBare c (d ∷ r) h = h

trim_right-StartsBare : (s : List ℕ) → StartsBare s → StartsBare (trim_right s)
unfolding trim_right
trim_right-StartsBare [] h = tt
trim_right-StartsBare (c ∷ s) h = cut-StartsBare c (trim_right s) h

cut_idem : (c : ℕ) (r : List ℕ) → trim_right r ≡ r → trim_right (cut c r) ≡ cut c r
unfolding trim_right
cut_idem c [] h = ground arith
cut_idem c (d ∷ r) h = ap (cut c) h

trim_right_idem : (s : List ℕ) → trim_right (trim_right s) ≡ trim_right s
unfolding trim_right
trim_right_idem [] = refl
trim_right_idem (c ∷ s) = cut_idem c (trim_right s) (trim_right_idem s)

pub trim_space_idem : (s : List ℕ) → trim_space (trim_space s) ≡ trim_space s
unfolding trim_space trim_left trim_right
trim_space_idem s =
    ap trim_right
      (trim_left-StartsBare_id _ (trim_right-StartsBare (trim_left s) (trim_left-StartsBare s)))
    ∙ trim_right_idem (trim_left s)

-- A trimmed text is blank only when it is empty.
pub is_blank-trim_space : (s : List ℕ) → is_blank s ≡ false → trim_space s ≡ [] → ⊥
unfolding is_blank
is_blank-trim_space s h e = let t : List ℕ = trim_space s in ground arith

pub trim_space_newline : (s : List ℕ) → trim_space (10 ∷ s) ≡ trim_space s
unfolding trim_space
trim_space_newline s = refl

-- The characters that are not space.
unfoldable pub bare : List ℕ → List ℕ
unfolding is_space
bare s = filter (λ c. not (is_space c)) s

pub bare-cons : (c : ℕ) (s t : List ℕ) → bare s ≡ bare t → bare (c ∷ s) ≡ bare (c ∷ t)
unfolding bare
bare-cons c s t h = elim (Bool-cases (is_space c)) [
  | inl e ↦ rw e h
  | inr e ↦ rw e (ap (λ (l : List ℕ). c ∷ l) h)
]

pub bare-space : (c : ℕ) (s : List ℕ) → is_space c ≡ true → bare (c ∷ s) ≡ bare s
unfolding bare
bare-space c s e = rw e refl

bare-trim_left : (s : List ℕ) → bare (trim_left s) ≡ bare s
unfolding bare trim_left
bare-trim_left [] = refl
bare-trim_left (c ∷ s) = elim (Bool-cases (is_space c)) [
  | inl e ↦ rw e (bare-trim_left s)
  | inr e ↦ rw e (rw e refl)
]

bare-cut : (c : ℕ) (r : List ℕ) → bare (cut c r) ≡ bare (c ∷ r)
unfolding bare
bare-cut c [] = elim (Bool-cases (is_space c)) [ inl e ↦ rw e refl | inr e ↦ rw e (rw e refl) ]
bare-cut c (d ∷ r) = refl

bare-trim_right : (s : List ℕ) → bare (trim_right s) ≡ bare s
unfolding trim_right bare
bare-trim_right [] = refl
bare-trim_right (c ∷ s) =
    bare-cut c (trim_right s) ∙ bare-cons c (trim_right s) s (bare-trim_right s)

pub bare-trim_space : (s : List ℕ) → bare (trim_space s) ≡ bare s
unfolding trim_space
bare-trim_space s = bare-trim_right (trim_left s) ∙ bare-trim_left s

-- A text with no space in it.
abbrev pub IsSolid : List ℕ → Type 0
IsSolid s = All (λ (c : ℕ). is_space c ≡ false) s

trim_right-solid : (s : List ℕ) → IsSolid s → trim_right (s ++ (13 ∷ 10 ∷ [])) ≡ s
unfolding trim_right is_space
trim_right-solid [] h = refl
trim_right-solid (c ∷ []) h = ap (cut c) (trim_right-solid [] tt) ∙ rw h.0 refl
trim_right-solid (c ∷ d ∷ s) h = ap (cut c) (trim_right-solid (d ∷ s) h.1)

trim_right-append :
    (a b : List ℕ) (c : ℕ) (r : List ℕ)
    → trim_right b ≡ c ∷ r
    → trim_right (a ++ b) ≡ a ++ trim_right b
unfolding trim_right
trim_right-append [] b c r h = refl
trim_right-append (x ∷ []) b c r h = ap (cut x) h ∙ ap (λ (l : List ℕ). x ∷ l) (sym h)
trim_right-append (x ∷ y ∷ a) b c r h = ap (cut x) (trim_right-append (y ∷ a) b c r h)

-- The end of a line goes, after a text that starts and ends with no space.
pub trim_space-line :
    (x : ℕ) (a : List ℕ) (c : ℕ) (r : List ℕ)
    → is_space x ≡ false
    → IsSolid (c ∷ r)
    → trim_space ((x ∷ a) ++ ((c ∷ r) ++ (13 ∷ 10 ∷ []))) ≡ (x ∷ a) ++ (c ∷ r)
unfolding trim_space trim_left
trim_space-line x a c r hx h =
    ap trim_right (trim_left-StartsBare_id ((x ∷ a) ++ ((c ∷ r) ++ (13 ∷ 10 ∷ []))) hx)
    ∙ trim_right-append (x ∷ a) ((c ∷ r) ++ (13 ∷ 10 ∷ [])) c r (trim_right-solid (c ∷ r) h)
    ∙ ap (λ (l : List ℕ). (x ∷ a) ++ l) (trim_right-solid (c ∷ r) h)

trim_right-solid_id : (s : List ℕ) → IsSolid s → trim_right s ≡ s
unfolding trim_right
trim_right-solid_id [] h = refl
trim_right-solid_id (c ∷ []) h = rw h.0 refl
trim_right-solid_id (c ∷ d ∷ s) h = ap (cut c) (trim_right-solid_id (d ∷ s) h.1)

-- A space in front goes.
pub trim_space-solid : (c : ℕ) (r : List ℕ) → IsSolid (c ∷ r) → trim_space (32 ∷ (c ∷ r)) ≡ c ∷ r
unfolding trim_space trim_left is_space
trim_space-solid c r h =
    ap trim_right (trim_left-StartsBare_id (c ∷ r) h.0) ∙ trim_right-solid_id (c ∷ r) h

pub trim_space-solid_id : (s : List ℕ) → IsSolid s → trim_space s ≡ s
unfolding trim_space trim_left
trim_space-solid_id [] h = refl
trim_space-solid_id (c ∷ s) h =
    ap trim_right (trim_left-StartsBare_id (c ∷ s) h.0) ∙ trim_right-solid_id (c ∷ s) h

-- A text that starts and ends with no space.
pub trim_space-ends_id :
    (x : ℕ) (a : List ℕ) (c : ℕ)
    → is_space x ≡ false
    → is_space c ≡ false
    → trim_space ((x ∷ a) ++ (c ∷ [])) ≡ (x ∷ a) ++ (c ∷ [])
unfolding trim_space trim_left
trim_space-ends_id x a c hx hc =
    let last : trim_right (c ∷ []) ≡ c ∷ [] = trim_right-solid_id (c ∷ []) (hc, tt) in
    ap trim_right (trim_left-StartsBare_id ((x ∷ a) ++ (c ∷ [])) hx)
    ∙ trim_right-append (x ∷ a) (c ∷ []) c [] last
    ∙ ap (λ (l : List ℕ). (x ∷ a) ++ l) last
