-- ===== src/Docs/Inside.antt =====
-- tool/docs.go: the paths that resolve lets through.
use agent_go.Prelude.{
  ℕ, ◌≡◌, refl, ◌∙◌, ap, Bool, true, false, ◌&&◌, ◌||◌, not, List, [], ◌∷◌, ◌++◌, inl, inr, ◌==◌,
  arith, Bool-cases, All, All-append,
}
use agent_go.Text.{Text, codes, text_eq, is_empty, join}
use agent_go.Docs.Paths.{
  prepend, segments, reverse, climb, step_path, walk_path, slash, is_abs, rooted_path, clean,
}

-- No slash in it.
abbrev pub IsBare : Text → Type 0
IsBare w = segments w ≡ w ∷ []

abbrev pub is_plain : Text → Bool
is_plain w = not (is_empty w) && not (text_eq w (codes ".")) && not (text_eq w (codes ".."))

-- A name that goes neither up nor down more than one step.
abbrev pub IsPlain : Text → Type 0
IsPlain w = IsBare w × (is_plain w ≡ true)

-- The path is the root of these parts, or lies under it by plain names.
abbrev pub IsUnder : List Text → Text → Type 0
IsUnder rs full = (ss : List Text) × All IsPlain ss × (full ≡ rooted_path (rs ++ ss))

segments_cons : (s : Text) → (w : Text) × (ws : List Text) × (segments s ≡ w ∷ ws)
unfolding segments
segments_cons [] = ([], [], refl)
segments_cons (c ∷ s) = elim (Bool-cases (c == 47)) [
  | inl e ↦ ([], segments s, rw e refl)
  | inr e ↦ let (w, ws, h) = segments_cons s in (c ∷ w, ws, rw e (rw h refl))
]

pub segments-append : (a b : Text) → segments (a ++ (47 ∷ b)) ≡ segments a ++ segments b
unfolding segments
segments-append [] b = refl
segments-append (c ∷ a) b = elim (Bool-cases (c == 47)) [
  | inl e ↦ rw e (ap (λ (l : List Text). [] ∷ l) (segments-append a b))
  | inr e ↦
      let (w, ws, h) = segments_cons a in rw e (ap (prepend c) (segments-append a b) ∙ rw h refl)
]

prepend-IsBare :
    (c : ℕ) (ws : List Text) → (c == 47) ≡ false → All IsBare ws → All IsBare (prepend c ws)
unfolding segments
prepend-IsBare c [] h g = (rw h refl, tt)
prepend-IsBare c (w ∷ ws) h g = (rw h (ap (prepend c) g.0), g.1)

pub segments-IsBare : (s : Text) → All IsBare (segments s)
unfolding segments
segments-IsBare [] = (refl, tt)
segments-IsBare (c ∷ s) = elim (Bool-cases (c == 47)) [
  | inl e ↦ rw e (refl, segments-IsBare s)
  | inr e ↦ rw e (prepend-IsBare c (segments s) e (segments-IsBare s))
]

pub segments-join :
    (w : Text) (ws : List Text) → All IsPlain (w ∷ ws) → segments (join slash (w ∷ ws)) ≡ w ∷ ws
unfolding join
segments-join w [] h = h.0.0
segments-join w (v ∷ ws) h =
    segments-append w (join slash (v ∷ ws))
    ∙ ap (λ (l : List Text). l ++ segments (join slash (v ∷ ws))) h.0.0
    ∙ ap (λ (l : List Text). w ∷ l) (segments-join v ws h.1)

climb-IsPlain : (out : List Text) → All IsPlain out → All IsPlain (climb true out)
climb-IsPlain [] h = tt
climb-IsPlain (w ∷ out) h = elim (Bool-cases (text_eq w (codes ".."))) [
  | inl e ↦ absurd (not_plain w e h.0.1)
  | inr e ↦ rw e h.1
]
  where
    not_plain : (w : Text) → text_eq w (codes "..") ≡ true → is_plain w ≡ true → ⊥
    not_plain w e h = ground arith

step_path-IsPlain :
    (w : Text) (out : List Text) → IsBare w → All IsPlain out → All IsPlain (step_path true w out)
step_path-IsPlain w out h g = elim (Bool-cases (is_empty w || text_eq w (codes "."))) [
  | inl e ↦ rw e g
  | inr e ↦ rw e (elim (Bool-cases (text_eq w (codes ".."))) [
    | inl d ↦ rw d (climb-IsPlain out g)
    | inr d ↦ rw d ((h, plain w e d), g)
  ])
]
  where
    plain :
        (w : Text)
        → (is_empty w || text_eq w (codes ".")) ≡ false
        → text_eq w (codes "..") ≡ false
        → is_plain w ≡ true
    plain w e d = ground arith

walk_path-IsPlain :
    (out ws : List Text) → All IsBare ws → All IsPlain out → All IsPlain (walk_path true out ws)
unfolding walk_path
walk_path-IsPlain out [] h g = g
walk_path-IsPlain out (w ∷ ws) h g =
    walk_path-IsPlain (step_path true w out) ws h.1 (step_path-IsPlain w out h.0 g)

reverse-IsPlain : (ws : List Text) → All IsPlain ws → All IsPlain (reverse ws)
reverse-IsPlain [] h = tt
reverse-IsPlain (w ∷ ws) h =
    All-append IsPlain (reverse ws) (w ∷ []) (reverse-IsPlain ws h.1) (h.0, tt)

pub clean-IsPlain :
    (p : Text) → is_abs p ≡ true → (ps : List Text) × All IsPlain ps × (clean p ≡ rooted_path ps)
unfolding clean
clean-IsPlain p h = (
  reverse (walk_path true [] (segments p)),
  reverse-IsPlain _ (walk_path-IsPlain [] (segments p) (segments-IsBare p) tt),
  rw h refl,
)
