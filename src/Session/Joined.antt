-- ===== src/Session/Joined.antt =====
-- filepath.Join of a directory and a plain name, for the files of session/store.go.
use agent_go.Prelude.{
  ℕ, ◌≡◌, refl, sym, ◌∙◌, ap, Bool, true, false, ◌&&◌, ◌||◌, not, List, [], ◌∷◌, ◌++◌, All,
  All-append, Bool-cases, inl, inr, ◌==◌, if◌then◌else◌, subst, append_assoc,
}
use agent_go.Text.{Text, codes, text_eq, text_eq_iff, is_empty, is_nil, join, has_prefix}
use agent_go.Docs.Paths.{
  segments, reverse, climb, step_path, walk_path, slash, is_abs, rooted_path, clean, join_path,
}
use agent_go.Docs.Inside.{IsBare, IsPlain, is_plain, segments-append, segments-IsBare}

-- The file of this name right in a clean directory.
unfoldable pub in_dir : Text → Text → Text
unfolding text_eq
in_dir d name =
    if text_eq d (codes ".")
    then name
    else if text_eq d slash
    then slash ++ name
    else d ++ (slash ++ name)

-- A part that Clean keeps.
abbrev IsKept : Text → Type 0
IsKept w = (is_empty w ≡ false) × (text_eq w (codes ".") ≡ false) × (text_eq w slash ≡ false)

bare-not_slash : (w : Text) → IsBare w → text_eq w slash ≡ false
unfolding segments
bare-not_slash w h = elim (Bool-cases (text_eq w slash)) [
  | inr e ↦ e
  | inl e ↦
      let same : w ≡ slash = (text_eq_iff w slash).0 e in
      let two : segments slash ≡ slash ∷ [] = subst (λ (x : Text). segments x ≡ x ∷ []) same h in cc
]

climb-IsKept : (r : Bool) (out : List Text) → All IsKept out → All IsKept (climb r out)
unfolding is_empty text_eq
climb-IsKept true [] h = tt
climb-IsKept false [] h = ((refl, refl, refl), tt)
climb-IsKept r (w ∷ out) h = elim (Bool-cases (text_eq w (codes ".."))) [
  | inl e ↦ rw e ((refl, refl, refl), h)
  | inr e ↦ rw e h.1
]

step_path-IsKept :
    (r : Bool) (w : Text) (out : List Text)
    → IsBare w
    → All IsKept out
    → All IsKept (step_path r w out)
step_path-IsKept r w out b h = elim (Bool-cases (is_empty w || text_eq w (codes "."))) [
  | inl e ↦ rw e h
  | inr e ↦ rw e (elim (Bool-cases (text_eq w (codes ".."))) [
    | inl d ↦ rw d (climb-IsKept r out h)
    | inr d ↦ rw d (
      (
        first (is_empty w) (text_eq w (codes ".")) e,
        second (is_empty w) (text_eq w (codes ".")) e,
        bare-not_slash w b,
      ),
      h,
    )
  ])
]
  where
    first : (a b : Bool) → (a || b) ≡ false → a ≡ false
    first true b e = e
    first false b e = refl

    second : (a b : Bool) → (a || b) ≡ false → b ≡ false
    second true b e = cc
    second false b e = e

walk_path-IsKept :
    (r : Bool) (out ws : List Text)
    → All IsBare ws
    → All IsKept out
    → All IsKept (walk_path r out ws)
unfolding walk_path
walk_path-IsKept r out [] b h = h
walk_path-IsKept r out (w ∷ ws) b h =
    walk_path-IsKept r (step_path r w out) ws b.1 (step_path-IsKept r w out b.0 h)

reverse-IsKept : (ws : List Text) → All IsKept ws → All IsKept (reverse ws)
reverse-IsKept [] h = tt
reverse-IsKept (w ∷ ws) h =
    All-append IsKept (reverse ws) (w ∷ []) (reverse-IsKept ws h.1) (h.0, tt)

walk_path-last :
    (r : Bool) (out ws : List Text) (w : Text)
    → is_plain w ≡ true
    → walk_path r out (ws ++ (w ∷ [])) ≡ w ∷ walk_path r out ws
unfolding walk_path
walk_path-last r out [] w h = kept (is_empty w) (text_eq w (codes ".")) (text_eq w (codes "..")) h
  where
    kept :
        (a b c : Bool)
        → (not a && not b && not c) ≡ true
        → (if a || b then out else if c then climb r out else w ∷ out) ≡ w ∷ out
    kept true b c e = cc
    kept false true c e = cc
    kept false false true e = cc
    kept false false false e = refl
walk_path-last r out (v ∷ ws) w h = walk_path-last r (step_path r v out) ws w h

-- What Clean makes of the parts that stand.
unfoldable shown : Bool → List Text → Text
unfolding join is_nil
shown r ws = if r then rooted_path ws else if is_nil ws then codes "." else join slash ws

join-last :
    (w : Text) (ws : List Text) (n : Text)
    → join slash ((w ∷ ws) ++ (n ∷ [])) ≡ join slash (w ∷ ws) ++ (slash ++ n)
unfolding join
join-last w [] n = refl
join-last w (v ∷ ws) n =
    ap (λ (t : Text). w ++ (slash ++ t)) (join-last v ws n)
    ∙ sym (append_assoc w (slash ++ join slash (v ∷ ws)) (slash ++ n))

text_eq-append_false : (t : Text) (x : ℕ) (u : Text) → text_eq (t ++ (x ∷ u)) [] ≡ false
unfolding text_eq
text_eq-append_false [] x u = refl
text_eq-append_false (c ∷ t) x u = refl

-- Kept parts are not joined to a single character but that of a part.
join-not_one :
    (d : ℕ) (w : Text) (ws : List Text)
    → is_empty w ≡ false
    → text_eq w (d ∷ []) ≡ false
    → text_eq (join slash (w ∷ ws)) (d ∷ []) ≡ false
unfolding join text_eq is_empty
join-not_one d w [] e h = h
join-not_one d [] (v ∷ ws) e h = cc
join-not_one d (c ∷ t) (v ∷ ws) e h =
    let tail = text_eq-append_false t 47 (join slash (v ∷ ws)) in
    ap (λ (b : Bool). c == d && b) tail ∙ none (c == d)
  where
    none : (b : Bool) → (b && false) ≡ false
    none true = refl
    none false = refl

join-not_empty :
    (w : Text) (ws : List Text) → is_empty w ≡ false → text_eq (join slash (w ∷ ws)) [] ≡ false
unfolding join text_eq is_empty
join-not_empty [] ws e = cc
join-not_empty (c ∷ t) [] e = refl
join-not_empty (c ∷ t) (v ∷ ws) e = refl

shown-in_dir :
    (r : Bool) (ws : List Text) (n : Text)
    → All IsKept ws
    → shown r (ws ++ (n ∷ [])) ≡ in_dir (shown r ws) n
unfolding shown in_dir join text_eq is_nil
shown-in_dir true [] n h = refl
shown-in_dir false [] n h = refl
shown-in_dir true (w ∷ ws) n h =
    let some_text = join-not_empty w ws h.0.0 in
    ap (λ (t : Text). slash ++ t) (join-last w ws n) ∙ sym (rw (in_dir, some_text) refl)
shown-in_dir false (w ∷ ws) n h =
    let not_dot = join-not_one 46 w ws h.0.0 h.0.1 in
    let not_slash = join-not_one 47 w ws h.0.0 h.0.2 in
    join-last w ws n ∙ sym (rw (in_dir, not_dot) (rw (in_dir, not_slash) refl))

clean-shown :
    (p : Text) → clean p ≡ shown (is_abs p) (reverse (walk_path (is_abs p) [] (segments p)))
unfolding clean shown
clean-shown p = refl

is_abs-append : (c : ℕ) (s t : Text) → is_abs ((c ∷ s) ++ t) ≡ is_abs (c ∷ s)
unfolding has_prefix
is_abs-append c s t = refl

-- filepath.Join of any directory and a plain name is the file of this name right in the cleaned
-- directory.
pub join_path-in_dir :
    (c : ℕ) (s n : Text) → IsPlain n → join_path (c ∷ s) n ≡ in_dir (clean (c ∷ s)) n
join_path-in_dir c s n (bare, plain) =
    let r = is_abs (c ∷ s) in
    let out = walk_path r [] (segments (c ∷ s)) in
    let parts : segments ((c ∷ s) ++ (slash ++ n)) ≡ segments (c ∷ s) ++ (n ∷ []) =
      segments-append (c ∷ s) n ∙ ap (λ (l : List Text). segments (c ∷ s) ++ l) bare in
    let kept : All IsKept (reverse out) =
      reverse-IsKept out (walk_path-IsKept r [] (segments (c ∷ s)) (segments-IsBare (c ∷ s)) tt) in
    clean-shown ((c ∷ s) ++ (slash ++ n))
    ∙ ap (λ (b : Bool). shown b (reverse (walk_path b [] (segments ((c ∷ s) ++ (slash ++ n))))))
        (is_abs-append c s (slash ++ n))
    ∙ ap (λ (l : List Text). shown r (reverse (walk_path r [] l))) parts
    ∙ ap (λ (l : List Text). shown r (reverse l)) (walk_path-last r [] (segments (c ∷ s)) n plain)
    ∙ shown-in_dir r (reverse out) n kept
    ∙ ap (λ (d : Text). in_dir d n) (sym (clean-shown (c ∷ s)))

bare-not_abs : (n : Text) → IsBare n → is_abs n ≡ false
unfolding segments has_prefix
bare-not_abs [] h = refl
bare-not_abs (c ∷ s) h = elim (Bool-cases (c == 47)) [
  | inr e ↦ rw e refl
  | inl e ↦ let two : ◌≡◌ {A = List Text} ([] ∷ segments s) ((c ∷ s) ∷ []) = rw e at h in cc
]

-- A plain name is clean.
pub clean-IsPlain_id : (n : Text) → IsPlain n → clean n ≡ n
unfolding shown join is_nil walk_path
clean-IsPlain_id n (bare, plain) =
    clean-shown n
    ∙ ap (λ (b : Bool). shown b (reverse (walk_path b [] (segments n)))) (bare-not_abs n bare)
    ∙ ap (λ (l : List Text). shown false (reverse (walk_path false [] l))) bare
    ∙ ap (λ (l : List Text). shown false (reverse l)) (walk_path-last false [] [] n plain)
