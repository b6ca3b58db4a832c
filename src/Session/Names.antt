-- ===== src/Session/Names.antt =====
-- The file names of session/store.go.
use agent_go.Prelude.{
  ℕ, ◌≡◌, refl, sym, ap, ◌∙◌, Bool, true, false, ◌||◌, [], ◌∷◌, ◌++◌, arith, Bool-cases, inl, inr,
  any, ◌==◌, if◌then◌else◌, length, length-append,
}
use agent_go.Text.{Text, codes, text_eq, is_empty, is_nil, trim_space, has_prefix}
use agent_go.Docs.Paths.{prepend, segments, walk_path, clean}
use agent_go.Docs.Inside.{IsBare, IsPlain, is_plain}
use agent_go.Session.{safe_id, all_safe, normalize_id, path, path_of, ok, file_of}
use agent_go.Session.Joined.{in_dir, join_path-in_dir, clean-IsPlain_id}

-- A separator in a name
abbrev pub has_separator : Text → Bool
has_separator s = any (λ r. r == 47 || r == 46) s

ok_inj : {a b : Text} → ok a ≡ ok b → a ≡ b
ok_inj h = cc

-- A name without a separator, and ".json", is a plain name.
json-IsBare : (s : Text) → has_separator s ≡ false → IsBare (s ++ codes ".json")
unfolding segments
json-IsBare [] h = refl
json-IsBare (c ∷ s) h =
    let not_slash : (c == 47) ≡ false = ground arith in
    let rest : has_separator s ≡ false = ground arith in
    rw not_slash (ap (prepend c) (json-IsBare s rest))

json-is_plain :
    (s : Text) → is_nil s ≡ false → has_separator s ≡ false → is_plain (s ++ codes ".json") ≡ true
unfolding is_empty text_eq is_nil
json-is_plain [] e h = cc
json-is_plain (c ∷ s) e h = let not_dot : (c == 46) ≡ false = ground arith in rw not_dot refl

normalize_id-not_nil : (id : Text) → is_nil (normalize_id id) ≡ false
unfolding normalize_id is_nil is_empty
normalize_id-not_nil id = go (trim_space id)
  where
    go : (t : Text) → is_nil (if is_empty t then codes "default" else t) ≡ false
    go [] = refl
    go (c ∷ t) = refl

module _ (is_word : ℕ → Bool) where
  file_of-in_dir :
      (dir id : Text)
      → IsPlain (id ++ codes ".json")
      → file_of is_word dir id ≡ in_dir (clean dir) (id ++ codes ".json")
  unfolding file_of is_nil in_dir clean segments walk_path has_prefix text_eq is_empty
  file_of-in_dir [] id h = clean-IsPlain_id (id ++ codes ".json") h
  file_of-in_dir (c ∷ s) id h = join_path-in_dir c s (id ++ codes ".json") h

  all_safe-has_separator :
      (s : Text)
      → (is_word 47 || is_word 46) ≡ false
      → all_safe is_word s ≡ true
      → has_separator s ≡ false
  unfolding all_safe
  all_safe-has_separator [] w h = refl
  all_safe-has_separator (r ∷ s) w h = let rest = all_safe-has_separator s w in ground arith

  -- `p` is a file right in the cleaned `dir`, named for the id.
  pub record IsInside (dir id p : Text) : Type 0 where
    pub whole : p ≡ in_dir (clean dir) (normalize_id id ++ codes ".json")
    pub name : has_separator (normalize_id id) ≡ false

  -- If neither "/" nor "." counts as a letter or digit, and the id of a session has a path, then,
  -- whatever the directory, the path is the file right in Clean of the directory that is named by
  -- the normalised id and ".json", and the normalised id has neither "/" nor ".".
  pub path-IsInside :
      (dir id p : Text)
      → (is_word 47 || is_word 46) ≡ false
      → path is_word dir id ≡ ok p
      → IsInside dir id p
  unfolding path safe_id path_of
  path-IsInside dir id p w h = elim (Bool-cases (all_safe is_word (normalize_id id))) [
    | inl e ↦
        let name = all_safe-has_separator (normalize_id id) w e in
        let plain : IsPlain (normalize_id id ++ codes ".json") = (
          json-IsBare (normalize_id id) name,
          json-is_plain (normalize_id id) (normalize_id-not_nil id) name,
        ) in
        record {
          whole = sym (ok_inj (rw e at h)) ∙ file_of-in_dir dir (normalize_id id) plain;
          name = name;
        }
    | inr e ↦ cc (rw e at h)
  ]

  append-cancel_left : (a b c : Text) → a ++ b ≡ a ++ c → b ≡ c
  append-cancel_left [] b c h = h
  append-cancel_left (x ∷ a) b c h = append-cancel_left a b c cc

  append-cancel_right : (a b c : Text) → a ++ c ≡ b ++ c → a ≡ b
  append-cancel_right [] [] c h = refl
  append-cancel_right [] (y ∷ b) c h = absurd (omega (arith, ap length h, length-append (y ∷ b) c))
  append-cancel_right (x ∷ a) [] c h = absurd (omega (arith, ap length h, length-append (x ∷ a) c))
  append-cancel_right (x ∷ a) (y ∷ b) c h = let rest : a ≡ b = append-cancel_right a b c cc in cc

  in_dir_inj : (d x y : Text) → in_dir d x ≡ in_dir d y → x ≡ y
  unfolding in_dir
  in_dir_inj d x y h = elim (Bool-cases (text_eq d (codes "."))) [
    | inl e ↦ rw (in_dir, e) at h
    | inr e ↦
        let g = rw (in_dir, e) at h in
        elim (Bool-cases (text_eq d (codes "/"))) [
          | inl f ↦ append-cancel_left (codes "/") x y (rw f at g)
          | inr f ↦
              append-cancel_left (codes "/") x y
                (append-cancel_left d (47 ∷ x) (47 ∷ y) (rw f at g))
        ]
  ]

  -- If neither "/" nor "." counts as a letter or digit, and two ids have the same path in a
  -- directory, then they are the same id after normalising.
  pub path-normalize_id :
      (dir a b p : Text)
      → (is_word 47 || is_word 46) ≡ false
      → path is_word dir a ≡ ok p
      → path is_word dir b ≡ ok p
      → normalize_id a ≡ normalize_id b
  path-normalize_id dir a b p w ha hb =
      let x = path-IsInside dir a p w ha in
      let y = path-IsInside dir b p w hb in
      append-cancel_right (normalize_id a) (normalize_id b) (codes ".json")
        (in_dir_inj (clean dir) _ _ (sym x.whole ∙ y.whole))

  pub path-safe :
      (dir id : Text)
      → all_safe is_word (normalize_id id) ≡ true
      → path is_word dir id ≡ ok (file_of is_word dir (normalize_id id))
  unfolding path safe_id path_of
  path-safe dir id e = rw e refl
