-- ===== src/DotEnv/Quoted.antt =====
-- cmd/agent/dotenv.go: lines that export a quoted value.
use agent_go.Prelude.{
  ℕ, ◌≡◌, refl, sym, ◌∙◌, ap, true, false, ◌||◌, [], ◌∷◌, ◌++◌, some, All, arith, append_assoc,
  ◌==◌,
}
use agent_go.Text.{
  Text, codes, trim_space, is_space, is_nil, IsSolid, trim_space-solid_id, trim_space-ends_id,
}
use agent_go.DotEnv.{front, cut_at, last_of, unquote_value, has_blank, parse_line, after_cut, keyed}

-- `key="value"`
abbrev pub quoted_line : Text → Text → Text
quoted_line key value = (key ++ (61 ∷ 34 ∷ value)) ++ (34 ∷ [])

-- `export key="value"`
abbrev pub export_line : Text × Text → Text
export_line (key, value) = codes "export " ++ quoted_line key value

-- A name without space or "=".
abbrev pub IsName : Text → Type 0
IsName [] = ⊥
IsName (c ∷ s) = IsSolid (c ∷ s) × All (λ (d : ℕ). (d == 61) ≡ false) (c ∷ s)

cut_at-found :
    (op : ℕ) (l r : Text)
    → All (λ (d : ℕ). (d == op) ≡ false) l
    → cut_at op (l ++ (op ∷ r)) ≡ some (l, r)
unfolding cut_at
cut_at-found op [] r h = let here : (op == op) ≡ true = ground arith in rw here refl
cut_at-found op (c ∷ l) r h = rw h.0 (ap (front c) (cut_at-found op l r h.1))

last_of-append : (d : ℕ) (s : Text) (c : ℕ) → last_of d (s ++ (c ∷ [])) ≡ (d ∷ s, c)
unfolding last_of
last_of-append d [] c = refl
last_of-append d (x ∷ s) c = rw (last_of-append x s c) refl

unquote_value-quoted : (v : Text) → unquote_value (34 ∷ (v ++ (34 ∷ []))) ≡ v
unfolding unquote_value last_of
unquote_value-quoted [] = refl
unquote_value-quoted (d ∷ s) = rw (last_of-append d s 34) refl

solid-not_blank : (c : ℕ) → is_space c ≡ false → (c == 32 || c == 9) ≡ false
unfolding is_space
solid-not_blank c h = ground arith

has_blank-solid : (s : Text) → IsSolid s → has_blank s ≡ false
unfolding has_blank
has_blank-solid [] h = refl
has_blank-solid (c ∷ s) h = rw (solid-not_blank c h.0) (has_blank-solid s h.1)

pub parse_line-quoted :
    (key value : Text) → IsName key → parse_line (quoted_line key value) ≡ some (key, value)
unfolding parse_line is_nil
parse_line-quoted [] value h = elim h [ ]
parse_line-quoted (c ∷ s) value (solid, plain) =
    let right : Text = 34 ∷ (value ++ (34 ∷ [])) in
    let cut : cut_at 61 (quoted_line (c ∷ s) value) ≡ some (c ∷ s, right) =
      ap (cut_at 61) (append_assoc (c ∷ s) (61 ∷ 34 ∷ value) (34 ∷ []))
      ∙ cut_at-found 61 (c ∷ s) right plain in
    ap after_cut cut
    ∙ ap (λ (k : Text). keyed k right) (trim_space-solid_id (c ∷ s) solid)
    ∙ rw (has_blank-solid (c ∷ s) solid) (
        ap (λ (v : Text). some (c ∷ s, unquote_value v)) (trim_space-ends_id 34 value 34 refl refl)
        ∙ ap (λ (v : Text). some (c ∷ s, v)) (unquote_value-quoted value))

pub trim_space-quoted_line :
    (key value : Text) → IsName key → trim_space (quoted_line key value) ≡ quoted_line key value
unfolding is_space
trim_space-quoted_line [] value h = elim h [ ]
trim_space-quoted_line (c ∷ s) value (solid, plain) =
    trim_space-ends_id c (s ++ (61 ∷ 34 ∷ value)) 34 solid.0 refl

pub trim_space-export_line :
    (key value : Text) → trim_space (export_line (key, value)) ≡ export_line (key, value)
unfolding is_space
trim_space-export_line key value =
    let open_part : Text = key ++ (61 ∷ 34 ∷ value) in
    let split = append_assoc (codes "export ") open_part (34 ∷ []) in
    ap trim_space (sym split)
    ∙ trim_space-ends_id 101 (codes "xport " ++ open_part) 34 refl refl
    ∙ split
