-- ===== src/Retrieval/Needles.antt =====
-- retrieve/grep.go: what a query looks for, and the score of a line.
use agent_go.Prelude.{
  ℕ, Bool, true, false, ◌&&◌, ◌||◌, List, [], ◌∷◌, ◌++◌, map, if◌then◌else◌, ltb, length,
}
use agent_go.Text.{Text, CaseTables, trim_space, to_lower, contains, is_space}
use agent_go.Text.Table.{mem}

-- Unicode's tables of letters, with unicode.IsPunct and unicode.Han.
pub record Scripts : Type 0 where
  pub tables : CaseTables
  pub is_punct : ℕ → Bool
  pub is_han : ℕ → Bool

-- A text to find, and its score in hundredths.
pub record Needle : Type 0 where
  pub text : Text
  pub score : ℕ

abbrev pub needle_texts : List Needle → List Text
needle_texts ns = map (λ n. n.text) ns

-- strings.FieldsFunc
abbrev pub end_field : Text → List Text → List Text
end_field [] ws = ws
end_field (c ∷ w) ws = (c ∷ w) ∷ ws

unfoldable pub fields_func : (ℕ → Bool) → Text → Text → List Text
fields_func sep cur [] = end_field cur []
fields_func sep cur (c ∷ s) =
    let rest = fields_func sep (if sep c then [] else cur ++ (c ∷ [])) s in
    if sep c then end_field cur rest else rest

abbrev pub better : Text → Needle → ℕ × Bool → ℕ × Bool
better line n from = if contains line n.text && ltb from.0 n.score then (n.score, true) else from

abbrev pub best_of : Text → List Needle → ℕ × Bool → ℕ × Bool
best_of line [] b = b
best_of line (n ∷ ns) b = best_of line ns (better line n b)

module _ (u : Scripts) where
  abbrev pub needle_text : Text → Text
  needle_text s = to_lower u.tables (trim_space s)

  -- `add`, where `seen` holds the texts of `out`
  unfoldable pub add_needle : Text → ℕ → List Needle → List Needle
  unfolding to_lower trim_space mem
  add_needle s score out =
      let t = needle_text s in
      if ltb (length t) 2 || mem t (needle_texts out)
      then out
      else out ++ (record { text = t; score = score } ∷ [])

  unfoldable pub add_fields : List Text → List Needle → List Needle
  unfolding add_needle
  add_fields [] out = out
  add_fields (f ∷ fs) out = add_fields fs (add_needle f 70 out)

  abbrev pub add_pair : ℕ → Text → List Needle → List Needle
  add_pair c [] out = out
  add_pair c (d ∷ s) out = if u.is_han c && u.is_han d then add_needle (c ∷ d ∷ []) 55 out else out

  -- `for i := 0; i+1 < len(rs); i++`
  unfoldable pub add_pairs : Text → List Needle → List Needle
  unfolding add_needle
  add_pairs [] out = out
  add_pairs (c ∷ s) out = add_pairs s (add_pair c s out)

  abbrev pub separates : ℕ → Bool
  separates c = is_space c || u.is_punct c

  -- grepNeedles
  unfoldable pub grep_needles : Text → List Needle
  unfolding add_fields add_pairs fields_func is_space trim_space to_lower
  grep_needles query =
      let q = trim_space query in
      let whole : Needle = record { text = to_lower u.tables q; score = 100 } in
      add_pairs q (add_fields (fields_func separates [] q) (whole ∷ []))

  -- lineScore
  unfoldable pub line_score : Text → List Needle → ℕ × Bool
  unfolding to_lower contains
  line_score line ns = best_of (to_lower u.tables line) ns (0, false)
