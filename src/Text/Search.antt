-- ===== src/Text/Search.antt =====
-- Prefixes, substrings, splitting and joining, and the case functions over Unicode's tables.
use agent_go.Prelude.{
  ℕ, ◌≡◌, refl, ◌∙◌, Bool, true, false, ◌&&◌, ◌||◌, List, [], ◌∷◌, ◌++◌, map, arith, ◌==◌,
  if◌then◌else◌, Bool-cases, inl, inr, ==_iff, ap₂, ap, sym, not, concat, append_assoc,
  filter-append,
}
use agent_go.Text.Trim.{is_space, bare, bare-space}
use agent_go.Text.Equality.{text_eq, text_eq_iff}

-- Unicode's case tables: `lower` is unicode.ToLower of a rune; `fold` is the least rune of its
-- orbit under unicode.SimpleFold, so two runes fold together when `fold` is equal.
pub record CaseTables : Type 0 where
  pub lower : ℕ → ℕ
  pub fold : ℕ → ℕ

unfoldable pub to_lower : CaseTables → List ℕ → List ℕ
to_lower u s = map u.lower s

unfoldable pub equal_fold : CaseTables → List ℕ → List ℕ → Bool
equal_fold u s t = text_eq (map u.fold s) (map u.fold t)

unfoldable pub has_prefix : List ℕ → List ℕ → Bool
has_prefix s [] = true
has_prefix [] (d ∷ p) = false
has_prefix (c ∷ s) (d ∷ p) = c == d && has_prefix s p

abbrev strip : List ℕ → List ℕ → List ℕ
strip s [] = s
strip [] (d ∷ p) = []
strip (c ∷ s) (d ∷ p) = strip s p

unfoldable pub trim_prefix : List ℕ → List ℕ → List ℕ
unfolding has_prefix
trim_prefix s p = if has_prefix s p then strip s p else s

unfoldable pub contains : List ℕ → List ℕ → Bool
unfolding has_prefix
contains [] p = has_prefix [] p
contains (c ∷ s) p = has_prefix (c ∷ s) p || contains s p

-- strings.Split(s, "\n")
abbrev split_lines_from : List ℕ → List ℕ → List (List ℕ)
split_lines_from cur [] = cur ∷ []
split_lines_from cur (c ∷ s) =
    let same = split_lines_from (cur ++ c ∷ []) s in
    let next = cur ∷ split_lines_from [] s in if c == 10 then next else same

unfoldable pub split_lines : List ℕ → List (List ℕ)
split_lines s = split_lines_from [] s

-- strings.Fields(s)
abbrev push_word : List ℕ → List (List ℕ) → List (List ℕ)
push_word [] ws = ws
push_word (c ∷ w) ws = (c ∷ w) ∷ ws

abbrev fields_from : List ℕ → List ℕ → List (List ℕ)
fields_from cur [] = push_word cur []
fields_from cur (c ∷ s) =
    let inside = fields_from (cur ++ c ∷ []) s in
    let between = push_word cur (fields_from [] s) in if is_space c then between else inside

unfoldable pub fields : List ℕ → List (List ℕ)
unfolding is_space
fields s = fields_from [] s

-- strings.Join
unfoldable pub join : List ℕ → List (List ℕ) → List ℕ
join sep [] = []
join sep (w ∷ []) = w
join sep (w ∷ v ∷ ws) = w ++ (sep ++ join sep (v ∷ ws))

-- strings.ReplaceAll(s, "\n", " ")
unfoldable pub replace_newlines : List ℕ → List ℕ
replace_newlines s = map (λ c. if c == 10 then 32 else c) s

pub has_prefix-append : (p s : List ℕ) → has_prefix (p ++ s) p ≡ true
unfolding has_prefix
has_prefix-append [] s = refl
has_prefix-append (d ∷ p) s = ground (arith, has_prefix-append p s)

strip-append : (p s : List ℕ) → strip (p ++ s) p ≡ s
strip-append [] [] = refl
strip-append [] (c ∷ s) = refl
strip-append (d ∷ p) s = strip-append p s

-- What is cut off is the prefix and nothing else.
pub trim_prefix-append : (p s : List ℕ) → trim_prefix (p ++ s) p ≡ s
unfolding trim_prefix
trim_prefix-append p s = rw (has_prefix-append p s) (strip-append p s)

module _ (u : CaseTables) where
  pub equal_fold_refl : (s : List ℕ) → equal_fold u s s ≡ true
  unfolding equal_fold
  equal_fold_refl s = (text_eq_iff _ _).1 refl

  pub equal_fold_trans :
      (s t v : List ℕ) → equal_fold u s t ≡ true → equal_fold u t v ≡ true → equal_fold u s v ≡ true
  unfolding equal_fold
  equal_fold_trans s t v p q = (text_eq_iff _ _).1 ((text_eq_iff _ _).0 p ∙ (text_eq_iff _ _).0 q)

-- A prefix is followed by a rest.
pub has_prefix-rest : (s p : List ℕ) → has_prefix s p ≡ true → (r : List ℕ) × (s ≡ p ++ r)
unfolding has_prefix
has_prefix-rest s [] h = (s, refl)
has_prefix-rest [] (d ∷ p) h = cc
has_prefix-rest (c ∷ s) (d ∷ p) h = elim (Bool-cases (c == d)) [
  | inl e ↦
      let (r, q) = has_prefix-rest s p (rw e at h) in
      (r, ap₂ (λ (x : ℕ) (l : List ℕ). x ∷ l) ((==_iff c d).0 e) q)
  | inr e ↦ let f : false ≡ true = rw e at h in cc
]

bare-newline : (c : ℕ) (s : List ℕ) → (c == 10) ≡ true → bare (c ∷ s) ≡ bare s
unfolding is_space
bare-newline c s e =
    let same : 10 ≡ c = sym ((==_iff c 10).0 e) in bare-space c s (ap is_space (sym same))

bare-split_lines_from : (cur s : List ℕ) → bare (concat (split_lines_from cur s)) ≡ bare (cur ++ s)
unfolding bare is_space
bare-split_lines_from cur [] = refl
bare-split_lines_from cur (c ∷ s) = elim (Bool-cases (c == 10)) [
  | inl e ↦
      let rest = concat (split_lines_from [] s) in
      let space = λ (x : ℕ). not (is_space x) in
      rw e (
        filter-append space cur rest
        ∙ ap (λ l. bare cur ++ l) (bare-split_lines_from [] s ∙ sym (bare-newline c s e))
        ∙ sym (filter-append space cur (c ∷ s)))
  | inr e ↦ rw e (bare-split_lines_from (cur ++ c ∷ []) s ∙ ap bare (append_assoc cur (c ∷ []) s))
]

-- Splitting into lines loses newlines alone.
pub bare-split_lines : (s : List ℕ) → bare (concat (split_lines s)) ≡ bare s
unfolding split_lines
bare-split_lines s = bare-split_lines_from [] s
