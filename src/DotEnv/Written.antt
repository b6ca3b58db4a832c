-- ===== src/DotEnv/Written.antt =====
-- cmd/agent/dotenv.go: a file that exports quoted values.
use agent_go.Prelude.{
  ℕ, suc, ◌≡◌, refl, sym, ◌∙◌, ap, true, false, ◌&&◌, List, [], ◌∷◌, Option, none, some, inl, inr,
  All, if◌then◌else◌, Bool-cases,
}
use agent_go.Text.{
  Text, codes, trim_space, is_nil, has_prefix, text_eq, text_eq_iff, has_prefix-append,
  trim_prefix-append,
}
use agent_go.Text.Table.{Table, insert, lookup-insert_self}
use agent_go.Errors.{Error}
use agent_go.DotEnv.{
  getenv, skip, set, opened, pair_effect, raw_effect, without_export, line_effect, load_lines,
  load_dot_env,
}
use agent_go.DotEnv.Kept.{getenv-insert_ne}
use agent_go.DotEnv.Quoted.{
  quoted_line, export_line, IsName, parse_line-quoted, trim_space-quoted_line,
  trim_space-export_line,
}

-- A file of such lines.
abbrev pub exported : List (Text × Text) → List Text
exported [] = []
exported (p ∷ ps) = export_line p ∷ exported ps

-- The value of a key: what it was, or else the first in the file that is not empty.
abbrev pub first_value : Text → List (Text × Text) → Text → Text
first_value key [] v = v
first_value key ((k, x) ∷ ps) v =
    if is_nil v && text_eq k key then first_value key ps x else first_value key ps v

getenv-insert_self : (k v : Text) (env : Table Text) → getenv k (insert k v env) ≡ v
unfolding getenv
getenv-insert_self k v env = rw (getenv, lookup-insert_self k v env) refl

module _ (path : Text) (quote : Text → Text) (refuses : Text → Text → Option Error) where
  without_export-exported :
      (key value : Text)
      → IsName key
      → without_export path quote refuses (export_line (key, value)) ≡ quoted_line key value
  without_export-exported key value h =
      let line = quoted_line key value in
      rw (has_prefix-append (codes "export ") line) (
        ap trim_space (trim_prefix-append (codes "export ") line)
        ∙ trim_space-quoted_line key value h)

  line_effect-exported :
      (at : ℕ) (env : Table Text) (key value : Text)
      → IsName key
      → line_effect path quote refuses at env (export_line (key, value))
        ≡ pair_effect path quote refuses at env (quoted_line key value) (some (key, value))
  unfolding line_effect is_nil has_prefix
  line_effect-exported at env key value h =
      rw (line_effect, trim_space-export_line key value)
        (ap (raw_effect path quote refuses at env) (without_export-exported key value h)
          ∙ ap (pair_effect path quote refuses at env (quoted_line key value))
              (parse_line-quoted key value h))

  abbrev pub IsPair : Text × Text → Type 0
  IsPair (key, value) = IsName key × (refuses key value ≡ none)

  first_value-set :
      (key k x : Text) (ps : List (Text × Text)) (env : Table Text)
      → is_nil (getenv k env) ≡ true
      → first_value key ps (getenv key (insert k x env))
        ≡ first_value key ((k, x) ∷ ps) (getenv key env)
  first_value-set key k x ps env empty = elim (Bool-cases (text_eq k key)) [
    | inl e ↦
        let same : k ≡ key = (text_eq_iff k key).0 e in
        let at_key : is_nil (getenv key env) ≡ true =
          ap (λ (t : Text). is_nil (getenv t env)) (sym same) ∙ empty in
        let value : getenv key (insert k x env) ≡ x =
          ap (λ (t : Text). getenv t (insert k x env)) (sym same) ∙ getenv-insert_self k x env in
        rw at_key (rw e (ap (first_value key ps) value))
    | inr e ↦ elim (Bool-cases (is_nil (getenv key env))) [
      | inl d ↦ rw d (rw e (ap (first_value key ps) (getenv-insert_ne k key x env e)))
      | inr d ↦ rw d (ap (first_value key ps) (getenv-insert_ne k key x env e))
    ]
  ]

  first_value-kept :
      (key k x : Text) (ps : List (Text × Text)) (env : Table Text)
      → is_nil (getenv k env) ≡ false
      → first_value key ps (getenv key env) ≡ first_value key ((k, x) ∷ ps) (getenv key env)
  first_value-kept key k x ps env full = elim (Bool-cases (text_eq k key)) [
    | inl e ↦
        let same : k ≡ key = (text_eq_iff k key).0 e in
        let at_key : is_nil (getenv key env) ≡ false =
          ap (λ (t : Text). is_nil (getenv t env)) (sym same) ∙ full in
        rw at_key refl
    | inr e ↦ elim (Bool-cases (is_nil (getenv key env))) [
      | inl d ↦ rw d (rw e refl)
      | inr d ↦ rw d refl
    ]
  ]

  -- What a call returns.
  abbrev Loaded : Type 0
  Loaded = (ℕ × Option Error) × Table Text

  load_lines-set :
      (at n : ℕ) (l : Text) (ls : List Text) (env : Table Text) (k v : Text)
      → line_effect path quote refuses (suc at) env l ≡ set k v
      → load_lines path quote refuses at n none (l ∷ ls) env
        ≡ load_lines path quote refuses (suc at) (suc n) none ls (insert k v env)
  unfolding load_lines
  load_lines-set at n l ls env k v e = rw (load_lines, e) refl

  load_lines-skip :
      (at n : ℕ) (l : Text) (ls : List Text) (env : Table Text)
      → line_effect path quote refuses (suc at) env l ≡ skip
      → load_lines path quote refuses at n none (l ∷ ls) env
        ≡ load_lines path quote refuses (suc at) n none ls env
  unfolding load_lines
  load_lines-skip at n l ls env e = rw (load_lines, e) refl

  load_lines-exported :
      (ps : List (Text × Text)) (at n : ℕ) (env : Table Text) (key : Text)
      → All IsPair ps
      → ((load_lines path quote refuses at n none (exported ps) env).0.1 ≡ none)
        × (getenv key (load_lines path quote refuses at n none (exported ps) env).1
            ≡ first_value key ps (getenv key env))
  unfolding load_lines
  load_lines-exported [] at n env key h = (refl, refl)
  load_lines-exported ((k, x) ∷ ps) at n env key ((name, taken), h) =
      let line = line_effect-exported (suc at) env k x name in
      elim (Bool-cases (is_nil (getenv k env))) [
        | inl e ↦
            let step =
              load_lines-set at n (export_line (k, x)) (exported ps) env k x
                (line ∙ rw e (rw taken refl)) in
            let (ended, found) = load_lines-exported ps (suc at) (suc n) (insert k x env) key h in
            (
              ap (λ (r : Loaded). r.0.1) step ∙ ended,
              ap (λ (r : Loaded). getenv key r.1) step ∙ found ∙ first_value-set key k x ps env e,
            )
        | inr e ↦
            let step =
              load_lines-skip at n (export_line (k, x)) (exported ps) env (line ∙ rw e refl) in
            let (ended, found) = load_lines-exported ps (suc at) n env key h in
            (
              ap (λ (r : Loaded). r.0.1) step ∙ ended,
              ap (λ (r : Loaded). getenv key r.1) step ∙ found ∙ first_value-kept key k x ps env e,
            )
      ]

  -- If the lines of a file export pairs, each a name without space or "=" that os.Setenv accepts
  -- with its value, and any value in double quotes, then loading it gives no error, and afterwards
  -- each variable has the value it had, or if that is empty, the first of its values in the file
  -- that is not empty, or else it is empty.
  pub load_dot_env-exported :
      (ps : List (Text × Text)) (env : Table Text)
      → All IsPair ps
      → ((load_dot_env path quote refuses (opened (exported ps) none) env).0.1 ≡ none)
        × ((key : Text)
            → getenv key (load_dot_env path quote refuses (opened (exported ps) none) env).1
              ≡ first_value key ps (getenv key env))
  unfolding load_dot_env
  load_dot_env-exported ps env h =
      ((load_lines-exported ps 0 0 env [] h).0, λ key. (load_lines-exported ps 0 0 env key h).1)
