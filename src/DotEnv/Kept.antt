-- ===== src/DotEnv/Kept.antt =====
-- cmd/agent/dotenv.go: what is set already stays.
use agent_go.Prelude.{
  ℕ, suc, ◌≡◌, refl, sym, ◌∙◌, ap, true, false, List, [], ◌∷◌, Option, none, some, ◌⊎◌, inl, inr,
  ◌||◌, Bool-cases,
}
use agent_go.Text.{Text, codes, trim_space, is_nil, has_prefix, text_eq, text_eq_iff}
use agent_go.Text.Table.{Table, insert, lookup-insert_ne}
use agent_go.Errors.{Error}
use agent_go.DotEnv.{
  getenv, parse_line, Effect, skip, stop, set, Opened, missing, failed, opened, set_or_stop,
  pair_effect, without_export, line_effect, load_lines, load_dot_env,
}

-- An effect that sets a key sets one that is empty or missing.
abbrev SetsEmpty : Table Text → Effect → Type 0
SetsEmpty env skip = Unit
SetsEmpty env (stop e) = Unit
SetsEmpty env (set key value) = is_nil (getenv key env) ≡ true

pub getenv-insert_ne :
    (k i : Text) (v : Text) (env : Table Text)
    → text_eq k i ≡ false
    → getenv i (insert k v env) ≡ getenv i env
unfolding getenv
getenv-insert_ne k i v env h = rw (getenv, lookup-insert_ne k i v env h) refl

insert-Keeps :
    (k key v : Text) (env : Table Text)
    → is_nil (getenv k env) ≡ true
    → is_nil (getenv key env) ≡ false
    → getenv key (insert k v env) ≡ getenv key env
insert-Keeps k key v env empty full = elim (Bool-cases (text_eq k key)) [
  | inl e ↦
      let same : k ≡ key = (text_eq_iff k key).0 e in
      let empty_key : is_nil (getenv key env) ≡ true =
        ap (λ (t : Text). is_nil (getenv t env)) (sym same) ∙ empty in
      cc
  | inr e ↦ getenv-insert_ne k key v env e
]

effect-cases :
    (e : Effect)
    → (e ≡ skip) ⊎ (((err : Error) × (e ≡ stop err)) ⊎ ((k : Text) × (v : Text) × (e ≡ set k v)))
effect-cases skip = inl refl
effect-cases (stop err) = inr (inl (err, refl))
effect-cases (set k v) = inr (inr (k, v, refl))

module _ (path : Text) (quote : Text → Text) (refuses : Text → Text → Option Error) where
  set_or_stop-SetsEmpty :
      (at : ℕ) (env : Table Text) (key value : Text) (o : Option Error)
      → is_nil (getenv key env) ≡ true
      → SetsEmpty env (set_or_stop path quote refuses at key value o)
  set_or_stop-SetsEmpty at env key value none h = h
  set_or_stop-SetsEmpty at env key value (some e) h = tt

  pair_effect-SetsEmpty :
      (at : ℕ) (env : Table Text) (raw : Text) (o : Option (Text × Text))
      → SetsEmpty env (pair_effect path quote refuses at env raw o)
  pair_effect-SetsEmpty at env raw none = tt
  pair_effect-SetsEmpty at env raw (some (key, value)) =
      elim (Bool-cases (is_nil (getenv key env))) [
        | inl e ↦ rw e (set_or_stop-SetsEmpty at env key value (refuses key value) e)
        | inr e ↦ rw e tt
      ]

  line_effect-SetsEmpty :
      (at : ℕ) (env : Table Text) (line : Text)
      → SetsEmpty env (line_effect path quote refuses at env line)
  unfolding line_effect
  line_effect-SetsEmpty at env line =
      elim (Bool-cases (is_nil (trim_space line) || has_prefix (trim_space line) (codes "#"))) [
        | inl e ↦ rw (line_effect, e) tt
        | inr e ↦
            let raw = without_export path quote refuses (trim_space line) in
            rw (line_effect, e) (pair_effect-SetsEmpty at env raw (parse_line raw))
      ]

  load_lines-Keeps :
      (at n : ℕ) (end : Option Error) (ls : List Text) (env : Table Text) (key : Text)
      → is_nil (getenv key env) ≡ false
      → getenv key (load_lines path quote refuses at n end ls env).1 ≡ getenv key env
  unfolding load_lines
  load_lines-Keeps at n end [] env key h = refl
  load_lines-Keeps at n end (l ∷ ls) env key h =
      let safe = line_effect-SetsEmpty (suc at) env l in
      elim (effect-cases (line_effect path quote refuses (suc at) env l)) [
        | inl e ↦ rw (load_lines, e) (load_lines-Keeps (suc at) n end ls env key h)
        | inr (inl (err, e)) ↦ rw (load_lines, e) refl
        | inr (inr (k, v, e)) ↦
            let empty : is_nil (getenv k env) ≡ true = rw e at safe in
            let kept = insert-Keeps k key v env empty h in
            rw (load_lines, e)
              (load_lines-Keeps (suc at) (suc n) end ls (insert k v env) key (ap is_nil kept ∙ h)
                ∙ kept)
      ]

  -- Whatever the file, and whether loading ends with an error or not, a variable that is not empty
  -- in the environment has the same value afterwards.
  pub load_dot_env-Keeps :
      (file : Opened) (env : Table Text) (key : Text)
      → is_nil (getenv key env) ≡ false
      → getenv key (load_dot_env path quote refuses file env).1 ≡ getenv key env
  unfolding load_dot_env
  load_dot_env-Keeps missing env key h = refl
  load_dot_env-Keeps (failed e) env key h = refl
  load_dot_env-Keeps (opened lines end) env key h = load_lines-Keeps 0 0 end lines env key h
