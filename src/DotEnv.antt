-- ===== src/DotEnv.antt =====
-- cmd/agent/dotenv.go: the environment is a map, and os.Setenv refuses as a function says.
pub mod Kept
pub mod Quoted
pub mod Written
use agent_go.Prelude.{
  ℕ, suc, Bool, true, false, ◌&&◌, ◌||◌, List, [], ◌∷◌, ◌++◌, Option, none, some, if◌then◌else◌,
  not, ◌==◌, any,
}
use agent_go.Text.{Text, codes, trim_space, is_nil, has_prefix, trim_prefix, decimal}
use agent_go.Text.Table.{Table, lookup, insert}
use agent_go.Errors.{Error, new_error, wrap}

-- `os.Getenv(key)`
unfoldable pub getenv : Text → Table Text → Text
unfolding lookup
getenv key env = elim (lookup key env) [ none ↦ [] | some v ↦ v ]

abbrev pub front : ℕ → Option (Text × Text) → Option (Text × Text)
front c none = none
front c (some (l, r)) = some (c ∷ l, r)

-- The text before and after the first such character.
unfoldable pub cut_at : ℕ → Text → Option (Text × Text)
cut_at op [] = none
cut_at op (c ∷ s) = let rest = cut_at op s in if c == op then some ([], s) else front c rest

abbrev pub starts_with : ℕ → Text → Bool
starts_with c [] = false
starts_with c (d ∷ s) = d == c

-- `v[:j]` for the first " #", or all of `v`
unfoldable pub before_comment : Text → Text
before_comment [] = []
before_comment (c ∷ s) =
    let rest = before_comment s in if c == 32 && starts_with 35 s then [] else c ∷ rest

unfoldable pub has_comment : Text → Bool
has_comment [] = false
has_comment (c ∷ s) = (c == 32 && starts_with 35 s) || has_comment s

-- The text of these characters but the last, and the last.
unfoldable pub last_of : ℕ → Text → Text × ℕ
last_of c [] = ([], c)
last_of c (d ∷ s) = let (middle, l) = last_of d s in (c ∷ middle, l)

abbrev pub without_comment : Text → Text
without_comment v = if has_comment v then trim_space (before_comment v) else v

-- unquoteDotEnvValue; a single character, of any number of bytes, stays.
unfoldable pub unquote_value : Text → Text
unfolding before_comment has_comment last_of trim_space
unquote_value [] = []
unquote_value (c ∷ []) = c ∷ []
unquote_value (c ∷ d ∷ s) =
    let (middle, l) = last_of d s in
    if (c == 34 && l == 34) || (c == 39 && l == 39) then middle else without_comment (c ∷ d ∷ s)

-- `strings.ContainsAny(key, " \t")`
unfoldable pub has_blank : Text → Bool
has_blank [] = false
has_blank (c ∷ s) = (c == 32 || c == 9) || has_blank s

abbrev pub keyed : Text → Text → Option (Text × Text)
keyed key value =
    if is_nil key || has_blank key then none else some (key, unquote_value (trim_space value))

abbrev pub after_cut : Option (Text × Text) → Option (Text × Text)
after_cut none = none
after_cut (some (left, right)) = if is_nil left then none else keyed (trim_space left) right

-- parseDotEnvLine
unfoldable pub parse_line : Text → Option (Text × Text)
unfolding cut_at unquote_value has_blank trim_space is_nil
parse_line line = after_cut (cut_at 61 line)

-- What a line comes to.
pub data Effect : Type 0 where
  skip : Effect
  stop : Error → Effect
  set : Text → Text → Effect

-- What os.Open and the scanner give: the lines, and an error at their end.
pub data Opened : Type 0 where
  missing : Opened
  failed : Error → Opened
  opened : List Text → Option Error → Opened

module _ (path : Text) (quote : Text → Text) (refuses : Text → Text → Option Error) where
  abbrev pub located : ℕ → Text → Text
  located at text = path ++ (codes ":" ++ (decimal at ++ (codes ": " ++ text)))

  abbrev pub set_or_stop : ℕ → Text → Text → Option Error → Effect
  set_or_stop at key value none = set key value
  set_or_stop at key value (some e) =
      stop (wrap (located at (codes "setenv " ++ (key ++ codes ": "))) e)

  abbrev pub pair_effect : ℕ → Table Text → Text → Option (Text × Text) → Effect
  pair_effect at env raw none = stop (new_error (located at (codes "invalid line " ++ quote raw)))
  pair_effect at env raw (some (key, value)) =
      if not (is_nil (getenv key env)) then skip else set_or_stop at key value (refuses key value)

  abbrev pub without_export : Text → Text
  without_export raw =
      if has_prefix raw (codes "export ")
      then trim_space (trim_prefix raw (codes "export "))
      else raw

  abbrev pub raw_effect : ℕ → Table Text → Text → Effect
  raw_effect at env raw = pair_effect at env raw (parse_line raw)

  -- The body of the loop.
  unfoldable pub line_effect : ℕ → Table Text → Text → Effect
  unfolding getenv parse_line has_prefix trim_prefix trim_space is_nil decimal
  line_effect at env line =
      let raw = trim_space line in
      if is_nil raw || has_prefix raw (codes "#")
      then skip
      else raw_effect at env (without_export raw)

  unfoldable pub load_lines :
      ℕ → ℕ → Option Error → List Text → Table Text → (ℕ × Option Error) × Table Text
  unfolding line_effect insert
  load_lines at n end [] env = ((n, end), env)
  load_lines at n end (l ∷ ls) env = elim (line_effect (suc at) env l) [
    | skip ↦ load_lines (suc at) n end ls env
    | stop e ↦ ((n, some e), env)
    | set key value ↦ load_lines (suc at) (suc n) end ls (insert key value env)
  ]

  -- loadDotEnv
  unfoldable pub load_dot_env : Opened → Table Text → (ℕ × Option Error) × Table Text
  unfolding load_lines
  load_dot_env missing env = ((0, none), env)
  load_dot_env (failed e) env = ((0, some e), env)
  load_dot_env (opened lines end) env = load_lines 0 0 end lines env
