-- ===== src/Docs/Paths.antt =====
-- Package filepath on Unix, as far as tool/docs.go uses it, and (*docRoot).resolve.
use agent_go.Prelude.{
  ℕ, Bool, true, false, ◌&&◌, ◌||◌, not, List, [], ◌∷◌, ◌++◌, ◌⊎◌, inl, inr, if◌then◌else◌, ◌==◌,
}
use agent_go.Text.{Text, codes, text_eq, has_prefix, trim_space, is_empty, join, is_nil}
use agent_go.Errors.{Error, new_error}

abbrev pub prepend : ℕ → List Text → List Text
prepend c [] = (c ∷ []) ∷ []
prepend c (w ∷ ws) = (c ∷ w) ∷ ws

-- The parts of a path between its slashes.
unfoldable pub segments : Text → List Text
segments [] = [] ∷ []
segments (c ∷ s) = let rest = segments s in if c == 47 then [] ∷ rest else prepend c rest

abbrev pub reverse : List Text → List Text
reverse [] = []
reverse (w ∷ ws) = reverse ws ++ (w ∷ [])

-- ".." takes the last part away; at the start it stays, or goes if the path is rooted.
abbrev pub climb : Bool → List Text → List Text
climb rooted [] = if rooted then [] else codes ".." ∷ []
climb rooted (w ∷ out) = if text_eq w (codes "..") then codes ".." ∷ (w ∷ out) else out

-- One part after the parts that stand, the last of them first.
abbrev pub step_path : Bool → Text → List Text → List Text
step_path rooted w out =
    if is_empty w || text_eq w (codes ".")
    then out
    else if text_eq w (codes "..")
    then climb rooted out
    else w ∷ out

unfoldable pub walk_path : Bool → List Text → List Text → List Text
walk_path rooted out [] = out
walk_path rooted out (w ∷ ws) = walk_path rooted (step_path rooted w out) ws

abbrev pub slash : Text
slash = codes "/"

-- filepath.IsAbs
abbrev pub is_abs : Text → Bool
is_abs p = has_prefix p slash

abbrev pub rooted_path : List Text → Text
rooted_path ws = slash ++ join slash ws

-- filepath.Clean
unfoldable pub clean : Text → Text
unfolding segments walk_path has_prefix join is_nil
clean p =
    let ws = reverse (walk_path (is_abs p) [] (segments p)) in
    if is_abs p then rooted_path ws else if is_nil ws then codes "." else join slash ws

-- filepath.Join of two paths that are not empty
abbrev pub join_path : Text → Text → Text
join_path a b = clean (a ++ (slash ++ b))

abbrev pub escapes : Error
escapes = new_error (codes "path escapes docs root")

-- The last test of resolve.
unfoldable pub within : Text → Text → Text ⊎ Error
unfolding text_eq has_prefix
within root full =
    if not (text_eq full root) && not (has_prefix full (root ++ slash))
    then inr escapes
    else inl full

-- `filepath.Clean(filepath.Join(d.root, clean))`
abbrev pub full_path : Text → Text → Text
full_path root cleaned = clean (join_path root cleaned)

unfoldable pub resolve_clean : Text → Text → Text ⊎ Error
unfolding text_eq has_prefix clean within
resolve_clean root cleaned =
    if text_eq cleaned (codes "..") || has_prefix cleaned (codes "../")
    then inr escapes
    else within root (full_path root cleaned)

abbrev pub resolve_relative : Text → Bool → Text → Text ⊎ Error
resolve_relative root true cleaned = inr (new_error (codes "absolute paths not allowed"))
resolve_relative root false cleaned = resolve_clean root cleaned

unfoldable pub resolve_trimmed : Text → Text → Text ⊎ Error
unfolding text_eq has_prefix clean resolve_clean is_empty
resolve_trimmed root rel =
    if is_empty rel || text_eq rel (codes ".")
    then inl root
    else resolve_relative root (is_abs rel) (clean rel)

-- (*docRoot).resolve
unfoldable pub resolve : Text → Text → Text ⊎ Error
unfolding resolve_trimmed trim_space
resolve root given = resolve_trimmed root (trim_space given)
