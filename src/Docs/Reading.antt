-- ===== src/Docs/Reading.antt =====
-- The tools list_docs, read_doc and search_docs of tool/docs.go, over a file system.
use agent_go.Prelude.{
  ℕ, ◌*◌, Bool, true, false, ◌&&◌, not, List, [], ◌∷◌, ◌++◌, ◌⊎◌, inl, inr, Option, none, some,
  if◌then◌else◌, ◌==◌, leb, any, take, length, concat, map, filter,
}
use agent_go.Text.{
  Text, CaseTables, codes, text_eq, has_prefix, trim_prefix, trim_space, is_empty, is_nil, to_lower,
  decimal,
}
use agent_go.Errors.{Error, new_error}
use agent_go.Docs.Paths.{resolve, slash, join_path}

pub record Stat : Type 0 where
  pub is_dir : Bool
  pub size : ℕ

-- fs.DirEntry; the size is none where Info gives nothing.
pub record Entry : Type 0 where
  pub name : Text
  pub is_dir : Bool
  pub size : Option ℕ

-- Package os on some state of the files. A symbolic link is followed by it.
pub record Disk : Type 0 where
  pub stat : Text → Stat ⊎ Error
  pub read_dir : Text → List Entry ⊎ Error
  pub read_file : Text → List ℕ ⊎ Error

-- retrieve.Chunk, as far as search_docs prints it; `line` is Meta["line"].
pub record Hit : Type 0 where
  pub id : Text
  pub path : Text
  pub text : Text
  pub line : Text

abbrev pub max_doc_read_bytes : ℕ
max_doc_read_bytes = 48 * 1024

abbrev pub max_search_hits : ℕ
max_search_hits = 20

abbrev has_slash : Text → Bool
has_slash s = any (λ c. c == 47) s

abbrev dot_here : ℕ → Text → Option Text
dot_here c s = if c == 46 && not (has_slash s) then some (c ∷ s) else none

-- filepath.Ext: from the last dot of the last part
unfoldable pub ext_of : Text → Option Text
ext_of [] = none
ext_of (c ∷ s) = elim (ext_of s) [ some e ↦ some e | none ↦ dot_here c s ]

abbrev text_exts : List Text
text_exts =
    codes ".md"
    ∷ codes ".txt"
    ∷ codes ".markdown"
    ∷ codes ".rst"
    ∷ codes ".csv"
    ∷ codes ".json"
    ∷ codes ".yaml"
    ∷ codes ".yml"
    ∷ codes ".toml"
    ∷ codes ".go"
    ∷ codes ".env.example"
    ∷ []

-- isTextDoc
unfoldable pub is_text_doc : CaseTables → Text → Bool
unfolding ext_of to_lower text_eq
is_text_doc u name = elim (ext_of name) [
  | none ↦ true
  | some e ↦ any (text_eq (to_lower u e)) text_exts
]

-- filepath.Rel of a path that is the root or starts with the root and a slash
unfoldable pub rel_path : Text → Text → Text
unfolding text_eq trim_prefix
rel_path root full = if text_eq full root then codes "." else trim_prefix full (root ++ slash)

abbrev pub and_then {ℓ} : {A : Type ℓ} → A ⊎ Error → (A → Text ⊎ Error) → Text ⊎ Error
and_then (inl a) f = f a
and_then (inr e) f = inr e

-- `fmt.Fprintf(&b, …)` with a newline
abbrev line_of : Text → Text
line_of s = s ++ (10 ∷ [])

-- What the tools have around them: the docs root if it is configured, the error of the context,
-- ParseArgs for the one argument, and `utf8.Valid` with the text of valid bytes.
pub record Kb : Type 0 where
  pub root : Option Text
  pub ctx_err : Option Error
  pub parse : Text → Text ⊎ Error
  pub text_of : List ℕ → Option Text
  pub tables : CaseTables

-- What follows the tests that Run starts with.
abbrev pub with_args : Kb → Text → (Text → Text → Text ⊎ Error) → Text ⊎ Error
with_args kb args f = elim kb.ctx_err [
  | some e ↦ inr e
  | none ↦ elim kb.root [
    | none ↦ inr (new_error (codes "docs root not configured"))
    | some root ↦ and_then (kb.parse args) (f root)
  ]
]

abbrev pub read_text : Kb → Text → Text → ℕ → List ℕ → Text ⊎ Error
read_text kb root full size bytes =
    let cut = not (leb (length bytes) max_doc_read_bytes) in
    let kept = if cut then take max_doc_read_bytes bytes else bytes in
    elim (kb.text_of kept) [
      | none ↦ inr (new_error (codes "file is not valid UTF-8 text"))
      | some s ↦ inl (
          line_of (codes "path: " ++ rel_path root full)
          ++ (line_of (codes "bytes: " ++ decimal size)
              ++ ((if cut
                    then line_of (
                        codes "note: truncated to "
                        ++ (decimal max_doc_read_bytes ++ codes " bytes"))
                    else [])
                  ++ (line_of (codes "---") ++ s))))
    ]

-- What follows os.Stat, for the bytes that os.ReadFile gives.
abbrev pub read_stat : Kb → Text → Text → List ℕ ⊎ Error → Stat → Text ⊎ Error
read_stat kb root full bytes st =
    if st.is_dir
    then inr (new_error (codes "path is a directory; use list_docs"))
    else if not (is_text_doc kb.tables full)
    then inr (new_error (codes "unsupported file type"))
    else and_then bytes (read_text kb root full st.size)

unfoldable pub read_at : Kb → Disk → Text → Text → Text ⊎ Error
unfolding is_text_doc decimal rel_path
read_at kb disk root full = and_then (disk.stat full) (read_stat kb root full (disk.read_file full))

-- (ReadDoc).Run
unfoldable pub read_doc : Kb → Disk → Text → Text ⊎ Error
unfolding read_at resolve
read_doc kb disk args =
    with_args kb args (λ root path. and_then (resolve root path) (read_at kb disk root))

abbrev size_of : Option ℕ → ℕ
size_of none = 0
size_of (some n) = n

abbrev entry_line : Text → Entry → Text
entry_line base e =
    let rel = if is_empty base then e.name else join_path base e.name in
    if e.is_dir
    then codes "dir  " ++ (rel ++ codes "/")
    else codes "file " ++ (rel ++ (codes " (" ++ (decimal (size_of e.size) ++ codes " bytes)")))

abbrev is_listed : Kb → Entry → Bool
is_listed kb e =
    if has_prefix e.name (codes ".")
    then false
    else if e.is_dir
    then true
    else is_text_doc kb.tables e.name

abbrev pub listing : Kb → Text → Text → List Entry → Text ⊎ Error
listing kb root dir entries =
    let rel = rel_path root dir in
    let base = if text_eq rel (codes ".") then [] else rel in
    let shown = filter (is_listed kb) entries in
    inl (
      trim_space (
        line_of (codes "docs_root=" ++ root)
        ++ (concat (map (λ e. line_of (entry_line base e)) shown)
            ++ (if is_nil shown then line_of (codes "(no listable text files)") else []))))

unfoldable pub list_at : Kb → Disk → Text → Text → Text ⊎ Error
unfolding is_text_doc decimal rel_path trim_space has_prefix is_nil text_eq
list_at kb disk root dir = and_then (disk.read_dir dir) (listing kb root dir)

-- (ListDocs).Run
unfoldable pub list_docs : Kb → Disk → Text → Text ⊎ Error
unfolding list_at resolve
list_docs kb disk args =
    with_args kb args (λ root path. and_then (resolve root path) (list_at kb disk root))

abbrev hit_line : Hit → Text
hit_line h =
    let path = if is_empty h.path then h.id else h.path in
    if is_empty h.line
    then path ++ (codes ": " ++ h.text)
    else path ++ (codes ":" ++ (h.line ++ (codes ": " ++ h.text)))

abbrev hits_text : Text → List Hit → Text
hits_text q hits = trim_space (
    line_of (codes "query: " ++ q)
    ++ (if is_nil hits
        then line_of (codes "(no hits)")
        else concat (map (λ h. line_of (hit_line h)) hits)
          ++ line_of (
              codes "hits: "
              ++ (decimal (length hits)
                  ++ (codes " (capped at " ++ (decimal max_search_hits ++ codes ")"))))))

-- (SearchDocs).Run, for a retriever that is not nil
unfoldable pub search_docs : Kb → (Text → ℕ → List Hit ⊎ Error) → Text → Text ⊎ Error
unfolding trim_space is_nil decimal is_empty
search_docs kb retrieve args = with_args kb args (λ root query.
    let q = trim_space query in
    if is_empty q
    then inr (new_error (codes "query is empty"))
    else and_then (retrieve q max_search_hits) (λ hits. inl (hits_text q hits)))
