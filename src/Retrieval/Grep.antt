-- ===== src/Retrieval/Grep.antt =====
-- retrieve/grep.go: the walk over the files, and the hits in order.
use agent_go.Prelude.{
  ℕ, zero, suc, ◌*◌, Bool, ◌||◌, not, List, [], ◌∷◌, ◌++◌, Option, none, some, ◌⊎◌, inl, inr,
  if◌then◌else◌, ltb, leb, length, take, any,
}
use agent_go.Prelude.Int.{ℤ, pos, negsuc}
use agent_go.Text.{
  Text, codes, trim_space, to_lower, text_eq, has_prefix, is_empty, split_lines, decimal,
  byte_length,
}
use agent_go.Errors.{Error, new_error}
use agent_go.Llm.Client.{first_bytes}
use agent_go.Docs.Reading.{is_text_doc}
use agent_go.Retrieval.{Chunk}
use agent_go.Retrieval.Needles.{Scripts, Needle, grep_needles, line_score}

-- A tree of files in the order of filepath.WalkDir; a file that cannot be read as text has none.
mutual
  pub data Node : Type 0 where
    file : Text → Option Text → Node
    dir : Text → Nodes → Node

  pub data Nodes : Type 0 where
    nil : Nodes
    more : Node → Nodes → Nodes

pub record GrepLimits : Type 0 where
  pub max_hits : ℤ
  pub max_files : ℤ
  pub max_bytes : ℤ

abbrev pub positive_or : ℕ → ℤ → ℕ
positive_or d (negsuc n) = d
positive_or d (pos zero) = d
positive_or d (pos (suc n)) = suc n

-- GrepLimits.withDefaults
abbrev pub file_limit : GrepLimits → ℕ
file_limit l = positive_or 200 l.max_files

abbrev pub byte_limit : GrepLimits → ℕ
byte_limit l = positive_or (48 * 1024) l.max_bytes

-- `k := q.K; if k <= 0 { k = limits.MaxHits }`
abbrev pub hit_limit : GrepLimits → ℤ → ℕ
hit_limit l k = positive_or (positive_or 20 l.max_hits) k

-- skipDocName
unfoldable pub skip_doc_name : Scripts → Text → Bool
unfolding to_lower text_eq
skip_doc_name u name = any (text_eq (to_lower u.tables name)) (
    codes "eval.json"
    ∷ codes "eval.yaml"
    ∷ codes "eval.yml"
    ∷ codes "readme.md"
    ∷ codes "readme"
    ∷ [])

abbrev pub snippet : Text → Text
snippet line =
    let s = trim_space line in if leb (length s) 160 then s else take 160 s ++ (0x2026 ∷ [])

-- What one walk keeps: entries seen (for the context), files scanned, and hits.
pub record Walk : Type 0 where
  pub seen : ℕ
  pub scanned : ℕ
  pub out : List Chunk

-- A walk goes on, has met fs.SkipAll, or has failed.
pub data Walked : Type 0 where
  on : Walk → Walked
  stopped : Walk → Walked
  failed : Error → Walked

-- The error of the context, when so many entries have been seen.
module _ (u : Scripts) (limits : GrepLimits) (needles : List Needle)
    (ctx_err : ℕ → Option Error) where
  abbrev pub hit_at : Text → ℕ → Text → ℕ → Chunk
  hit_at rel n line score = record {
    id = rel ++ (codes ":" ++ decimal n);
    path = rel;
    text = snippet line;
    score = score;
    line = decimal n;
  }

  -- The hits of the lines from number `n` on.
  unfoldable pub line_hits : Text → ℕ → List Text → List Chunk
  unfolding line_score decimal trim_space
  line_hits rel n [] = []
  line_hits rel n (l ∷ ls) =
      let rest = line_hits rel (suc n) ls in
      let (score, found) = line_score u l needles in
      if found then hit_at rel n l score ∷ rest else rest

  abbrev pub file_hits : Text → Option Text → List Chunk
  file_hits rel none = []
  file_hits rel (some s) =
      let kept =
        if leb (byte_length s) (byte_limit limits) then s else first_bytes (byte_limit limits) s in
      line_hits rel 1 (split_lines kept)

  abbrev pub is_skipped : Text → Bool
  is_skipped name =
      has_prefix name (codes ".") || not (is_text_doc u.tables name) || skip_doc_name u name

  abbrev pub scan_file : Text → Option Text → Walk → Walked
  scan_file rel content w =
      let scanned = suc w.scanned in
      if ltb (file_limit limits) scanned
      then stopped (record w { scanned = scanned })
      else on (record w { scanned = scanned; out = w.out ++ file_hits rel content })

  abbrev pub under : Text → Text → Text
  under base name = if is_empty base then name else base ++ (codes "/" ++ name)

  -- An entry that is seen, and what is done with it.
  abbrev pub seeing : Walk → (Walk → Walked) → Walked
  seeing w f = elim (ctx_err w.seen) [
    | some e ↦ failed e
    | none ↦ f (record w { seen = suc w.seen })
  ]

  abbrev pub and_on : Walked → (Walk → Walked) → Walked
  and_on (on w) f = f w
  and_on (stopped w) f = stopped w
  and_on (failed e) f = failed e

  abbrev pub at_file : Text → Text → Option Text → Walk → Walked
  at_file base name content w =
      if is_skipped name then on w else scan_file (under base name) content w

  abbrev pub at_dir : Text → (Walk → Walked) → Walk → Walked
  at_dir name below w = if has_prefix name (codes ".") then on w else below w

  -- The function that WalkDir calls, on an entry under `base`, with the entries below it.
  unfoldable mutual
    unfolding line_hits skip_doc_name is_text_doc has_prefix is_empty split_lines byte_length

    pub walk_node : Text → Node → Walk → Walked
    walk_node base (file name content) w = seeing w (at_file base name content)
    walk_node base (dir name below) w = seeing w (at_dir name (walk_nodes (under base name) below))

    pub walk_nodes : Text → Nodes → Walk → Walked
    walk_nodes base nil w = on w
    walk_nodes base (more n ns) w = and_on (walk_node base n w) (walk_nodes base ns)

abbrev pub empty_walk : Walk
empty_walk = record { seen = 0; scanned = 0; out = [] }

-- sort.SliceStable by falling score: a hit goes after those of its score
unfoldable pub insert_hit : Chunk → List Chunk → List Chunk
insert_hit c [] = c ∷ []
insert_hit c (d ∷ ds) =
    let rest = insert_hit c ds in if ltb d.score c.score then c ∷ (d ∷ ds) else d ∷ rest

unfoldable pub sort_hits : List Chunk → List Chunk → List Chunk
unfolding insert_hit
sort_hits done [] = done
sort_hits done (c ∷ cs) = sort_hits (insert_hit c done) cs

abbrev pub ranked : ℕ → List Chunk → List Chunk
ranked k out = take k (sort_hits [] out)

abbrev pub walk_result : ℕ → Walked → List Chunk ⊎ Error
walk_result k (on w) = inl (ranked k w.out)
walk_result k (stopped w) = inl (ranked k w.out)
walk_result k (failed e) = inr e

-- The walk of Retrieve for a query, from the root on.
abbrev pub grep_walk : Scripts → GrepLimits → (ℕ → Option Error) → Nodes → Text → Walked
grep_walk u limits ctx_err tree query =
    let needles = grep_needles u query in
    seeing u limits needles ctx_err empty_walk (walk_nodes u limits needles ctx_err [] tree)

-- (*Grep).Retrieve over the entries below a root that is not empty
unfoldable pub grep_retrieve :
    Scripts → GrepLimits → Option Error → (ℕ → Option Error) → Nodes → Text → ℤ → List Chunk ⊎ Error
unfolding walk_nodes sort_hits grep_needles trim_space is_empty
grep_retrieve u limits now ctx_err tree text k = elim now [
  | some e ↦ inr e
  | none ↦
      let query = trim_space text in
      if is_empty query
      then inr (new_error (codes "grep: empty query"))
      else walk_result (hit_limit limits k) (grep_walk u limits ctx_err tree query)
]
