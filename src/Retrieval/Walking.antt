-- ===== src/Retrieval/Walking.antt =====
-- retrieve/grep.go: a walk that is not cut short.
use agent_go.Prelude.{
  ℕ, suc, ◌+◌, ◌≤◌, ◌≡◌, refl, sym, ◌∙◌, ap, false, List, [], ◌++◌, Option, none, Bool-cases, inl,
  inr, arith, if◌then◌else◌, ltb, append-nil, append_assoc,
}
use agent_go.Text.{Text, codes, has_prefix}
use agent_go.Errors.{Error}
use agent_go.Retrieval.{Chunk}
use agent_go.Retrieval.Needles.{Scripts, Needle, grep_needles}
use agent_go.Retrieval.Grep.{
  Node, Nodes, file, dir, nil, more, GrepLimits, file_limit, Walk, Walked, on, file_hits,
  is_skipped, under, seeing, and_on, at_file, at_dir, walk_node, walk_nodes, empty_walk, grep_walk,
  skip_doc_name, line_hits,
}
use agent_go.Docs.Reading.{is_text_doc}
use agent_go.Retrieval.Found.{found_by}

module _ (u : Scripts) (limits : GrepLimits) (needles : List Needle)
    (ctx_err : ℕ → Option Error) where
  -- The files that count, and their hits, with no limit.
  unfoldable mutual
    unfolding skip_doc_name is_text_doc

    pub node_files : Node → ℕ
    node_files (file name content) = if is_skipped u limits needles ctx_err name then 0 else 1
    node_files (dir name below) = if has_prefix name (codes ".") then 0 else nodes_files below

    pub nodes_files : Nodes → ℕ
    nodes_files nil = 0
    nodes_files (more n ns) = node_files n + nodes_files ns

  unfoldable mutual
    unfolding line_hits skip_doc_name is_text_doc

    pub node_hits : Text → Node → List Chunk
    node_hits base (file name content) =
        if is_skipped u limits needles ctx_err name
        then []
        else file_hits u limits needles ctx_err (under u limits needles ctx_err base name) content
    node_hits base (dir name below) =
        if has_prefix name (codes ".")
        then []
        else nodes_hits (under u limits needles ctx_err base name) below

    pub nodes_hits : Text → Nodes → List Chunk
    nodes_hits base nil = []
    nodes_hits base (more n ns) = node_hits base n ++ nodes_hits base ns

  -- A walk that has gone on past `files` files, with `hits`.
  abbrev Past : Walk → ℕ → List Chunk → Walked → Type 0
  Past w files hits r =
      (s : ℕ) × (r ≡ on (record { seen = s; scanned = w.scanned + files; out = w.out ++ hits }))

  on-eq :
      (s : ℕ) {m n : ℕ} {xs ys : List Chunk}
      → m ≡ n
      → xs ≡ ys
      → on (record { seen = s; scanned = m; out = xs })
        ≡ on (record { seen = s; scanned = n; out = ys })
  on-eq s p q = λ i. on (record { seen = s; scanned = p i; out = q i })

  Past-nothing : (w : Walk) → Past w 0 [] (on w)
  Past-nothing w = (w.seen, on-eq w.seen (zero_right w.scanned) (sym (append-nil w.out)))
    where
      zero_right : (n : ℕ) → n ≡ n + 0
      zero_right n = omega arith

  module _ (lasts : (n : ℕ) → ctx_err n ≡ none) where
    seeing-on :
        (w : Walk) (f : Walk → Walked)
        → seeing u limits needles ctx_err w f ≡ f (record w { seen = suc w.seen })
    seeing-on w f = rw (seeing, lasts w.seen) refl

    at_file-Past :
        (base name : Text) (content : Option Text) (w : Walk)
        → w.scanned + node_files (file name content) ≤ file_limit limits
        → Past w
            (node_files (file name content))
            (node_hits base (file name content))
            (at_file u limits needles ctx_err base name content w)
    unfolding node_files node_hits
    at_file-Past base name content w h =
        elim (Bool-cases (is_skipped u limits needles ctx_err name)) [
          | inl e ↦ rw e (Past-nothing w)
          | inr e ↦
              let room : ltb (file_limit limits) (suc w.scanned) ≡ false = ground arith in
              rw e (rw room (w.seen, on-eq w.seen (one_right w.scanned) refl))
        ]
      where
        one_right : (n : ℕ) → suc n ≡ n + 1
        one_right n = omega arith

    if_shown :
        (name : Text) (files m : ℕ) {n : ℕ}
        → has_prefix name (codes ".") ≡ false
        → m + (if has_prefix name (codes ".") then 0 else files) ≤ n
        → m + files ≤ n
    if_shown name files m e h = rw e at h

    at_dir-Past :
        (name : Text) (files : ℕ) (hits : List Chunk) (inside : Walk → Walked) (w : Walk)
        → (has_prefix name (codes ".") ≡ false → Past w files hits (inside w))
        → Past w
            (if has_prefix name (codes ".") then 0 else files)
            (if has_prefix name (codes ".") then [] else hits)
            (at_dir u limits needles ctx_err name inside w)
    at_dir-Past name files hits inside w h = elim (Bool-cases (has_prefix name (codes "."))) [
      | inl e ↦ rw e (Past-nothing w)
      | inr e ↦ let past = h e in rw e past
    ]

    regroup : (a b c : ℕ) → a + b + c ≡ a + (b + c)
    regroup a b c = omega arith

    mutual
      unfolding walk_node walk_nodes node_files nodes_files node_hits nodes_hits

      walk_node-Past :
          (base : Text) (n : Node) (w : Walk)
          → w.scanned + node_files n ≤ file_limit limits
          → Past w (node_files n) (node_hits base n) (walk_node u limits needles ctx_err base n w)
      walk_node-Past base (file name content) w h =
          let (s, e) = at_file-Past base name content (record w { seen = suc w.seen }) h in
          (s, seeing-on w (at_file u limits needles ctx_err base name content) ∙ e)
      walk_node-Past base (dir name below) w h =
          let v : Walk = record w { seen = suc w.seen } in
          let base1 = under u limits needles ctx_err base name in
          let inside = walk_nodes u limits needles ctx_err base1 below in
          let (s, e) =
            at_dir-Past name (nodes_files below) (nodes_hits base1 below) inside v (λ shown.
              walk_nodes-Past base1 below v
                (if_shown name (nodes_files below) w.scanned shown h)) in
          (s, seeing-on w (at_dir u limits needles ctx_err name inside) ∙ e)

      walk_nodes-Past :
          (base : Text) (ns : Nodes) (w : Walk)
          → w.scanned + nodes_files ns ≤ file_limit limits
          → Past w
              (nodes_files ns)
              (nodes_hits base ns)
              (walk_nodes u limits needles ctx_err base ns w)
      walk_nodes-Past base nil w h = Past-nothing w
      walk_nodes-Past base (more n ns) w h =
          let (s, e) = walk_node-Past base n w (omega arith) in
          let v : Walk = record {
            seen = s;
            scanned = w.scanned + node_files n;
            out = w.out ++ node_hits base n;
          } in
          let (t, d) = walk_nodes-Past base ns v (omega arith) in
          (
            t,
            ap
                  (λ r.
                    and_on u limits needles ctx_err r (walk_nodes u limits needles ctx_err base ns))
                  e
                ∙ d
                ∙ on-eq t (regroup w.scanned (node_files n) (nodes_files ns))
                    (append_assoc w.out (node_hits base n) (nodes_hits base ns)),
          )

-- All hits of a tree.
abbrev pub tree_hits : Scripts → GrepLimits → (ℕ → Option Error) → Nodes → Text → List Chunk
tree_hits u limits ctx_err tree query = nodes_hits u limits (grep_needles u query) ctx_err [] tree

abbrev pub tree_files : Scripts → GrepLimits → (ℕ → Option Error) → Nodes → Text → ℕ
tree_files u limits ctx_err tree query = nodes_files u limits (grep_needles u query) ctx_err tree

-- If the context lasts and the tree has at most MaxFiles files that are not skipped, then the
-- walk, with its counters and its early ends, finds exactly the hits of all these files in the
-- order of the tree.
pub grep_walk-tree_hits :
    (u : Scripts) (limits : GrepLimits) (ctx_err : ℕ → Option Error) (tree : Nodes) (query : Text)
    → ((n : ℕ) → ctx_err n ≡ none)
    → tree_files u limits ctx_err tree query ≤ file_limit limits
    → found_by (grep_walk u limits ctx_err tree query) ≡ tree_hits u limits ctx_err tree query
unfolding walk_nodes
grep_walk-tree_hits u limits ctx_err tree query lasts h =
    let needles = grep_needles u query in
    let v : Walk = record empty_walk { seen = 1 } in
    let (s, e) = walk_nodes-Past u limits needles ctx_err lasts [] tree v (omega arith) in
    ap (λ r. found_by r)
      (seeing-on u limits needles ctx_err lasts empty_walk
          (walk_nodes u limits needles ctx_err [] tree)
        ∙ e)
