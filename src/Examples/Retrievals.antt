-- ===== src/Examples/Retrievals.antt =====
-- A document, a small tree of files, and a message, for rag/chunk.go, retrieve/grep.go and
-- mcp/codec.go.
use agent_go.Prelude.{
  ℕ, ◌≡◌, refl, false, List, [], ◌∷◌, ◌++◌, none, some, All, map, concat, arith, ◌==◌,
}
use agent_go.Prelude.Int.{pos}
use agent_go.Text.{
  Text, codes, trim_space, bare, is_space, has_prefix, text_eq, is_empty, to_lower, contains,
  split_lines, decimal, byte_length,
}
use agent_go.Retrieval.{Chunk}
use agent_go.Retrieval.Chunks.{chunk_document}
use agent_go.Retrieval.Kept.{IsPiece, chunk_document-keeps}
use agent_go.Retrieval.Needles.{
  Scripts, grep_needles, add_fields, add_needle, add_pairs, fields_func, line_score,
}
use agent_go.Retrieval.Grep.{
  Nodes, GrepLimits, file, nil, more, dir, grep_walk, grep_retrieve, walk_node, walk_nodes,
  line_hits, sort_hits, insert_hit, skip_doc_name,
}
use agent_go.Retrieval.Ranking.{IsRanked}
use agent_go.Retrieval.Found.{found_by, IsHit, grep_retrieve-IsRanked}
use agent_go.Retrieval.Walking.{tree_hits, grep_walk-tree_hits, node_files, nodes_files}
use agent_go.Docs.Reading.{is_text_doc, ext_of}
use agent_go.Text.Table.{mem}
use agent_go.Mcp.Codec.{got, read_msg, write_msg}
use agent_go.Mcp.Framing.{read_msg-write_msg}
use agent_go.Examples.Data.{ascii}

chunk_document-keeps_example :
    (bare (concat (map (λ c. c.text) (chunk_document (codes "a.md") (codes "# t one two") (pos 4))))
      ≡ codes "#tonetwo")
    × All
        (IsPiece 4)
        (map (λ c. c.text) (chunk_document (codes "a.md") (codes "# t one two") (pos 4)))
unfolding bare is_space
chunk_document-keeps_example = chunk_document-keeps (codes "a.md") (codes "# t one two") (pos 4)

read_msg-write_msg_example :
    read_msg trim_space (write_msg (codes "{}") ++ codes "x") ≡ got (codes "{}") (codes "x")
read_msg-write_msg_example =
    read_msg-write_msg trim_space (λ s h. refl) (codes "{}") (codes "x") (omega arith) (omega arith)

abbrev scripts : Scripts
scripts = record { tables = ascii; is_punct = λ c. c == 44; is_han = λ c. false }

abbrev limits : GrepLimits
limits = record { max_hits = pos 0; max_files = pos 5; max_bytes = pos 0 }

abbrev tree : Nodes
tree = more (file (codes "a.md") (some (codes "no refund now"))) (
    more (file (codes "b.png") (some (codes "refund policy")))
      (more (dir (codes "d") (more (file (codes "c") (some (codes "Refund Policy"))) nil)) nil))

grep_walk-tree_hits_example :
    found_by (grep_walk scripts limits (λ n. none) tree (codes "refund policy"))
    ≡ tree_hits scripts limits (λ n. none) tree (codes "refund policy")
unfolding node_files nodes_files is_text_doc skip_doc_name has_prefix text_eq to_lower ext_of
grep_walk-tree_hits_example =
    grep_walk-tree_hits scripts limits (λ n. none) tree (codes "refund policy") (λ n. refl)
      (omega arith)

abbrev hit : Text → Text → ℕ → Chunk
hit path text score = record {
  id = path ++ codes ":1";
  path = path;
  text = text;
  score = score;
  line = codes "1";
}

-- The whole query counts more than one of its words.
abbrev both_hits : List Chunk
both_hits =
    hit (codes "d/c") (codes "Refund Policy") 100
    ∷ hit (codes "a.md") (codes "no refund now") 70
    ∷ []

grep_retrieve-IsRanked_example :
    IsRanked 20
      (found_by (grep_walk scripts limits (λ n. none) tree (codes "refund policy")))
      both_hits
    × All
        (IsHit scripts (grep_needles scripts (codes "refund policy")))
        (found_by (grep_walk scripts limits (λ n. none) tree (codes "refund policy")))
unfolding trim_space is_space grep_retrieve walk_node walk_nodes line_hits sort_hits insert_hit
    skip_doc_name is_text_doc ext_of grep_needles add_fields add_needle add_pairs fields_func
    line_score has_prefix text_eq is_empty to_lower contains split_lines decimal byte_length mem
grep_retrieve-IsRanked_example =
    grep_retrieve-IsRanked scripts limits none (λ n. none) tree (codes " refund policy") (pos 0)
      both_hits refl
