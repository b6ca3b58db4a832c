-- ===== src/Retrieval/Chunks.antt =====
-- rag/chunk.go: how a document is cut into chunks.
use agent_go.Prelude.{
  ℕ, zero, suc, Bool, false, ◌&&◌, ◌||◌, List, [], ◌∷◌, ◌++◌, if◌then◌else◌, ◌==◌, leb, take, drop,
  length,
}
use agent_go.Prelude.Int.{ℤ, pos, negsuc}
use agent_go.Text.{Text, codes, trim_space, has_prefix, is_empty, split_lines, decimal}
use agent_go.Retrieval.{Chunk}

abbrev pub starts_line : Text → Bool
starts_line [] = false
starts_line (c ∷ s) = c == 10

-- strings.ReplaceAll(text, "\r\n", "\n")
unfoldable pub unix_lines : Text → Text
unix_lines [] = []
unix_lines (c ∷ s) = let rest = unix_lines s in if c == 13 && starts_line s then rest else c ∷ rest

-- `flush` of splitBlocks, in front of the blocks that follow
abbrev pub flush : Text → List Text → List Text
flush cur rest = let s = trim_space cur in if is_empty s then rest else s ∷ rest

abbrev pub is_heading : Text → Bool
is_heading line = has_prefix (trim_space line) (codes "#")

-- What `cur` holds after a line, and whether it was flushed before.
abbrev pub next_block : Text → Text → Text
next_block cur line =
    if is_heading line
    then trim_space line ++ (10 ∷ [])
    else if is_empty (trim_space line)
    then []
    else if is_empty cur
    then line
    else cur ++ (10 ∷ line)

abbrev pub flushes : Text → Bool
flushes line = is_heading line || is_empty (trim_space line)

-- The loop of splitBlocks, for the lines that are left
unfoldable pub blocks_from : Text → List Text → List Text
unfolding trim_space has_prefix is_empty
blocks_from cur [] = flush cur []
blocks_from cur (l ∷ ls) =
    let rest = blocks_from (next_block cur l) ls in if flushes l then flush cur rest else rest

unfoldable pub split_blocks : Text → List Text
unfolding blocks_from split_lines
split_blocks text = blocks_from [] (split_lines text)

-- The loop of splitRunes; each round takes a rune, so the length is fuel enough.
unfoldable pub pieces : ℕ → ℕ → Text → List Text
pieces zero max s = []
pieces (suc fuel) max [] = []
pieces (suc fuel) max (c ∷ s) = take max (c ∷ s) ∷ pieces fuel max (drop max (c ∷ s))

unfoldable pub split_runes : Text → ℕ → List Text
unfolding pieces
split_runes s max = if leb (length s) max then s ∷ [] else pieces (length s) max s

-- ChunkOpts.withDefaults
abbrev pub max_runes : ℤ → ℕ
max_runes (negsuc n) = 480
max_runes (pos zero) = 480
max_runes (pos (suc n)) = suc n

-- All pieces of the blocks that are not blank.
unfoldable pub block_pieces : ℕ → List Text → List Text
unfolding split_runes trim_space is_empty
block_pieces max [] = []
block_pieces max (b ∷ bs) =
    let rest = block_pieces max bs in
    let block = trim_space b in if is_empty block then rest else split_runes block max ++ rest

-- Chunks with their numbers, after `n`
unfoldable pub numbered : Text → ℕ → List Text → List Chunk
unfolding decimal
numbered path n [] = []
numbered path n (piece ∷ rest) =
    record {
      id = path ++ (codes "#" ++ decimal (suc n));
      path = path;
      text = piece;
      score = 0;
      line = [];
    }
    ∷ numbered path (suc n) rest

-- ChunkDocument
unfoldable pub chunk_document : Text → Text → ℤ → List Chunk
unfolding split_blocks block_pieces numbered unix_lines
chunk_document path text limit =
    numbered path 0 (block_pieces (max_runes limit) (split_blocks (unix_lines text)))
