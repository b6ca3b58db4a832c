-- ===== src/Mcp/Codec.antt =====
-- mcp/codec.go: messages with a length in front, or one on a line.
use agent_go.Prelude.{
  ℕ, ◌+◌, ◌*◌, Bool, true, false, ◌&&◌, ◌||◌, List, [], ◌∷◌, ◌++◌, Option, none, some,
  if◌then◌else◌, ◌==◌, ltb, leb, length, take, drop, map,
}
use agent_go.Prelude.Int.{ℤ, pos, negsuc}
use agent_go.Text.{Text, codes, has_prefix, decimal, atoi, is_empty, is_nil}

-- What is read: a message and the bytes after it, the end of the pipe, a message that breaks off, or
-- a fault.
pub data Read : Type 0 where
  got : List ℕ → List ℕ → Read
  ended : Read
  cut_short : Read
  fault : Text → Read

-- writeMsg, for the JSON of the value
unfoldable pub write_msg : List ℕ → List ℕ
unfolding decimal
write_msg body = codes "Content-Length: " ++ (decimal (length body) ++ (13 ∷ 10 ∷ 13 ∷ 10 ∷ body))

abbrev pub is_gap : ℕ → Bool
is_gap c = c == 32 || c == 13 || c == 10 || c == 9

unfoldable pub skip_gap : List ℕ → List ℕ
skip_gap [] = []
skip_gap (c ∷ s) = let rest = skip_gap s in if is_gap c then rest else c ∷ s

-- ToLower, for a comparison with ASCII letters
abbrev pub lower_byte : ℕ → ℕ
lower_byte c = if leb 65 c && leb c 90 then c + 32 else c

abbrev pub is_length_header : List ℕ → Bool
is_length_header s = has_prefix (map lower_byte s) (codes "content-length:")

-- Where the reader of the headers stands.
pub data Header : Type 0 where
  reading : List ℕ → ℤ → Header
  complete : ℤ → Header
  invalid : Header

-- Package strings trims bytes as UTF-8: a parameter here.
module _ (trim : List ℕ → List ℕ) where
  -- A header line that sets the length.
  abbrev pub length_of : List ℕ → Option ℤ
  length_of line = elim (atoi (trim (drop 15 line))) [
    | some n ↦ some n
    | none ↦ atoi (trim (drop 15 (map lower_byte line)))
  ]

  abbrev pub header_line : List ℕ → ℤ → Header
  header_line line len =
      if is_empty line
      then complete len
      else if is_length_header line
      then elim (length_of line) [ none ↦ invalid | some n ↦ reading [] n ]
      else reading [] len

  abbrev pub next_byte : List ℕ → ℤ → ℕ → Header
  next_byte cur len c =
      let line = cur ++ (c ∷ []) in
      if c == 10 then header_line (trim line) len else reading line len

  abbrev pub max_message : ℕ
  max_message = 16 * 1024 * 1024

  abbrev pub read_body : ℤ → List ℕ → Read
  read_body (negsuc n) s = fault (codes "mcp: missing content-length")
  read_body (pos n) s =
      if n == 0
      then fault (codes "mcp: missing content-length")
      else if ltb max_message n
      then fault (codes "mcp: message too large")
      else if is_nil s
      then ended
      else if ltb (length s) n
      then cut_short
      else got (take n s) (drop n s)

  -- readLSP, with `cur` of a line read
  unfoldable pub read_lsp : List ℕ → ℤ → List ℕ → Read
  unfolding atoi has_prefix is_empty is_nil
  read_lsp cur len [] = ended
  read_lsp cur len (c ∷ s) = elim (next_byte cur len c) [
    | reading line n ↦ read_lsp line n s
    | complete n ↦ read_body n s
    | invalid ↦ fault (codes "mcp: content-length")
  ]

  -- `r.ReadBytes('\n')`: a line, or what is left
  unfoldable pub read_line : List ℕ → List ℕ → List ℕ × List ℕ
  read_line cur [] = (cur, [])
  read_line cur (c ∷ s) =
      let line = cur ++ (c ∷ []) in
      let rest = read_line line s in if c == 10 then (line, s) else rest

  -- What follows the gap before a message.
  unfoldable pub read_start : List ℕ → Read
  unfolding read_lsp read_line has_prefix
  read_start [] = ended
  read_start (c ∷ s) = elim (is_length_header (take 15 (c ∷ s))) [
    | true ↦ read_lsp [] (pos 0) (c ∷ s)
    | false ↦ let (line, rest) = read_line [] (c ∷ s) in got (trim line) rest
  ]

  -- readMsg
  unfoldable pub read_msg : List ℕ → Read
  unfolding read_start skip_gap
  read_msg s = read_start (skip_gap s)
