-- ===== src/Retrieval/Kept.antt =====
-- rag/chunk.go: no character but space is lost, and every chunk is within its limit.
use agent_go.Prelude.{
  ℕ, zero, suc, ◌≤◌, ◌≡◌, refl, sym, ◌∙◌, ap, ap₂, Bool, true, false, not, ◌&&◌, ◌||◌, List, [],
  ◌∷◌, ◌++◌, map, concat, length, take, drop, All, arith, Bool-cases, inl, inr, filter-append,
  concat-append, take-append-drop, length-take, length-drop, append_assoc, append-nil, ◌==◌, leb,
  leb→le, All-append, subst,
}
use agent_go.Prelude.Int.{ℤ, pos, negsuc}
use agent_go.Text.{
  Text, trim_space, is_space, is_empty, is_empty-eq, split_lines, bare, bare-trim_space,
  bare-split_lines, bare-cons, bare-space,
}
use agent_go.Retrieval.{Chunk}
use agent_go.Retrieval.Chunks.{
  starts_line, unix_lines, flush, is_heading, next_block, flushes, blocks_from, split_blocks,
  pieces, split_runes, max_runes, block_pieces, numbered, chunk_document,
}

bare-append : (s t : Text) → bare (s ++ t) ≡ bare s ++ bare t
unfolding bare
bare-append s t = filter-append (λ c. not (is_space c)) s t

bare-unix_lines : (s : Text) → bare (unix_lines s) ≡ bare s
unfolding unix_lines is_space
bare-unix_lines [] = refl
bare-unix_lines (c ∷ s) = elim (Bool-cases (c == 13 && starts_line s)) [
  | inl e ↦ rw e (bare-unix_lines s ∙ sym (bare-space c s (return_space c (starts_line s) e)))
  | inr e ↦ rw e (bare-cons c (unix_lines s) s (bare-unix_lines s))
]
  where
    return_space : (c : ℕ) (b : Bool) → (c == 13 && b) ≡ true → is_space c ≡ true
    return_space c b e = ground arith

bare-flush :
    (cur : Text) (rest : List Text)
    → bare (concat (flush cur rest)) ≡ bare cur ++ bare (concat rest)
unfolding bare
bare-flush cur rest = elim (Bool-cases (is_empty (trim_space cur))) [
  | inl e ↦ rw e (
      ap (λ l. l ++ bare (concat rest))
        (sym (ap bare (is_empty-eq (trim_space cur) e)) ∙ bare-trim_space cur))
  | inr e ↦ rw e (
      bare-append (trim_space cur) (concat rest)
      ∙ ap (λ l. l ++ bare (concat rest)) (bare-trim_space cur))
]

bare-blank : (line : Text) → is_empty (trim_space line) ≡ true → bare [] ≡ bare line
bare-blank line e = sym (ap bare (is_empty-eq (trim_space line) e)) ∙ bare-trim_space line

bare-ended : (s : Text) → bare (s ++ (10 ∷ [])) ≡ bare s
unfolding bare is_space
bare-ended s = bare-append s (10 ∷ []) ∙ append-nil (bare s)

-- A line that ends a block is what stands next, and another line joins what stood.
next_block-flushed :
    (cur line : Text) → flushes line ≡ true → bare (next_block cur line) ≡ bare line
next_block-flushed cur line h = elim (Bool-cases (is_heading line)) [
  | inl e ↦ rw e (bare-ended (trim_space line) ∙ bare-trim_space line)
  | inr e ↦ let d : is_empty (trim_space line) ≡ true = rw e at h in rw e (rw d (bare-blank line d))
]

next_block-joined :
    (cur line : Text) → flushes line ≡ false → bare (next_block cur line) ≡ bare cur ++ bare line
unfolding bare is_space
next_block-joined cur line h =
    let (e, d) = neither (is_heading line) (is_empty (trim_space line)) h in
    rw e (
      rw d (elim (Bool-cases (is_empty cur)) [
        | inl g ↦ rw g (ap (λ l. bare l ++ bare line) (sym (is_empty-eq cur g)))
        | inr g ↦ rw g (bare-append cur (10 ∷ line))
      ]))
  where
    neither : (a b : Bool) → (a || b) ≡ false → (a ≡ false) × (b ≡ false)
    neither a b h = ground arith

bare-blocks_from :
    (cur : Text) (ls : List Text)
    → bare (concat (blocks_from cur ls)) ≡ bare cur ++ bare (concat ls)
unfolding blocks_from
bare-blocks_from cur [] = bare-flush cur []
bare-blocks_from cur (l ∷ ls) =
    let rest = blocks_from (next_block cur l) ls in
    let told = bare-blocks_from (next_block cur l) ls in
    let line = bare-append l (concat ls) in
    elim (Bool-cases (flushes l)) [
      | inl e ↦ rw e (
          bare-flush cur rest
          ∙ ap (λ t. bare cur ++ t)
              (told ∙ ap (λ t. t ++ bare (concat ls)) (next_block-flushed cur l e) ∙ sym line))
      | inr e ↦ rw e (
          told
          ∙ ap (λ t. t ++ bare (concat ls)) (next_block-joined cur l e)
          ∙ append_assoc (bare cur) (bare l) (bare (concat ls))
          ∙ ap (λ t. bare cur ++ t) (sym line))
    ]

pieces-concat : (fuel max : ℕ) (s : Text) → length s ≤ fuel → concat (pieces fuel (suc max) s) ≡ s
unfolding pieces
pieces-concat zero max [] h = refl
pieces-concat zero max (c ∷ s) h = absurd (omega arith)
pieces-concat (suc fuel) max [] h = refl
pieces-concat (suc fuel) max (c ∷ s) h =
    ap (λ t. take (suc max) (c ∷ s) ++ t)
      (pieces-concat fuel max (drop max s) (omega (arith, length-drop max s)))
    ∙ take-append-drop (suc max) (c ∷ s)

-- A piece of a size that is allowed.
abbrev pub IsPiece : ℕ → Text → Type 0
IsPiece max p = (1 ≤ length p) × (length p ≤ max)

pieces-IsPiece : (fuel max : ℕ) (s : Text) → All (IsPiece (suc max)) (pieces fuel (suc max) s)
unfolding pieces
pieces-IsPiece zero max s = tt
pieces-IsPiece (suc fuel) max [] = tt
pieces-IsPiece (suc fuel) max (c ∷ s) = (
  (omega (arith, length-take max s), omega (arith, length-take max s)),
  pieces-IsPiece fuel max (drop max s),
)

-- The pieces of a text: all of it, none too long.
split_runes-concat : (max : ℕ) (s : Text) → concat (split_runes s (suc max)) ≡ s
unfolding split_runes
split_runes-concat max s = elim (Bool-cases (leb (length s) (suc max))) [
  | inl e ↦ rw e (append-nil s)
  | inr e ↦ rw e (pieces-concat (length s) max s (omega arith))
]

split_runes-IsPiece :
    (max : ℕ) (s : Text) → is_empty s ≡ false → All (IsPiece (suc max)) (split_runes s (suc max))
unfolding split_runes is_empty
split_runes-IsPiece max s h = elim (Bool-cases (leb (length s) (suc max))) [
  | inl e ↦ rw e ((filled s h, leb→le (length s) (suc max) e), tt)
  | inr e ↦ rw e (pieces-IsPiece (length s) max s)
]
  where
    filled : (s : Text) → is_empty s ≡ false → 1 ≤ length s
    filled [] h = ground arith
    filled (c ∷ s) h = omega arith

block_pieces-bare :
    (max : ℕ) (bs : List Text) → bare (concat (block_pieces (suc max) bs)) ≡ bare (concat bs)
unfolding block_pieces bare
block_pieces-bare max [] = refl
block_pieces-bare max (b ∷ bs) =
    let rest = block_pieces (suc max) bs in
    elim (Bool-cases (is_empty (trim_space b))) [
      | inl e ↦ rw e (
          block_pieces-bare max bs
          ∙ sym
              (bare-append b (concat bs) ∙ ap (λ t. t ++ bare (concat bs)) (sym (bare-blank b e))))
      | inr e ↦ rw e (
          ap bare (concat-append (split_runes (trim_space b) (suc max)) rest)
          ∙ ap (λ t. bare (t ++ concat rest)) (split_runes-concat max (trim_space b))
          ∙ bare-append (trim_space b) (concat rest)
          ∙ ap₂ (λ (x y : Text). x ++ y) (bare-trim_space b) (block_pieces-bare max bs)
          ∙ sym (bare-append b (concat bs)))
    ]

block_pieces-IsPiece :
    (max : ℕ) (bs : List Text) → All (IsPiece (suc max)) (block_pieces (suc max) bs)
unfolding block_pieces
block_pieces-IsPiece max [] = tt
block_pieces-IsPiece max (b ∷ bs) = elim (Bool-cases (is_empty (trim_space b))) [
  | inl e ↦ rw e (block_pieces-IsPiece max bs)
  | inr e ↦ rw e (
      All-append (IsPiece (suc max)) (split_runes (trim_space b) (suc max)) _
        (split_runes-IsPiece max (trim_space b) e) (block_pieces-IsPiece max bs))
]

texts : List Chunk → List Text
texts chunks = map (λ c. c.text) chunks

texts-numbered : (path : Text) (n : ℕ) (ps : List Text) → texts (numbered path n ps) ≡ ps
unfolding numbered texts
texts-numbered path n [] = refl
texts-numbered path n (p ∷ ps) = ap (λ (l : List Text). p ∷ l) (texts-numbered path (suc n) ps)

max_runes_positive : (limit : ℤ) → (m : ℕ) × (max_runes limit ≡ suc m)
max_runes_positive (negsuc n) = (479, omega arith)
max_runes_positive (pos zero) = (479, omega arith)
max_runes_positive (pos (suc n)) = (n, refl)

cut-Kept :
    (m : ℕ) (text : Text)
    → bare (concat (block_pieces (suc m) (split_blocks (unix_lines text)))) ≡ bare text
unfolding split_blocks bare
cut-Kept m text =
    let lines = split_lines (unix_lines text) in
    block_pieces-bare m (blocks_from [] lines)
    ∙ bare-blocks_from [] lines
    ∙ bare-split_lines (unix_lines text)
    ∙ bare-unix_lines text

-- Whatever the document and the limit: the texts of the chunks, one after the other, have the same
-- characters that are not space as the document, in its order, and each chunk has at least one
-- rune and at most MaxRunes, or 480 if MaxRunes is not positive.
pub chunk_document-keeps :
    (path text : Text) (limit : ℤ)
    → (bare (concat (map (λ c. c.text) (chunk_document path text limit))) ≡ bare text)
      × All (IsPiece (max_runes limit)) (map (λ c. c.text) (chunk_document path text limit))
unfolding chunk_document texts
chunk_document-keeps path text limit =
    let (m, e) = max_runes_positive limit in
    let ps = block_pieces (suc m) (split_blocks (unix_lines text)) in
    rw e (
      ap (λ l. bare (concat l)) (texts-numbered path 0 ps) ∙ cut-Kept m text,
      subst (All (IsPiece (suc m))) (sym (texts-numbered path 0 ps))
          (block_pieces-IsPiece m (split_blocks (unix_lines text))),
    )
