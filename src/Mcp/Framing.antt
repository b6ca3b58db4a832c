-- ===== src/Mcp/Framing.antt =====
-- mcp/codec.go: what is written reads back.
use agent_go.Prelude.{
  ℕ, ◌≤◌, ◌<◌, ◌≡◌, refl, sym, ◌∙◌, ap, subst, false, List, [], ◌∷◌, ◌++◌, All, arith, ◌==◌, ltb,
  length, drop, length-append, ap₂, All-append, append-nil, append_assoc, take-length-append,
  drop-length-append,
}
use agent_go.Prelude.Int.{ℤ, pos, sign_bit}
use agent_go.Text.{
  codes, trim_space, is_space, has_prefix, decimal, atoi-decimal, decimal-cons, IsDigit,
  decimal-IsDigit, IsSolid, trim_space-line, trim_space-solid, is_empty, is_nil,
}
use agent_go.Mcp.Codec.{
  got, write_msg, skip_gap, reading, header_line, read_body, read_lsp, read_start, read_msg,
  max_message,
}

-- The start of a header, its "C" apart.
abbrev header : List ℕ
header = codes "Content-Length: "

-- Bytes of ASCII.
abbrev pub IsAscii : List ℕ → Type 0
IsAscii s = All (λ (c : ℕ). c < 128) s

-- A line of header: no newline in it.
abbrev IsLine : List ℕ → Type 0
IsLine s = All (λ (c : ℕ). (c == 10) ≡ false) s

All-digit-IsSolid : (s : List ℕ) → All IsDigit s → IsSolid s
unfolding is_space
All-digit-IsSolid [] h = tt
All-digit-IsSolid (c ∷ s) h = (ground arith, All-digit-IsSolid s h.1)

All-digit-IsAscii : (s rest : List ℕ) → All IsDigit s → IsAscii rest → IsAscii (s ++ rest)
All-digit-IsAscii [] rest h g = g
All-digit-IsAscii (c ∷ s) rest h g = (omega (arith, h.0), All-digit-IsAscii s rest h.1 g)

All-digit-IsLine : (s rest : List ℕ) → All IsDigit s → IsLine rest → IsLine (s ++ rest)
All-digit-IsLine [] rest h g = g
All-digit-IsLine (c ∷ s) rest h g = (ground arith, All-digit-IsLine s rest h.1 g)

above-IsLine : (s : List ℕ) → All (λ (c : ℕ). 11 ≤ c) s → IsLine s
above-IsLine [] h = tt
above-IsLine (c ∷ s) h = (ground arith, above-IsLine s h.1)

header-IsLine : IsLine header
header-IsLine = above-IsLine header (omega arith)

module _ (trim : List ℕ → List ℕ) (trims : (s : List ℕ) → IsAscii s → trim s ≡ trim_space s) where
  -- A line is read to its end.
  read_lsp-line :
      (cur : List ℕ) (len : ℤ) (w s : List ℕ)
      → IsLine w
      → read_lsp trim cur len (w ++ (10 ∷ s)) ≡ read_lsp trim (cur ++ w) len (10 ∷ s)
  unfolding read_lsp
  read_lsp-line cur len [] s h =
      ap (λ (l : List ℕ). read_lsp trim l len (10 ∷ s)) (sym (append-nil cur))
  read_lsp-line cur len (c ∷ w) s h =
      rw (read_lsp, h.0)
        (read_lsp-line (cur ++ (c ∷ [])) len w s h.1
          ∙ ap (λ (l : List ℕ). read_lsp trim l len (10 ∷ s)) (append_assoc cur (c ∷ []) w))

  trim-header :
      (n : ℕ) → trim ((header ++ (decimal n ++ (13 ∷ []))) ++ (10 ∷ [])) ≡ header ++ decimal n
  unfolding is_space
  trim-header n =
      let (c, r, e) = decimal-cons n in
      let solid = subst IsSolid e (All-digit-IsSolid (decimal n) (decimal-IsDigit n)) in
      ap (λ (l : List ℕ). trim (header ++ l)) (append_assoc (decimal n) (13 ∷ []) (10 ∷ []))
      ∙ trims (header ++ (decimal n ++ (13 ∷ 10 ∷ []))) (
          All-append (λ (b : ℕ). b < 128) header (decimal n ++ (13 ∷ 10 ∷ [])) (omega arith)
            (All-digit-IsAscii (decimal n) (13 ∷ 10 ∷ []) (decimal-IsDigit n) (omega arith)))
      ∙ subst (λ d. trim_space (header ++ (d ++ (13 ∷ 10 ∷ []))) ≡ header ++ d) (sym e)
          (trim_space-line 67 (drop 1 header) c r refl solid)

  trim-digits : (n : ℕ) → trim (32 ∷ decimal n) ≡ decimal n
  trim-digits n =
      let (c, r, e) = decimal-cons n in
      let solid = subst IsSolid e (All-digit-IsSolid (decimal n) (decimal-IsDigit n)) in
      trims (32 ∷ decimal n) (
        omega arith,
        subst IsAscii (append-nil (decimal n))
            (All-digit-IsAscii (decimal n) [] (decimal-IsDigit n) tt),
      )
      ∙ subst (λ d. trim_space (32 ∷ d) ≡ d) (sym e) (trim_space-solid c r solid)

  -- The line with the length says the length.
  header_line-length :
      (n : ℕ)
      → n < sign_bit
      → header_line trim (trim ((header ++ (decimal n ++ (13 ∷ []))) ++ (10 ∷ []))) (pos 0)
        ≡ reading [] (pos n)
  unfolding has_prefix is_empty
  header_line-length n h =
      ap (λ (l : List ℕ). header_line trim l (pos 0)) (trim-header n)
      ∙ rw (trim-digits n, atoi-decimal n h) refl

  read_body-whole :
      (body rest : List ℕ)
      → 1 ≤ length body
      → length body ≤ max_message trim
      → read_body trim (pos (length body)) (body ++ rest) ≡ got body rest
  unfolding is_nil
  read_body-whole [] rest lo hi = absurd (omega arith)
  read_body-whole (c ∷ s) rest lo hi =
      let n = length (c ∷ s) in
      let longer = length-append (c ∷ s) rest in
      let not_zero : (n == 0) ≡ false = ground arith in
      let not_large : ltb (max_message trim) n ≡ false = ground arith in
      let enough : ltb (length ((c ∷ s) ++ rest)) n ≡ false = ground (arith, longer) in
      rw not_zero (
        rw not_large
          (rw enough (ap₂ got (take-length-append (c ∷ s) rest) (drop-length-append (c ∷ s) rest))))

  -- The blank line ends the headers.
  read_lsp-blank : (n : ℤ) (s : List ℕ) → read_lsp trim [] n (13 ∷ 10 ∷ s) ≡ read_body trim n s
  unfolding read_lsp is_empty trim_space is_space
  read_lsp-blank n s =
      let blank : trim (13 ∷ 10 ∷ []) ≡ [] = trims (13 ∷ 10 ∷ []) (omega arith) in
      rw (read_lsp, blank) refl

  read_lsp-header :
      (n : ℕ) (s : List ℕ)
      → n < sign_bit
      → read_lsp trim [] (pos 0) ((header ++ (decimal n ++ (13 ∷ []))) ++ (10 ∷ (13 ∷ 10 ∷ s)))
        ≡ read_body trim (pos n) s
  unfolding read_lsp
  read_lsp-header n s h =
      read_lsp-line [] (pos 0) (header ++ (decimal n ++ (13 ∷ []))) (13 ∷ 10 ∷ s) (
        All-append (λ (c : ℕ). (c == 10) ≡ false) header (decimal n ++ (13 ∷ [])) header-IsLine
          (All-digit-IsLine (decimal n) (13 ∷ []) (decimal-IsDigit n) (refl, tt)))
      ∙ rw (read_lsp, header_line-length n h) refl
      ∙ read_lsp-blank (pos n) s

  write_msg-append :
      (body rest : List ℕ)
      → write_msg body ++ rest
        ≡ (header ++ (decimal (length body) ++ (13 ∷ []))) ++ (10 ∷ (13 ∷ 10 ∷ (body ++ rest)))
  unfolding write_msg
  write_msg-append body rest =
      ap (λ (l : List ℕ). header ++ l)
        (append_assoc (decimal (length body)) (13 ∷ 10 ∷ 13 ∷ 10 ∷ body) rest
          ∙ sym (append_assoc (decimal (length body)) (13 ∷ []) (10 ∷ 13 ∷ 10 ∷ (body ++ rest))))

  read_msg-header :
      (s : List ℕ) → read_msg trim (header ++ s) ≡ read_lsp trim [] (pos 0) (header ++ s)
  unfolding read_msg read_start skip_gap has_prefix
  read_msg-header s = refl

  -- If trimming is that of ASCII on ASCII bytes, a body has at least one byte and at most 16 MiB,
  -- and any bytes follow, then reading what writeMsg wrote gives the body and leaves the bytes
  -- that follow.
  pub read_msg-write_msg :
      (body rest : List ℕ)
      → 1 ≤ length body
      → length body ≤ max_message trim
      → read_msg trim (write_msg body ++ rest) ≡ got body rest
  read_msg-write_msg body rest lo hi =
      let n = length body in
      ap (read_msg trim) (write_msg-append body rest)
      ∙ read_msg-header ((decimal n ++ (13 ∷ [])) ++ (10 ∷ (13 ∷ 10 ∷ (body ++ rest))))
      ∙ read_lsp-header n (body ++ rest) (omega arith)
      ∙ read_body-whole body rest lo hi
