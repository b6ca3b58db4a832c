-- ===== src/Agent/Clip.antt =====
-- The rune limits of agent/agent.go, agent/history.go and agent/memory.go.
use agent_go.Prelude.{
  ℕ, zero, suc, ◌+◌, ◌-◌, ◌^◌, ◌≤◌, ◌<◌, Bool, true, false, ◌&&◌, [], ◌∷◌, ◌++◌, arith, ltb, leb,
  if◌then◌else◌, length, take, length-take, length-append,
}
use agent_go.Prelude.Int.{ℤ, pos, negsuc}
use agent_go.Text.{Text, codes, decimal, length-decimal, trim_space, fields, join, replace_newlines}

-- `"\n...[truncated, original %d chars]"`
abbrev pub truncation_notice : ℕ → Text
truncation_notice n = codes "\n...[truncated, original " ++ (decimal n ++ codes " chars]")

abbrev pub kept_runes : ℕ → ℕ → ℕ
kept_runes max notice = if ltb 32 max && ltb notice max then max - notice else max

-- truncateRunes, for a limit above 0
unfoldable pub truncate_at : Text → ℕ → Text × Bool
truncate_at s max =
    let notice = truncation_notice (length s) in
    if leb (length s) max
    then (s, false)
    else (take (kept_runes max (length notice)) s ++ notice, true)

-- truncateRunes
unfoldable pub truncate_runes : Text → ℤ → Text × Bool
unfolding truncate_at
truncate_runes s (negsuc n) = (s, false)
truncate_runes s (pos zero) = (s, false)
truncate_runes s (pos (suc n)) = truncate_at s (suc n)

abbrev pub default_max_tool_result_chars : ℕ
default_max_tool_result_chars = 4096

-- (*Agent).capToolResult, by the field MaxToolResultChars
unfoldable pub cap_tool_result : ℤ → Text → Text × Bool
unfolding truncate_runes
cap_tool_result (negsuc n) s = (s, false)
cap_tool_result (pos zero) s = truncate_runes s (pos default_max_tool_result_chars)
cap_tool_result (pos (suc n)) s = truncate_runes s (pos (suc n))

-- clipOneLine; the dots are U+2026
unfoldable pub clip_one_line : Text → ℕ → Text
clip_one_line s max =
    let t = join (codes " ") (fields (replace_newlines (trim_space s))) in
    if ltb 0 max && ltb max (length t) then take max t ++ 0x2026 ∷ [] else t

-- clipRunes
unfoldable pub clip_runes : Text → ℕ → Text
clip_runes s max = let t = trim_space s in if ltb 0 max && ltb max (length t) then take max t else t

pub length-clip_one_line : (s : Text) (n : ℕ) → length (clip_one_line s (suc n)) ≤ suc n + 1
unfolding clip_one_line
length-clip_one_line s n =
    let t : Text = join (codes " ") (fields (replace_newlines (trim_space s))) in
    ground (arith, length-append (take (suc n) t) (0x2026 ∷ []), length-take (suc n) t)

pub length-clip_runes : (s : Text) (n : ℕ) → length (clip_runes s (suc n)) ≤ suc n
unfolding clip_runes
length-clip_runes s n = ground (arith, length-take (suc n) (trim_space s))

notice_length : (k n : ℕ) → n < 10 ^ suc k → length (truncation_notice n) ≤ k + 33
notice_length k n h =
    omega (arith, length-append (decimal n) (codes " chars]"), length-decimal k n h)

-- If the text has fewer than 10^(k+1) runes and the limit is above k+33, so that the notice of
-- what was cut has room, then the truncated text has at most as many runes as the limit.
pub length-truncate_at :
    (s : Text) (max k : ℕ)
    → length s < 10 ^ suc k
    → k + 33 < max
    → length (truncate_at s max).0 ≤ max
unfolding truncate_at
length-truncate_at s max k fits room =
    let notice : Text = truncation_notice (length s) in
    let bound = notice_length k (length s) fits in
    ground (
      arith,
      bound,
      length-append (take (max - length notice) s) notice,
      length-take (max - length notice) s,
    )
