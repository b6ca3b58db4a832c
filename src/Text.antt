-- ===== src/Text.antt =====
-- Go strings as lists of code points (valid UTF-8), with the functions of package strings that the
-- program calls. A byte count is `byte_length`; a rune count is `length`.
mod Trim
mod Equality
mod Search
mod Decimal
pub mod Table
pub use Trim.{
  IsSolid, trim_space-solid_id, trim_space-ends_id, trim_space-line, trim_space-solid,
  bare-trim_space, bare-cons, bare-space, length-trim_space, trim_space_idem, is_blank-trim_space,
  trim_space_newline,
}
unfoldable pub use Trim.{is_space, trim_space, is_blank, bare}
unfoldable pub use Equality.{text_eq, is_empty, is_nil}
pub use Equality.{text_ne_sym, text_eq_iff, text_eq_refl, is_empty-eq, is_nil-eq}
unfoldable pub use Search.{
  has_prefix, trim_prefix, contains, split_lines, fields, join, replace_newlines, to_lower,
  equal_fold,
}
pub use Search.{
  CaseTables, trim_prefix-append, has_prefix-append, has_prefix-rest, bare-split_lines,
  equal_fold_refl, equal_fold_trans,
}
unfoldable pub use Decimal.{decimal, atoi, parse_digits}
pub use Decimal.{length-decimal, IsDigit, decimal-IsDigit, decimal-cons, atoi-decimal, decimal_inj}
use Prim.Native.Char.{code}
use Prim.Native.String
use agent_go.Prelude.{
  ℕ, zero, suc, ◌+◌, ◌-◌, ◌≤◌, ◌≡◌, String, List, [], ◌∷◌, ◌++◌, arith, ltb, if◌then◌else◌, length,
  take, length-take, length-append,
}

abbrev pub Text : Type 0
Text = List ℕ

-- The code points of a literal.
abbrev pub codes : String → Text
codes String.[] = []
codes (String.◌∷◌ c s) = code c ∷ codes s

-- `len(s)`: the bytes of the UTF-8 encoding.
abbrev pub rune_bytes : ℕ → ℕ
rune_bytes c = if ltb c 0x80 then 1 else if ltb c 0x800 then 2 else if ltb c 0x10000 then 3 else 4

unfoldable pub byte_length : Text → ℕ
byte_length [] = 0
byte_length (c ∷ s) = rune_bytes c + byte_length s
