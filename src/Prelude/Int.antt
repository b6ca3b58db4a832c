-- ===== src/Prelude/Int.antt =====
-- Go's `int`: settings, which are only compared, as signed numbers; counters as 64-bit words.
use Prim.Native.Nat.{ℕ, ◌+◌, ◌%◌, ◌^◌}
use mathlib.Core.Bool.{Bool, ◌&&◌}
use agent_go.Prelude.Tests.{ltb}

-- `negsuc n` is -(n + 1).
pub data ℤ : Type 0 where
  pos : ℕ → ℤ
  negsuc : ℕ → ℤ

-- The bit pattern of a two's complement `int`, below 2 ^ 64.
abbrev pub word_size : ℕ
word_size = 2 ^ 64

abbrev pub sign_bit : ℕ
sign_bit = 2 ^ 63

-- `a + b` on two's complement words.
unfoldable pub add_word : ℕ → ℕ → ℕ
add_word a b = (a + b) % word_size

-- `x > 0`, for the integer that the word stands for.
unfoldable pub is_positive : ℕ → Bool
is_positive x = ltb 0 x && ltb x sign_bit
