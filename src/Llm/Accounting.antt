-- ===== src/Llm/Accounting.antt =====
-- Usage of llm/types.go: token counts are 64-bit words that wrap.
use agent_go.Prelude.{ℕ, ◌≡◌, arith}
use agent_go.Prelude.Int.{add_word}

pub record Usage : Type 0 where
  pub prompt_tokens : ℕ
  pub completion_tokens : ℕ
  pub total_tokens : ℕ
  pub calls : ℕ

abbrev pub zero_usage : Usage
zero_usage = record { prompt_tokens = 0; completion_tokens = 0; total_tokens = 0; calls = 0 }

-- (Usage).Add
unfoldable pub add_usage : Usage → Usage → Usage
add_usage u v = record {
  prompt_tokens = add_word u.prompt_tokens v.prompt_tokens;
  completion_tokens = add_word u.completion_tokens v.completion_tokens;
  total_tokens = add_word u.total_tokens v.total_tokens;
  calls = add_word u.calls v.calls;
}

add_word_assoc : (a b c : ℕ) → add_word (add_word a b) c ≡ add_word a (add_word b c)
unfolding add_word
add_word_assoc a b c = omega arith

add_word_comm : (a b : ℕ) → add_word a b ≡ add_word b a
unfolding add_word
add_word_comm a b = omega arith

-- Usages add up in any grouping, the wrap included.
pub add_usage_assoc : (u v w : Usage) → add_usage (add_usage u v) w ≡ add_usage u (add_usage v w)
unfolding add_usage
add_usage_assoc u v w = λ i. record {
  prompt_tokens = add_word_assoc u.prompt_tokens v.prompt_tokens w.prompt_tokens i;
  completion_tokens = add_word_assoc u.completion_tokens v.completion_tokens w.completion_tokens i;
  total_tokens = add_word_assoc u.total_tokens v.total_tokens w.total_tokens i;
  calls = add_word_assoc u.calls v.calls w.calls i;
}

pub add_usage_comm : (u v : Usage) → add_usage u v ≡ add_usage v u
unfolding add_usage
add_usage_comm u v = λ i. record {
  prompt_tokens = add_word_comm u.prompt_tokens v.prompt_tokens i;
  completion_tokens = add_word_comm u.completion_tokens v.completion_tokens i;
  total_tokens = add_word_comm u.total_tokens v.total_tokens i;
  calls = add_word_comm u.calls v.calls i;
}
