-- ===== src/Retrieval.antt =====
-- Documents in pieces, and how they are found (rag/ and retrieve/).
pub mod Chunks
pub mod Kept
pub mod Needles
pub mod Grep
pub mod Ranking
pub mod Found
pub mod Walking
pub mod Evaluation
pub mod Judged
use agent_go.Prelude.{ℕ}
use agent_go.Text.{Text}

-- retrieve.Chunk, with its score in hundredths, which are only compared, and Meta["line"].
pub record Chunk : Type 0 where
  pub id : Text
  pub path : Text
  pub text : Text
  pub score : ℕ
  pub line : Text
