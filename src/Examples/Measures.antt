-- ===== src/Examples/Measures.antt =====
-- Two questions to a retriever that always answers the same, for rag/eval.go.
use agent_go.Prelude.{ℕ, ◌≡◌, refl, [], ◌∷◌, List, length, ◌⊎◌, inl}
use agent_go.Prelude.Int.{ℤ, pos}
use agent_go.Text.{
  Text, codes, trim_space, is_space, is_nil, text_eq, contains, to_lower, has_prefix, decimal, join,
}
use agent_go.Errors.{Error}
use agent_go.Retrieval.{Chunk}
use agent_go.Retrieval.Evaluation.{
  Case, cases_k, evaluate, judge, scan_hits, scan_substr, path_matches, has_suffix, format_report,
}
use agent_go.Retrieval.Judged.{IsReport, answers, evaluate-IsReport}
use agent_go.Examples.Data.{ascii}

abbrev chunk : Chunk
chunk = record {
  id = codes "1";
  path = codes "docs/a.md";
  text = codes "How to Run";
  score = 1;
  line = codes "1";
}

abbrev retriever : Text → ℤ → ℕ → (List Chunk ⊎ Error) × ℕ
retriever text k n = (inl (chunk ∷ []), n)

abbrev gold : List Case
gold =
    record {
      id = codes "q1";
      question = codes "run?";
      expect_path = codes "a.md";
      expect_substr = codes "run" ∷ [];
    }
    ∷ record {
      id = codes "q2";
      question = codes "stop?";
      expect_path = codes "b.md";
      expect_substr = [];
    }
    ∷ []

evaluate-IsReport_example :
    IsReport ascii retriever
      (length gold)
      0
      0
      []
      (answers ascii retriever (cases_k (pos 3)) gold 0)
      (evaluate ascii retriever gold (pos 3) 0).0
evaluate-IsReport_example = evaluate-IsReport ascii retriever gold (pos 3) 0

formatted :
    format_report (evaluate ascii retriever gold (pos 3) 0).0
    ≡ codes "recall@k=1/2 top1=1/2 miss=q2"
unfolding format_report evaluate judge scan_hits scan_substr path_matches has_suffix trim_space
    is_space is_nil text_eq contains to_lower has_prefix decimal join
formatted = refl
