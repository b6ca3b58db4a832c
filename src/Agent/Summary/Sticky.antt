-- ===== src/Agent/Summary/Sticky.antt =====
-- upsertSummary and extractSummaryBody of agent/history.go against each other.
use agent_go.Prelude.{
  ℕ, suc, ◌≡◌, refl, ap, ◌∙◌, true, false, not, List, [], ◌∷◌, arith, filter, length, take,
  Bool-cases, inl, inr, All,
}
use agent_go.Text.{
  Text, trim_space, has_prefix-append, trim_prefix-append, trim_space_idem, trim_space_newline,
}
use agent_go.Llm.{Message, is_system}
use agent_go.Agent.Protocol.{IsPaired}
use agent_go.Agent.Protocol.Systems.{filter-IsPaired, insert-IsPaired, IsSystem}
use agent_go.Agent.Spoken.{spoken, spoken-insert, spoken-filter}
use agent_go.Agent.Summary.{
  conversation_summary_marker, is_summary_message, extract_summary_body, summary_message,
  put_summary, summary_position, upsert_summary,
}

summary_message-is_summary : (body : Text) → is_summary_message (summary_message body) ≡ true
unfolding is_summary_message
summary_message-is_summary body =
    has_prefix-append conversation_summary_marker (10 ∷ trim_space body)

-- How many summaries a conversation holds.
abbrev pub summaries : List Message → ℕ
summaries msgs = length (filter is_summary_message msgs)

filter_none : (msgs : List Message) → summaries (filter (λ m. not (is_summary_message m)) msgs) ≡ 0
filter_none [] = refl
filter_none (m ∷ msgs) = elim (Bool-cases (is_summary_message m)) [
  | inl e ↦ rw e (filter_none msgs)
  | inr e ↦ rw e (rw e (filter_none msgs))
]

summaries-put :
    (body : Text) (msgs : List Message)
    → summaries (put_summary (summary_message body) msgs) ≡ suc (summaries msgs)
summaries-put body [] = rw (summary_message-is_summary body)
summaries-put body (m ∷ msgs) = elim (Bool-cases (is_system m.role)) [
  | inl e ↦ rw e (ground (arith, summary_message-is_summary body))
  | inr e ↦ rw e (rw (summary_message-is_summary body))
]

-- After upsertSummary a conversation has exactly one summary message, however many it had.
pub upsert_summary-one :
    (msgs : List Message) (body : Text) → summaries (upsert_summary msgs body) ≡ 1
unfolding upsert_summary
upsert_summary-one msgs body =
    summaries-put body (filter (λ m. not (is_summary_message m)) msgs) ∙ ap suc (filter_none msgs)

extract-put :
    (body : Text) (msgs : List Message)
    → summaries msgs ≡ 0
    → extract_summary_body (put_summary (summary_message body) msgs)
      ≡ extract_summary_body (summary_message body ∷ [])
unfolding extract_summary_body
extract-put body [] h = refl
extract-put body (m ∷ msgs) h = elim (Bool-cases (is_system m.role)) [
  | inl e ↦ rw e (ground (arith, summary_message-is_summary body))
  | inr e ↦ rw e (ground (arith, summary_message-is_summary body))
]

extract_one : (body : Text) → extract_summary_body (summary_message body ∷ []) ≡ trim_space body
unfolding extract_summary_body
extract_one body = rw (summary_message-is_summary body) (
    ap trim_space (trim_prefix-append conversation_summary_marker (10 ∷ trim_space body))
    ∙ trim_space_newline (trim_space body)
    ∙ trim_space_idem body)

-- The summary that extractSummaryBody reads after upsertSummary has put a body into any
-- conversation is this body with the space around it trimmed.
pub extract_summary_body-upsert_summary :
    (msgs : List Message) (body : Text)
    → extract_summary_body (upsert_summary msgs body) ≡ trim_space body
unfolding upsert_summary
extract_summary_body-upsert_summary msgs body =
    extract-put body (filter (λ m. not (is_summary_message m)) msgs) (filter_none msgs)
    ∙ extract_one body

not_summary : (m : Message) → not (is_summary_message m) ≡ false → is_system m.role ≡ true
unfolding is_summary_message
not_summary m h = ground arith

put_summary-IsPaired :
    (body : Text) (msgs : List Message)
    → IsPaired msgs
    → IsPaired (put_summary (summary_message body) msgs)
put_summary-IsPaired body msgs h =
    insert-IsPaired (summary_position msgs) (summary_message body) msgs (front msgs) refl h
  where
    front : (msgs : List Message) → All IsSystem (take (summary_position msgs) msgs)
    front [] = tt
    front (m ∷ msgs) = elim (Bool-cases (is_system m.role)) [
      | inl e ↦ rw e (e, tt)
      | inr e ↦ rw e tt
    ]

pub upsert_summary-IsPaired :
    (msgs : List Message) (body : Text) → IsPaired msgs → IsPaired (upsert_summary msgs body)
unfolding upsert_summary
upsert_summary-IsPaired msgs body h =
    put_summary-IsPaired body _ (filter-IsPaired _ not_summary msgs h)

-- Only system messages change.
pub spoken-upsert_summary :
    (msgs : List Message) (body : Text) → spoken (upsert_summary msgs body) ≡ spoken msgs
unfolding upsert_summary
spoken-upsert_summary msgs body =
    let bare : List Message = filter (λ m. not (is_summary_message m)) msgs in
    spoken-insert (summary_position bare) (summary_message body) bare refl
    ∙ spoken-filter (λ m. not (is_summary_message m)) msgs not_summary
