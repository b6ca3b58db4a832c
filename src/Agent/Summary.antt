-- ===== src/Agent/Summary.antt =====
-- The sticky [conversation_summary] message of agent/history.go: where it stands, what its text is
-- made of, and how an old one is read back.
pub mod Sticky
pub mod Facts
use agent_go.Prelude.{
  ℕ, ◌≡◌, Bool, true, false, ◌&&◌, ◌||◌, not, List, [], ◌∷◌, ◌++◌, if◌then◌else◌, filter, length,
  take, drop, ltb, keep_last, any, leb,
}
use agent_go.Prelude.Int.{pos}
use agent_go.Text.{
  Text, codes, has_prefix, trim_prefix, trim_space, split_lines, is_empty, is_nil, text_eq,
  to_lower, is_blank, CaseTables,
}
use agent_go.Llm.{Message, Role, system, user, assistant, tool, other, is_system, text_message}
use agent_go.Agent.Clip.{clip_one_line, truncate_at}

unfoldable pub conversation_summary_marker : Text
conversation_summary_marker = codes "[conversation_summary]"

abbrev pub max_summary_bullets : ℕ
max_summary_bullets = 12

abbrev pub default_max_summary_runes : ℕ
default_max_summary_runes = 512

-- isSummaryMessage
unfoldable pub is_summary_message : Message → Bool
is_summary_message m = is_system m.role && has_prefix m.content conversation_summary_marker

-- extractSummaryBody
unfoldable pub extract_summary_body : List Message → Text
extract_summary_body [] = []
extract_summary_body (m ∷ msgs) =
    if is_summary_message m
    then trim_space (trim_prefix m.content conversation_summary_marker)
    else extract_summary_body msgs

abbrev pub summary_message : Text → Message
summary_message body = text_message system (conversation_summary_marker ++ 10 ∷ trim_space body)

-- `filtered[0].Role == llm.RoleSystem`
abbrev pub summary_position : List Message → ℕ
summary_position [] = 0
summary_position (m ∷ msgs) = if is_system m.role then 1 else 0

abbrev pub put_summary : Message → List Message → List Message
put_summary sum filtered =
    let n = summary_position filtered in take n filtered ++ sum ∷ drop n filtered

-- upsertSummary
unfoldable pub upsert_summary : List Message → Text → List Message
upsert_summary msgs body =
    put_summary (summary_message body) (filter (λ m. not (is_summary_message m)) msgs)

-- parseSummaryBullets: the two headers that a body may start with
unfoldable pub summary_header : Text
summary_header = codes "Lossy memory of trimmed turns (not full transcript). Prefer these facts:"

unfoldable pub legacy_header : Text
legacy_header = codes "Earlier turns were removed to free context. Retain these facts:"

unfoldable pub bullet_lines : List Text → List Text
bullet_lines [] = []
bullet_lines (line ∷ lines) =
    let t = trim_space line in
    let bullet = trim_space (trim_prefix t (codes "- ")) in
    let rest = bullet_lines lines in
    if is_empty t then rest else if is_empty bullet then rest else bullet ∷ rest

unfoldable pub parse_summary_bullets : Text → List Text
unfolding bullet_lines
parse_summary_bullets body =
    let b = trim_space body in
    let c = trim_space (trim_prefix b summary_header) in
    let d = trim_space (trim_prefix c legacy_header) in
    if is_empty b then [] else bullet_lines (split_lines d)

-- formatFact; the limit is maxFactRunes
unfoldable pub format_fact : Text → Text → Text
format_fact kind content =
    let t = clip_one_line content 64 in if is_empty t then [] else kind ++ (codes ": " ++ t)

abbrev pub add_fact : Text → List Text → List Text
add_fact f rest = if is_empty f then rest else f ∷ rest

-- `if name == "" { name = "tool" }`
abbrev pub tool_label : Text → Text
tool_label name = if is_empty name then codes "tool" else name

-- The fact of one message, or the empty text.
unfoldable pub fact_of : Role → Message → Text
unfolding format_fact
fact_of user m = format_fact (codes "user") m.content
fact_of tool m = format_fact (codes "tool:" ++ tool_label m.name) m.content
fact_of assistant m =
    if not (is_nil m.tool_calls) && is_blank m.content
    then []
    else if ltb 80 (length (trim_space m.content))
    then []
    else format_fact (codes "asst") m.content
fact_of system m = []
fact_of (other r) m = []

-- factsFromDropped
unfoldable pub facts_from_dropped : List Message → List Text
unfolding fact_of
facts_from_dropped [] = []
facts_from_dropped (m ∷ msgs) = add_fact (fact_of m.role m) (facts_from_dropped msgs)

module _ (u : CaseTables) where
  -- The key under which dedupeBullets remembers a bullet.
  unfoldable pub bullet_key : Text → Text
  bullet_key b = to_lower u (trim_space b)

  -- dedupeBullets, with the keys seen so far
  unfoldable pub dedupe_from : List Text → List Text → List Text
  unfolding bullet_key
  dedupe_from seen [] = []
  dedupe_from seen (b ∷ bs) =
      let key = bullet_key b in
      let skip = is_empty key || any (text_eq key) seen in
      let rest = dedupe_from (if skip then seen else key ∷ seen) bs in
      if skip then rest else b ∷ rest

  unfoldable pub dedupe_bullets : List Text → List Text
  unfolding dedupe_from
  dedupe_bullets bs = dedupe_from [] bs

  abbrev pub bullet_text : List Text → Text
  bullet_text [] = []
  bullet_text (b ∷ bs) = codes "- " ++ (b ++ 10 ∷ bullet_text bs)

  -- The bullets of the next summary, the newest twelve.
  unfoldable pub summary_bullets : Text → List Message → List Text
  unfolding parse_summary_bullets facts_from_dropped dedupe_bullets
  summary_bullets prev dropped =
      keep_last max_summary_bullets
        (dedupe_bullets (parse_summary_bullets prev ++ facts_from_dropped dropped))

  -- buildConversationSummary
  unfoldable pub build_conversation_summary : Text → List Message → Text
  unfolding summary_bullets
  build_conversation_summary prev dropped =
      (truncate_at (trim_space (summary_header ++ 10 ∷ bullet_text (summary_bullets prev dropped)))
        default_max_summary_runes).0
