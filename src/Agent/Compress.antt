-- ===== src/Agent/Compress.antt =====
-- agent/summary_llm.go: a draft summary may be shortened by the model, and falls back on itself.
use agent_go.Prelude.{
  ℕ, zero, suc, ◌+◌, ◌^◌, ◌≤◌, ◌<◌, ◌≡◌, refl, Bool, true, false, ◌&&◌, not, Option, none, some,
  List, [], ◌∷◌, ◌++◌, arith, if◌then◌else◌, ltb, leb, length, Bool-cases, inl, inr, length-append,
  ltb→le,
}
use agent_go.Prelude.Int.{ℤ, pos, negsuc}
use agent_go.Text.{Text, codes, trim_space, is_empty, contains, has_prefix}
use agent_go.Errors.{Error}
use agent_go.Llm.{Message, Provider, Request, Response, summary, system, user, text_message}
use agent_go.Agent.Settings.{Settings}
use agent_go.Agent.Clip.{truncate_at, length-truncate_at}
use agent_go.Agent.Summary.{build_conversation_summary, default_max_summary_runes}
use agent_go.Agent.Summary.Facts.{summary_draft, length-build_conversation_summary}

abbrev pub default_summary_min_draft_runes : ℕ
default_summary_min_draft_runes = 180

unfoldable pub compress_prompt : Text
compress_prompt =
    codes
      "You compress agent MEMORY drafts. Output ONLY short bullet facts (max 8 lines).\nRules:\n- Keep identity, preferences, decisions, tool-recorded notes, numbers.\n- Drop greetings, process chatter, and redundancy.\n- Do NOT invent facts. If unsure, omit.\n- Prefer compact form like \"- name: 小明\" / \"- like: 梨\".\n- Match the language of the draft (Chinese if draft is Chinese).\n- Total length under 400 characters."

unfoldable pub compressed_header : Text
compressed_header = codes "Lossy memory of trimmed turns (LLM-compressed):\n"

-- The header is put in front of bullets, and of bare lines with no header of their own.
abbrev pub with_header : Text → Text
with_header out =
    if not (contains out (codes "Lossy memory")) && not (has_prefix out (codes "-"))
    then compressed_header ++ out
    else if has_prefix out (codes "-")
    then compressed_header ++ out
    else out

-- What compressSummaryLLM makes of the model's answer; `none` is an error.
unfoldable pub accept_summary : Text → Option Text
accept_summary content =
    let out = trim_space content in
    if is_empty out
    then none
    else if ltb (default_max_summary_runes + default_max_summary_runes) (length out)
    then none
    else some (truncate_at (with_header out) default_max_summary_runes).0

abbrev compress_request : Text → Request
compress_request draft = record {
  messages =
      text_message system compress_prompt
      ∷ text_message user (codes "Compress this memory draft:\n\n" ++ draft)
      ∷ [];
  tools = [];
  purpose = summary;
  model = [];
}

abbrev reaches_min : ℤ → Text → Bool
reaches_min (negsuc n) draft = false
reaches_min (pos zero) draft = leb default_summary_min_draft_runes (length draft)
reaches_min (pos (suc n)) draft = leb (suc n) (length draft)

length-with_header : (out : Text) → length out ≤ 1024 → length (with_header out) < 10 ^ 19
unfolding compressed_header
length-with_header out h = ground (arith, length-append compressed_header out)

length-accept_summary : (content t : Text) → accept_summary content ≡ some t → length t ≤ 512
unfolding accept_summary
length-accept_summary content t e =
    let out : Text = trim_space content in
    let bound = length-with_header out in
    let cut = length-truncate_at (with_header out) 512 18 in
    elim (Bool-cases (ltb 1024 (length out))) [
      | inl big ↦ ground arith
      | inr small ↦
          let kept : length (truncate_at (with_header out) 512).0 ≤ 512 =
            cut (bound (ltb→le _ _ small)) (omega arith) in
          ground arith
    ]

module _ {W : Type 0} where
  abbrev read_answer : Response × Option Error × W → Option Text × W
  read_answer (resp, some e, w) = (none, w)
  read_answer (resp, none, w) = (accept_summary resp.message.content, w)

  -- compressSummaryLLM; the text of the error goes to the log alone
  unfoldable pub compress_summary_llm : Option (Provider W) → Text → W → Option Text × W
  unfolding accept_summary
  compress_summary_llm none draft w = (none, w)
  compress_summary_llm (some chat) draft w =
      let d = trim_space draft in
      if is_empty d then (none, w) else read_answer (chat (compress_request d) w)

  abbrev is_some_provider : Option (Provider W) → Bool
  is_some_provider none = false
  is_some_provider (some p) = true

  -- shouldLLMSummary
  unfoldable pub should_llm_summary : Settings W → Text → Bool
  should_llm_summary c draft =
      is_some_provider c.provider
      && not c.disable_llm_summary
      && reaches_min c.summary_min_draft_runes draft

  abbrev or_draft : Text → Option Text × W → Text × W
  or_draft draft (some out, w) = (out, w)
  or_draft draft (none, w) = (draft, w)

  -- finalizeSummary
  unfoldable pub finalize_summary : Settings W → Text → List Message → W → Text × W
  unfolding should_llm_summary compress_summary_llm
  finalize_summary c prev dropped w =
      let draft = build_conversation_summary c.unicode prev dropped in
      if should_llm_summary c draft
      then or_draft draft (compress_summary_llm c.provider draft w)
      else (draft, w)

  length-or_draft :
      (draft : Text) (r : Option Text × W)
      → length draft ≤ 512
      → ((t : Text) → r.0 ≡ some t → length t ≤ 512)
      → length (or_draft draft r).0 ≤ 512
  length-or_draft draft (some out, w) h k = k out refl
  length-or_draft draft (none, w) h k = h

  length-compress :
      (p : Option (Provider W)) (draft : Text) (w : W) (t : Text)
      → (compress_summary_llm p draft w).0 ≡ some t
      → length t ≤ 512
  unfolding compress_summary_llm
  length-compress none draft w t e = cc
  length-compress (some chat) draft w t e =
      let answer : Response × Option Error × W = chat (compress_request (trim_space draft)) w in
      elim (Bool-cases (is_empty (trim_space draft))) [
        | inl b ↦ absurd (cc (rw b at e))
        | inr b ↦ read answer (rw b at e)
      ]
    where
      read : (r : Response × Option Error × W) → (read_answer r).0 ≡ some t → length t ≤ 512
      read (resp, some x, w) h = cc
      read (resp, none, w) h = length-accept_summary resp.message.content t h

  -- If the summary before it is cut has fewer than 10^19 runes, then the summary that
  -- finalizeSummary returns has at most 512 runes, whether it is the draft or the model's answer.
  pub length-finalize_summary :
      (c : Settings W) (prev : Text) (dropped : List Message) (w : W)
      → length (summary_draft c.unicode prev dropped) < 10 ^ 19
      → length (finalize_summary c prev dropped w).0 ≤ 512
  unfolding finalize_summary
  length-finalize_summary c prev dropped w h =
      let draft : Text = build_conversation_summary c.unicode prev dropped in
      let short = length-build_conversation_summary c.unicode prev dropped h in
      elim (Bool-cases (should_llm_summary c draft)) [
        | inl b ↦ rw b (length-or_draft draft _ short (length-compress c.provider draft w))
        | inr b ↦ rw b short
      ]
