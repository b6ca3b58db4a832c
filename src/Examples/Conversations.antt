-- ===== src/Examples/Conversations.antt =====
-- Splitting, folding, trimming and summaries, on two short turns.
use agent_go.Prelude.{◌<◌, ◌^◌, ◌≡◌, refl, List, [], ◌∷◌, arith, length}
use agent_go.Prelude.Int.{pos}
use agent_go.Text.{
  Text, codes, trim_space, is_empty, text_eq, to_lower, split_lines, is_blank, is_nil, fields, join,
  replace_newlines,
}
use agent_go.Agent.Turns.{split_user_turns, trim_by_user_turns, count_messages}
use agent_go.Agent.Protocol.{IsPaired, pending}
use agent_go.Agent.Fold.{fold_but}
use agent_go.Agent.Fold.Folding.{Folds, fold_but-Folds}
use agent_go.Agent.Run.Commit.{IsSession, IsCommitted, commit_history-IsCommitted}
use agent_go.Agent.History.{trim_history}
use agent_go.Agent.History.Trimming.{IsTrimmedRest, trim_history-IsTrimmedRest}
use agent_go.Agent.Summary.{
  upsert_summary, extract_summary_body, dedupe_bullets, summary_bullets, summary_header,
}
use agent_go.Agent.Summary.Sticky.{extract_summary_body-upsert_summary}
use agent_go.Agent.Summary.Facts.{summary_draft}
use agent_go.Agent.Clip.{clip_one_line}
use agent_go.Agent.Loop.{commit_history}
use agent_go.Examples.Data.{two_turns, ascii, settings, env, fresh}

two_turns-IsPaired : IsPaired two_turns
unfolding pending text_eq
two_turns-IsPaired = refl

split_two : length (split_user_turns two_turns).1 ≡ 2
unfolding split_user_turns
split_two = refl

trimmed_once : (trim_by_user_turns two_turns (pos 3)).dropped_turns ≡ 1
unfolding trim_by_user_turns count_messages
trimmed_once = refl

fold_but-Folds_example : Folds 1 two_turns (fold_but 1 two_turns).0
fold_but-Folds_example = fold_but-Folds 1 two_turns

two_turns-IsSession : IsSession two_turns
two_turns-IsSession = record { paired = two_turns-IsPaired; start = refl }

trim_history-IsTrimmedRest_example :
    IsTrimmedRest settings two_turns (trim_history settings two_turns 0).0
trim_history-IsTrimmedRest_example =
    trim_history-IsTrimmedRest settings two_turns 0 two_turns-IsPaired refl

commit_history-IsCommitted_example :
    IsCommitted settings env two_turns (commit_history settings env two_turns fresh 0).0.history
commit_history-IsCommitted_example =
    commit_history-IsCommitted settings env two_turns fresh 0 two_turns-IsSession

extract_summary_body-upsert_summary_example :
    extract_summary_body (upsert_summary two_turns (codes " - user: a"))
    ≡ trim_space (codes " - user: a")
extract_summary_body-upsert_summary_example =
    extract_summary_body-upsert_summary two_turns (codes " - user: a")

abbrev three_bullets : List Text
three_bullets = codes "user: a" ∷ codes "USER: a" ∷ codes "user: b" ∷ []

deduped : dedupe_bullets ascii three_bullets ≡ codes "user: a" ∷ codes "user: b" ∷ []
unfolding dedupe_bullets is_empty text_eq trim_space to_lower
deduped = refl

short_draft : length (summary_draft ascii [] two_turns) < 10 ^ 19
unfolding summary_bullets summary_header trim_space is_empty text_eq to_lower split_lines is_blank
    is_nil clip_one_line fields join replace_newlines
short_draft = omega arith
