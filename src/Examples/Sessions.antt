-- ===== src/Examples/Sessions.antt =====
-- A run over a Memory, and the names of sessions.
use agent_go.Prelude.{List, ◌∷◌, ℕ, ◌≡◌, refl, Bool, true, false, ◌&&◌, ◌||◌, [], none, some, leb}
use agent_go.Prelude.Int.{pos}
use agent_go.Text.{Text, codes}
use agent_go.Llm.{Provider, zero_usage, assistant}
use agent_go.Agent.Settings.{Settings}
use agent_go.Agent.Loop.{Env, Session, Outcome}
use agent_go.Agent.Run.{run, restore_session}
use agent_go.Session.{Memory, path, ok, all_safe, normalize_id, file_load, memory_load}
use agent_go.Session.Filed.{Call, saves, deletes, on_both, file_load-eq-memory_load}
use agent_go.Text.Table
use agent_go.Errors.{new_error}
use agent_go.Session
use agent_go.Docs.Paths.{clean, walk_path}
use agent_go.Session.Laws.{with_memory, with_memory-HasStore}
use agent_go.Session.Restore.{restore_session-run}
use agent_go.Session.Names.{IsInside, path-IsInside}
use agent_go.Examples.Data.{ascii, says, fresh}

abbrev answering : Provider Memory
answering req w = (record { message = says assistant "done"; usage = zero_usage }, none, w)

abbrev memory_settings : Settings Memory
memory_settings = record {
  unicode = ascii;
  provider = some answering;
  streamer = none;
  stream = false;
  tool_names = [];
  system_prompt = codes "be brief";
  max_turns = pos 4;
  max_tool_result_chars = pos 0;
  max_history_messages = pos 0;
  keep_recent_full_turns = pos 0;
  disable_llm_summary = true;
  summary_min_draft_runes = pos 0;
  session_id = codes "s_1";
}

abbrev memory_env : Env Memory
memory_env = with_memory (record {
  policy = record {
    ctx_err = λ w. none;
    timeout_err = none;
    approver = none;
    redact = none;
    quote = λ t. t;
  };
  tools = [];
  emit = λ e w. w;
  memory = λ w. none;
  save = λ id msgs w. w;
  forget = λ id w. w;
  load = λ id w. none;
  schedule = λ n w. [];
})

abbrev ran : Outcome × Session × Memory
ran = run memory_settings memory_env [] (codes "hi") fresh []

restore_session-run_example :
    restore_session memory_settings memory_env fresh ran.2
    ≡ (none, record fresh { history = ran.1.history })
unfolding run agent_go.Text.is_blank
restore_session-run_example =
    restore_session-run memory_settings memory_env (with_memory-HasStore memory_env) [] (codes "hi")
      (codes "done") fresh ran.1 fresh [] ran.2 refl

-- The letters and digits of ASCII
abbrev ascii_word : ℕ → Bool
ascii_word c = (leb 48 c && leb c 57) || (leb 65 c && leb c 90) || (leb 97 c && leb c 122)

abbrev file : Text
file = codes "/data/s_1.json"

file_path : path ascii_word (codes "/data/./x/..") (codes " s_1 ") ≡ ok file
unfolding path agent_go.Session.file_of clean walk_path agent_go.Docs.Paths.segments
    agent_go.Text.is_empty agent_go.Text.is_nil agent_go.Text.trim_space agent_go.Text.text_eq
    agent_go.Text.has_prefix agent_go.Text.join
file_path = refl

path-IsInside_example : IsInside ascii_word (codes "/data/./x/..") (codes " s_1 ") file
path-IsInside_example =
    path-IsInside ascii_word (codes "/data/./x/..") (codes " s_1 ") file refl file_path

relative_path : path ascii_word (codes "./data/") (codes "s_1") ≡ ok (codes "data/s_1.json")
unfolding path agent_go.Session.file_of clean walk_path agent_go.Docs.Paths.segments
    agent_go.Text.is_empty agent_go.Text.is_nil agent_go.Text.trim_space agent_go.Text.text_eq
    agent_go.Text.has_prefix agent_go.Text.join
relative_path = refl

-- A session is saved, saved again under its other spelling, and saved in vain; an id is refused.
abbrev calls : List Call
calls =
    saves (codes "s_1") [] none none
    ∷ saves (codes " s_1 ") (says assistant "a" ∷ []) none none
    ∷ saves (codes "../x") [] none none
    ∷ saves (codes "s_1") [] none (some (new_error (codes "disk full")))
    ∷ deletes (codes "s_2") none
    ∷ []

file_load-eq-memory_load_example :
    file_load ascii_word
      (codes "./data")
      (codes "s_1")
      (on_both ascii_word (codes "./data") calls [] []).0
    ≡ ok (memory_load (codes "s_1") (on_both ascii_word (codes "./data") calls [] []).1)
unfolding all_safe normalize_id agent_go.Text.is_blank agent_go.Text.is_empty
    agent_go.Text.trim_space
file_load-eq-memory_load_example =
    file_load-eq-memory_load ascii_word (codes "./data") refl calls (codes "s_1") refl refl

loaded_again :
    memory_load (codes "s_1") (on_both ascii_word (codes "./data") calls [] []).1
    ≡ says assistant "a" ∷ []
unfolding all_safe normalize_id memory_load on_both path agent_go.Session.file_of clean walk_path
    agent_go.Docs.Paths.segments agent_go.Text.is_empty agent_go.Text.is_blank agent_go.Text.is_nil
    agent_go.Text.trim_space agent_go.Text.text_eq agent_go.Text.has_prefix agent_go.Text.join
    agent_go.Text.Table.lookup agent_go.Text.Table.insert agent_go.Text.Table.delete
loaded_again = refl
