-- ===== src/Examples/Data.antt =====
-- A small world: conversations, settings, and a model that answers by a script.
use agent_go.Prelude.{
  ℕ, zero, suc, ◌+◌, true, false, ◌&&◌, List, [], ◌∷◌, none, some, if◌then◌else◌, leb, String,
}
use agent_go.Prelude.Int.{pos}
use agent_go.Text.{CaseTables, codes}
use agent_go.Llm.{
  Message, Role, user, assistant, system, tool, text_message, zero_message, ToolCall, Provider,
  zero_usage,
}
use agent_go.Tool.{Tool, Policy, Annotations}
use agent_go.Agent.Settings.{Settings}
use agent_go.Agent.Loop.{Env, Session}

-- The ASCII part of Unicode's tables.
abbrev pub lower_ascii : ℕ → ℕ
lower_ascii c = if leb b'A' c && leb c b'Z' then c + 32 else c

abbrev pub ascii : CaseTables
ascii = record { lower = lower_ascii; fold = lower_ascii }

abbrev pub says : Role → String → Message
says r s = text_message r (codes s)

abbrev pub call_named : String → String → ToolCall
call_named id name = record {
  id = codes id;
  kind = codes "function";
  function = record { name = codes name; arguments = codes "{}" };
}

abbrev pub calling : List ToolCall → Message
calling calls = record zero_message { role = assistant; tool_calls = calls }

abbrev pub result_of : String → String → Message
result_of id s = record zero_message {
  role = tool;
  tool_call_id = codes id;
  name = codes "t";
  content = codes s;
}

-- Two turns, the first with a tool.
abbrev pub two_turns : List Message
two_turns =
    says system "be brief"
    ∷ says user "a"
    ∷ calling (call_named "1" "t" ∷ [])
    ∷ result_of "1" "seven"
    ∷ says assistant "7"
    ∷ says user "b"
    ∷ says assistant "yes"
    ∷ []

-- The world counts the chats.
abbrev pub script : ℕ → Message
script zero = calling (call_named "1" "echo" ∷ call_named "2" "echo" ∷ [])
script (suc n) = says assistant "done"

abbrev pub scripted : Provider ℕ
scripted req w = (record { message = script w; usage = zero_usage }, none, w + 1)

abbrev pub settings : Settings ℕ
settings = record {
  unicode = ascii;
  provider = some scripted;
  streamer = none;
  stream = false;
  tool_names = codes "echo" ∷ [];
  system_prompt = codes "be brief";
  max_turns = pos 4;
  max_tool_result_chars = pos 0;
  max_history_messages = pos 4;
  keep_recent_full_turns = pos 0;
  disable_llm_summary = true;
  summary_min_draft_runes = pos 0;
  session_id = [];
}

abbrev pub no_hints : Annotations
no_hints = record {
  title = [];
  read_only = false;
  destructive = false;
  open_world = false;
  needs_approval = true;
}

abbrev pub echo : Tool ℕ
echo = record { name = codes "echo"; annotations = no_hints; run = λ args w. (args, none, w + 10) }

abbrev pub policy : Policy ℕ
policy = record {
  ctx_err = λ w. none;
  timeout_err = none;
  approver = some (λ a w. (false, none, w + 1));
  redact = none;
  quote = λ t. t;
}

abbrev pub count_down : ℕ → List ℕ
count_down zero = []
count_down (suc n) = n ∷ count_down n

-- The goroutines run last to first.
abbrev pub env : Env ℕ
env = record {
  policy = policy;
  tools = echo ∷ [];
  emit = λ e w. w;
  memory = λ w. none;
  save = λ id msgs w. w;
  forget = λ id w. w;
  load = λ id w. none;
  schedule = λ n w. count_down n;
}

abbrev pub fresh : Session
fresh = record {
  history = [];
  last_usage = zero_usage;
  session_usage = zero_usage;
  running = false;
}
