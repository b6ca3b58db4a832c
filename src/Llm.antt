-- ===== src/Llm.antt =====
-- llm/types.go: messages, requests, responses and token accounting.
pub mod Accounting
pub mod Router
pub mod Client
pub mod Retry
pub mod Stream
use agent_go.Prelude.{Bool, true, false, List, [], Option}
use agent_go.Text.{Text}
use agent_go.Errors.{Error}
pub use Accounting.{Usage, zero_usage}
unfoldable pub use Accounting.{add_usage}

-- A role is a string; `other` is any that the package does not name.
pub data Role : Type 0 where
  system user assistant tool : Role
  other : Text → Role

pub record FunctionCall : Type 0 where
  pub name : Text
  pub arguments : Text

pub record ToolCall : Type 0 where
  pub id : Text
  pub kind : Text
  pub function : FunctionCall

pub record Message : Type 0 where
  pub role : Role
  pub content : Text
  pub tool_calls : List ToolCall
  pub tool_call_id : Text
  pub name : Text

pub data Purpose : Type 0 where
  chat summary : Purpose

-- The tool definitions go to the model only, and are named here by the tools they describe.
pub record Request : Type 0 where
  pub model : Text
  pub messages : List Message
  pub tools : List Text
  pub purpose : Purpose

pub record Response : Type 0 where
  pub message : Message
  pub usage : Usage

-- A backend acts on a world `W` and returns a response with an optional error, as Go does.
abbrev pub Provider : Type 0 → Type 0
Provider W = Request → W → Response × Option Error × W

abbrev pub is_user : Role → Bool
is_user user = true
is_user _ = false

abbrev pub is_system : Role → Bool
is_system system = true
is_system _ = false

abbrev pub zero_message : Message
zero_message = record {
  role = other [];
  content = [];
  tool_calls = [];
  tool_call_id = [];
  name = [];
}

-- A message with a role and a text alone.
abbrev pub text_message : Role → Text → Message
text_message r t = record zero_message { role = r; content = t }

abbrev pub zero_response : Response
zero_response = record { message = zero_message; usage = zero_usage }
