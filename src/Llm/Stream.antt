-- ===== src/Llm/Stream.antt =====
-- llm/openai_stream.go: the events of a stream, and the message put together from them.
pub mod Assembly
pub mod Reading
pub mod Client
use agent_go.Prelude.{
  ℕ, zero, suc, ◌+◌, Bool, true, false, ◌&&◌, ◌||◌, List, [], ◌∷◌, ◌++◌, Option, none, some,
  if◌then◌else◌, ◌==◌, ltb, ◌⊎◌, inl, inr,
}
use agent_go.Prelude.Int.{ℤ, pos, negsuc}
use agent_go.Text.{Text, codes, is_empty, is_nil, text_eq, has_prefix, trim_prefix, trim_space}
use agent_go.Errors.{Error, new_error, wrap}
use agent_go.Llm.{
  Message, Role, system, user, assistant, tool, other, ToolCall, FunctionCall, Usage, zero_usage,
  zero_message,
}
use agent_go.Llm.Client.{TokenCounts, usage_from, typed_call, api_error}

-- A fragment of a tool call.
pub record CallDelta : Type 0 where
  pub index : ℤ
  pub id : Text
  pub kind : Text
  pub name : Text
  pub arguments : Text

pub record ChunkDelta : Type 0 where
  pub role : Text
  pub content : Text
  pub tool_calls : List CallDelta

-- streamChunk
pub record Chunk : Type 0 where
  pub choices : List ChunkDelta
  pub usage : Option TokenCounts
  pub error : Option Text

-- streamAcc, with its map of calls as a list of pairs
pub record Acc : Type 0 where
  pub role : Text
  pub content : Text
  pub tools : List (ℤ × ToolCall)
  pub usage : Usage

-- newStreamAcc
abbrev pub new_acc : Acc
new_acc = record { role = []; content = []; tools = []; usage = zero_usage }

abbrev pub int_eq : ℤ → ℤ → Bool
int_eq (pos m) (pos n) = m == n
int_eq (negsuc m) (negsuc n) = m == n
int_eq (pos m) (negsuc n) = false
int_eq (negsuc m) (pos n) = false

-- `if new != "" { old = new }`
abbrev pub or_keep : Text → Text → Text
or_keep new old = if is_empty new then old else new

-- What a fragment adds to a call.
abbrev pub extend_call : CallDelta → ToolCall → ToolCall
extend_call d cur = record {
  id = or_keep d.id cur.id;
  kind = or_keep d.kind cur.kind;
  function = record {
    name = or_keep d.name cur.function.name;
    arguments = cur.function.arguments ++ d.arguments;
  };
}

-- `&ToolCall{Type: "function"}`
abbrev pub fresh_call : ToolCall
fresh_call = record {
  id = [];
  kind = codes "function";
  function = record { name = []; arguments = [] };
}

unfoldable pub merge_call : CallDelta → List (ℤ × ToolCall) → List (ℤ × ToolCall)
merge_call d [] = (d.index, extend_call d fresh_call) ∷ []
merge_call d ((i, cur) ∷ m) =
    let rest = merge_call d m in
    if int_eq i d.index then (i, extend_call d cur) ∷ m else (i, cur) ∷ rest

-- `for _, tc := range d.ToolCalls`
unfoldable pub merge_calls : List CallDelta → List (ℤ × ToolCall) → List (ℤ × ToolCall)
merge_calls [] m = m
merge_calls (d ∷ ds) m = merge_calls ds (merge_call d m)

-- `if chunk.Usage != nil { a.usage = … }`, which is computed as usageFrom does
abbrev pub counted : Option TokenCounts → Usage → Usage
counted none u = u
counted (some t) u = usage_from (some t)

module _ {W : Type 0} (on_delta : Option (Text → W → W)) where
  abbrev pub tell : Text → W → W
  tell t w = if is_empty t then w else elim on_delta [ none ↦ w | some f ↦ f t w ]

  abbrev pub apply_delta : List ChunkDelta → Acc → W → Acc × W
  apply_delta [] a w = (a, w)
  apply_delta (d ∷ ds) a w = (
    record a {
      role = or_keep d.role a.role;
      content = a.content ++ d.content;
      tools = merge_calls d.tool_calls a.tools;
    },
    tell d.content w,
  )

  -- (*streamAcc).apply
  unfoldable pub apply_chunk : Chunk → Acc → W → Acc × W
  unfolding usage_from merge_calls
  apply_chunk chunk a w =
      apply_delta chunk.choices (record a { usage = counted chunk.usage a.usage }) w

-- Role(s)
unfoldable pub role_of : Text → Role
role_of s =
    if text_eq s (codes "system")
    then system
    else if text_eq s (codes "user")
    then user
    else if text_eq s (codes "assistant")
    then assistant
    else if text_eq s (codes "tool")
    then tool
    else other s

unfoldable pub find_call : ℤ → List (ℤ × ToolCall) → Option ToolCall
find_call i [] = none
find_call i ((j, c) ∷ m) = if int_eq j i then some c else find_call i m

abbrev pub raised : ℤ → ℕ → ℕ
raised (negsuc n) top = top
raised (pos n) top = if ltb n top then top else suc n

-- `max + 1`, where max is the highest index, or -1
unfoldable pub index_bound : List (ℤ × ToolCall) → ℕ
index_bound [] = 0
index_bound ((i, c) ∷ m) = raised i (index_bound m)

-- `for i := 0; i <= max; i++`, with `left` indexes to go
abbrev pub collect : (ℤ → Option ToolCall) → ℕ → ℕ → List ToolCall
collect at i zero = []
collect at i (suc left) =
    let rest = collect at (suc i) left in
    elim (at (pos i)) [ none ↦ rest | some c ↦ typed_call c ∷ rest ]

-- (*streamAcc).message, for indexes that the process can allocate
unfoldable pub acc_message : Acc → Message
unfolding role_of find_call index_bound
acc_message a = record zero_message {
  role = if is_empty a.role then assistant else role_of a.role;
  content = a.content;
  tool_calls = collect (λ i. find_call i a.tools) 0 (index_bound a.tools);
}

-- The lines that the scanner gives, each with what its Err would be then, and its Err at the end.
pub record Body : Type 0 where
  pub lines : List (Text × Option Error)
  pub err : Option Error

abbrev pub is_event : Text → Bool
is_event l = has_prefix (trim_space l) (codes "data:")

abbrev pub payload : Text → Text
payload l = trim_space (trim_prefix (trim_space l) (codes "data:"))

module _ {W : Type 0} where
  abbrev pub read_result : (Acc ⊎ Error) × W → Message × Usage × Option Error × W
  read_result (inl a, w) = (acc_message a, a.usage, none, w)
  read_result (inr e, w) = (zero_message, zero_usage, some e, w)

module _ {W : Type 0} (decode : Text → Chunk ⊎ Error) (on_delta : Option (Text → W → W)) where
  abbrev pub scanned : Option Error → Acc → W → (Acc ⊎ Error) × W
  scanned none a w = (inl a, w)
  scanned (some e) a w = (inr (wrap (codes "llm: stream: ") e), w)

  -- `for sc.Scan()`. A line that starts with ":" does not start with "data:".
  unfoldable pub read_lines :
      List (Text × Option Error) → Option Error → Acc → W → (Acc ⊎ Error) × W
  unfolding apply_chunk
  read_lines [] err a w = scanned err a w
  read_lines ((l, now) ∷ ls) err a w =
      let rest = read_lines ls err in
      elim (is_event l) [
        | false ↦ rest a w
        | true ↦ elim (text_eq (payload l) (codes "[DONE]")) [
          | true ↦ scanned now a w
          | false ↦ elim (decode (payload l)) [
            | inr e ↦ (inr (wrap (codes "llm: stream unmarshal: ") e), w)
            | inl chunk ↦ elim (api_error chunk.error) [
              | some m ↦ (inr (new_error (codes "llm: api error: " ++ m)), w)
              | none ↦ let (b, v) = apply_chunk on_delta chunk a w in rest b v
            ]
          ]
        ]
      ]

  -- readSSE
  unfoldable pub read_sse : Body → W → Message × Usage × Option Error × W
  unfolding read_lines acc_message
  read_sse body w = read_result (read_lines body.lines body.err new_acc w)
