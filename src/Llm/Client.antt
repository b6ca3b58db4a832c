-- ===== src/Llm/Client.antt =====
-- llm/openai.go: one request to an endpoint, and the loop that tries again.
use agent_go.Prelude.{
  ℕ, ◌-◌, Bool, true, false, ◌&&◌, ◌||◌, List, [], ◌∷◌, ◌++◌, map, Option, none, some,
  if◌then◌else◌, ltb, leb, ◌==◌, ◌⊎◌,
}
use agent_go.Prelude.Int.{ℤ, pos, negsuc, is_positive, add_word}
use agent_go.Text.{Text, codes, is_empty, rune_bytes, byte_length}
use agent_go.Errors.{Error, new_error, wrap, of_status}
use agent_go.Llm.{
  Message, ToolCall, Request, Response, Usage, zero_usage, zero_message, zero_response,
}

-- The `usage` object of a reply.
pub record TokenCounts : Type 0 where
  pub prompt_tokens : ℕ
  pub completion_tokens : ℕ
  pub total_tokens : ℕ

-- chatCompletionsResponse
pub record Completion : Type 0 where
  pub choices : List Message
  pub usage : Option TokenCounts
  pub error : Option Text

-- What HTTPClient.Do and io.ReadAll give: no reply, a body that breaks off, or a whole body.
pub data Exchange : Type 0 where
  unsent : Error → Exchange
  broken : ℕ → Error → Exchange
  received : ℕ → Text → Exchange

-- A decoder fills what it can before it fails.
abbrev pub Decoder : Type 0
Decoder = Text → Completion × Option Error

-- OpenAI with what it calls: `encode` is json.Marshal of the request for a model, `prepare` is the
-- error of http.NewRequestWithContext, `send` is the exchange, `pause` is Sleep in nanoseconds.
pub record Client (W : Type 0) : Type 0 where
  pub model : Text
  pub max_retries : ℤ
  pub encode : Text → Request → Text ⊎ Error
  pub prepare : Option Error
  pub send : Text → W → Exchange × W
  pub decode : Decoder
  pub pause : ℕ → W → W
  pub ctx_err : W → Option Error

-- usageFrom, for the pointer `parsed.Usage`
unfoldable pub usage_from : Option TokenCounts → Usage
usage_from none = zero_usage
usage_from (some t) =
    let no_total = t.total_tokens == 0 in
    let counted = is_positive t.prompt_tokens || is_positive t.completion_tokens in
    record {
      prompt_tokens = t.prompt_tokens;
      completion_tokens = t.completion_tokens;
      total_tokens =
          if no_total && counted
          then add_word t.prompt_tokens t.completion_tokens
          else t.total_tokens;
      calls = 1;
    }

-- `s[:n]`, less a character that the cut splits.
abbrev pub first_bytes : ℕ → Text → Text
first_bytes n [] = []
first_bytes n (c ∷ s) =
    let rest = first_bytes (n - rune_bytes c) s in if leb (rune_bytes c) n then c ∷ rest else []

unfoldable pub truncate : Text → ℕ → Text
unfolding byte_length
truncate s n = if leb (byte_length s) n then s else first_bytes n s ++ codes "..."

-- isRetryableStatus
unfoldable pub is_retryable_status : ℕ → Bool
is_retryable_status code = code == 429 || leb 500 code

-- `parsed.Error != nil && parsed.Error.Message != ""`
abbrev pub api_error : Option Text → Option Text
api_error none = none
api_error (some m) = if is_empty m then none else some m

abbrev pub parsed_error : Completion × Option Error → Option Text
parsed_error (parsed, some e) = none
parsed_error (parsed, none) = api_error parsed.error

-- httpStatusError
unfoldable pub http_status_error : Decoder → ℕ → Text → Error
unfolding truncate
http_status_error decode code raw = of_status (record {
  status = code;
  msg = elim (parsed_error (decode raw)) [ some m ↦ m | none ↦ truncate raw 500 ];
})

-- The type of a tool call that has none.
abbrev pub typed_call : ToolCall → ToolCall
typed_call c = if is_empty c.kind then record c { kind = codes "function" } else c

-- What doChat returns: the response, whether to try again, and the error.
abbrev pub Tried : Type 0
Tried = Response × Bool × Option Error

abbrev pub usage_only : Completion → Response
usage_only parsed = record { message = zero_message; usage = usage_from parsed.usage }

-- A 2xx body that decodes.
abbrev pub read_choices : Completion → List Message → Tried
read_choices parsed [] = (usage_only parsed, false, some (new_error (codes "llm: empty choices")))
read_choices parsed (m ∷ ms) = (
  record {
    message = record m { tool_calls = map typed_call m.tool_calls };
    usage = usage_from parsed.usage;
  },
  false,
  none,
)

abbrev pub unmarshal_error : Text → Error → Error
unmarshal_error raw e = record e {
  text = codes "llm: unmarshal: " ++ (e.text ++ (10 ∷ codes "body: " ++ truncate raw 500));
}

-- A 2xx body.
unfoldable pub read_completion : Text → Completion × Option Error → Tried
read_completion raw (parsed, some e) = (zero_response, false, some (unmarshal_error raw e))
read_completion raw (parsed, none) = elim (api_error parsed.error) [
  | some m ↦ (usage_only parsed, false, some (new_error (codes "llm: api error: " ++ m)))
  | none ↦ read_choices parsed parsed.choices
]

abbrev pub is_none : Option Error → Bool
is_none none = true
is_none (some e) = false

abbrev pub is_refusal : ℕ → Bool
is_refusal code = ltb code 200 || leb 300 code

module _ {W : Type 0} (c : Client W) where
  -- doChat, after the exchange
  unfoldable pub read_exchange : Exchange → W → Tried
  unfolding read_completion http_status_error is_retryable_status
  read_exchange (unsent e) w =
      (zero_response, is_none (c.ctx_err w), some (wrap (codes "llm: http: ") e))
  read_exchange (broken code e) w = (
    zero_response,
    is_none (c.ctx_err w) && is_retryable_status code,
    some (wrap (codes "llm: read body: ") e),
  )
  read_exchange (received code raw) w = elim (is_refusal code) [
    | true ↦ (
      usage_only (c.decode raw).0,
      is_retryable_status code,
      some (http_status_error c.decode code raw),
    )
    | false ↦ read_completion raw (c.decode raw)
  ]

  unfoldable pub do_chat : Text → W → Tried × W
  unfolding read_exchange
  do_chat body w = elim c.prepare [
    | some e ↦ ((zero_response, false, some e), w)
    | none ↦ let (x, w1) = c.send body w in (read_exchange x w1, w1)
  ]

  -- retryBudget
  unfoldable pub retry_budget : ℕ
  retry_budget = elim c.max_retries [ negsuc n ↦ 0 | pos n ↦ if n == 0 then 2 else n ]

  -- How often the loop may go round: `attempts` is an int, and wraps.
  unfoldable pub attempts : ℕ
  unfolding retry_budget
  attempts = let n = add_word 1 retry_budget in if is_positive n then n else 0
