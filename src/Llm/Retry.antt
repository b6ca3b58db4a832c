-- ===== src/Llm/Retry.antt =====
-- llm/openai.go: the waits between tries, and the loop of Chat.
pub mod Waits
pub mod Persistence
use agent_go.Prelude.{
  ℕ, zero, suc, ◌+◌, ◌-◌, ◌*◌, ◌^◌, ◌≤◌, ◌<◌, ◌≡◌, refl, sym, ◌∙◌, ap, Bool, true, false, ◌&&◌, not,
  Option, none, some, if◌then◌else◌, ltb, leb, ◌==◌, ◌||◌, arith, min, Bool-cases, Option-cases,
  inl, inr, ltb→lt, ltb→le,
}
use agent_go.Text.{Text, codes, is_empty}
use agent_go.Errors.{Error, new_error, wrap}
use agent_go.Llm.{Request, Response, zero_response}
use agent_go.Llm.Client.{
  Client, Tried, Exchange, is_refusal, is_retryable_status, read_exchange, do_chat, attempts,
  http_status_error, usage_only, retry_budget, is_none,
}

-- 200ms and 2s in nanoseconds.
abbrev first_wait : ℕ
first_wait = 200000000

abbrev longest_wait : ℕ
longest_wait = 2000000000

-- `for i := 0; i < attempt && d < 2*time.Second; i++ { d *= 2 }`, for the rounds that are left
unfoldable pub doubled : ℕ → ℕ → ℕ
doubled zero d = d
doubled (suc rounds) d = let rest = doubled rounds (d * 2) in if ltb d longest_wait then rest else d

unfoldable pub backoff : ℕ → ℕ
unfolding doubled
backoff attempt =
    let d = doubled attempt first_wait in if ltb longest_wait d then longest_wait else d

module _ {W : Type 0} (c : Client W) where
  -- `lastErr` where the loop or the context ends it
  abbrev ended : Option Error → Error → Error
  ended none e = e
  ended (some last) e = last

  -- What follows a try: `last` in the last round, `again` what the loop does after the wait.
  unfoldable pub after_try :
      Bool
      → (Response → Error → W → Response × Option Error × W)
      → Tried × W
      → Response × Option Error × W
  after_try last again ((resp, retry, none), w) = (resp, none, w)
  after_try last again ((resp, retry, some e), w) =
      if not retry || last then (resp, some e, w) else elim (c.ctx_err w) [
        | some over ↦ (resp, some (wrap (codes "llm: ") over), w)
        | none ↦ again resp e w
      ]

  -- The loop of Chat and of ChatStream, over one try, with `left` rounds to go, and the last of them
  -- when `attempt == attempts-1`. ChatStream drops the response of a failed try, which is empty.
  unfoldable pub try_loop :
      (W → Tried × W) → ℕ → ℕ → Response → Option Error → W → Response × Option Error × W
  unfolding after_try
  try_loop shot zero attempt last_resp last w =
      (last_resp, some (ended last (new_error (codes "llm: exhausted retries"))), w)
  try_loop shot (suc left) attempt last_resp last w =
      let next = try_loop shot left (suc attempt) in
      elim (c.ctx_err w) [
        | some e ↦ (zero_response, some (ended last (wrap (codes "llm: ") e)), w)
        | none ↦
            after_try (left == 0) (λ resp e w1. next resp (some e) (c.pause (backoff attempt) w1))
              (shot w)
      ]

  -- `model := req.Model; if model == "" { model = o.Model }`
  abbrev pub model_of : Request → Text
  model_of req = if is_empty req.model then c.model else req.model

  -- (*OpenAI).Chat
  unfoldable pub chat_client : Request → W → Response × Option Error × W
  unfolding try_loop attempts do_chat
  chat_client req w =
      if is_empty (model_of req)
      then (zero_response, some (new_error (codes "llm: model is required")), w)
      else elim (c.encode (model_of req) req) [
        | inr e ↦ (zero_response, some (wrap (codes "llm: marshal request: ") e), w)
        | inl body ↦ try_loop (do_chat c body) (attempts c) 0 zero_response none w
      ]
