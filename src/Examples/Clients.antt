-- ===== src/Examples/Clients.antt =====
-- An endpoint that is out of order once and then answers, for llm/openai.go and openai_stream.go.
use agent_go.Prelude.{
  ℕ, suc, ◌+◌, ◌≤◌, ◌≡◌, refl, List, [], ◌∷◌, ◌++◌, none, some, arith, inl, ◌⊎◌, zero,
}
use agent_go.Prelude.Int.{pos, add_word, is_positive}
use agent_go.Text.{
  Text, codes, has_prefix, trim_space, trim_prefix, text_eq, is_empty, byte_length, is_space,
}
use agent_go.Errors.{Error, new_error, of_status}
use agent_go.Llm.{zero_usage, text_message, assistant}
use agent_go.Llm.Client.{
  Client, Exchange, received, Completion, attempts, retry_budget, do_chat, read_exchange,
  read_completion, usage_from, is_retryable_status, http_status_error,
}
use agent_go.Llm.Retry.{chat_client}
use agent_go.Llm.Retry.Persistence.{Failing, chat_client-persists, chat_client-counts}
use agent_go.Llm.Stream.{Chunk, Body, read_sse}
use agent_go.Llm.Stream.Reading.{Streams, told-read_sse}
use agent_go.Llm.Stream.Client.{StreamClient, StreamReply, opened, unsent}
use agent_go.Examples.Runs.{request}

abbrev hello : Completion
hello = record { choices = text_message assistant (codes "hello") ∷ []; usage = none; error = none }

abbrev endpoint : Text → ℕ → Exchange × ℕ
endpoint body zero = (received 503 (codes "busy"), 1)
endpoint body (suc n) = (received 200 (codes "{}"), suc (suc n))

abbrev client : Client ℕ
client = record {
  model = codes "m";
  max_retries = pos 0;
  encode = λ m req. inl m;
  prepare = none;
  send = endpoint;
  decode = λ raw. (hello, none);
  pause = λ d w. w;
  ctx_err = λ w. none;
}

abbrev busy : Error
busy = of_status (record { status = 503; msg = codes "busy" })

chat_client-persists_example :
    chat_client client request 0
    ≡ (record { message = text_message assistant (codes "hello"); usage = zero_usage }, none, 2)
unfolding attempts retry_budget add_word is_positive do_chat read_exchange read_completion
    usage_from is_retryable_status is_empty http_status_error byte_length
chat_client-persists_example =
    chat_client-persists client request (codes "m") 1 refl refl
      (Failing.once refl refl refl Failing.over) (omega arith) refl refl

endpoint-counts : (body : Text) (w : ℕ) → (endpoint body w).1 ≤ suc w
endpoint-counts body zero = omega arith
endpoint-counts body (suc w) = omega arith

chat_client-counts_example : (chat_client client request 0).2 ≤ 0 + suc (retry_budget client)
chat_client-counts_example =
    chat_client-counts client (λ w. w) endpoint-counts (λ d w. omega arith) request 0

abbrev events : Body
events = record {
  lines =
      (codes "data: he", none)
      ∷ ([], none)
      ∷ (codes ": keep-alive", none)
      ∷ (codes "data: llo", none)
      ∷ (codes "data: [DONE]", none)
      ∷ [];
  err = none;
}

-- A decoder for chunks that are only text.
abbrev text_chunk : Text → Chunk
text_chunk t = record {
  choices = record { role = []; content = t; tool_calls = [] } ∷ [];
  usage = none;
  error = none;
}

abbrev decode_text : Text → Chunk ⊎ Error
decode_text t = inl (text_chunk t)

abbrev he_llo : List Chunk
he_llo = text_chunk (codes "he") ∷ text_chunk (codes "llo") ∷ []

events-Streams : Streams decode_text events.lines he_llo
unfolding has_prefix trim_space trim_prefix text_eq is_space is_empty
events-Streams = Streams.event refl refl refl refl (
    Streams.skip refl
      (Streams.skip refl (Streams.event refl refl refl refl (Streams.done refl refl))))

told-read_sse_example :
    (read_sse decode_text (some (λ t w. w ++ t)) events []).3
    ≡ [] ++ (read_sse decode_text (some (λ t w. w ++ t)) events []).0.content
told-read_sse_example =
    told-read_sse decode_text (some (λ t w. w ++ t)) (λ t w. w ++ t) (λ w. w) (λ t w. refl) refl
      events [] refl events-Streams

abbrev stream_reply : Body → Text → ℕ → StreamReply × ℕ
stream_reply body m zero = (unsent (new_error (codes "reset")), 1)
stream_reply body m (suc n) = (opened body, suc (suc n))

abbrev stream_client : Body → StreamClient ℕ
stream_client body = record {
  client = client;
  encode_stream = λ m req. inl m;
  open_stream = stream_reply body;
  decode_chunk = decode_text;
}

abbrev cut_off : Body
cut_off = record { lines = (codes "data: he", none) ∷ []; err = some (new_error (codes "EOF")) }
