-- ===== src/Llm/Stream/Client.antt =====
-- llm/openai_stream.go: ChatStream, which tries again until a body has started.
use agent_go.Prelude.{
  ℕ, suc, ◌≡◌, refl, ◌∙◌, ap, false, Option, none, some, if◌then◌else◌, ◌⊎◌, inl, inr,
}
use agent_go.Text.{Text, codes, is_empty}
use agent_go.Errors.{Error, new_error, wrap}
use agent_go.Llm.{Message, Usage, Request, Response, zero_response}
use agent_go.Llm.Client.{Client, Tried, attempts, is_none, is_retryable_status, http_status_error}
use agent_go.Llm.Retry.{try_loop, model_of}
use agent_go.Llm.Retry.Persistence.{try_loop-final}
use agent_go.Llm.Stream.{Chunk, Body, read_sse}

-- What HTTPClient.Do gives: no reply, a status that is not 2xx with its body, or a body to read.
pub data StreamReply : Type 0 where
  unsent : Error → StreamReply
  refused : ℕ → Text → StreamReply
  opened : Body → StreamReply

pub record StreamClient (W : Type 0) : Type 0 where
  pub client : Client W
  pub encode_stream : Text → Request → Text ⊎ Error
  pub open_stream : Text → W → StreamReply × W
  pub decode_chunk : Text → Chunk ⊎ Error

module _ {W : Type 0} (c : StreamClient W) (on_delta : Option (Text → W → W)) where
  abbrev pub streamed : Message × Usage × Option Error × W → Tried × W
  streamed (msg, usage, some e, w) = ((zero_response, false, some e), w)
  streamed (msg, usage, none, w) = ((record { message = msg; usage = usage }, false, none), w)

  abbrev pub read_reply : StreamReply × W → Tried × W
  read_reply (unsent e, w) =
      ((zero_response, is_none (c.client.ctx_err w), some (wrap (codes "llm: http: ") e)), w)
  read_reply (refused code raw, w) = (
    (zero_response, is_retryable_status code, some (http_status_error c.client.decode code raw)),
    w,
  )
  read_reply (opened body, w) = streamed (read_sse c.decode_chunk on_delta body w)

  -- doStream
  unfoldable pub do_stream : Text → W → Tried × W
  unfolding read_sse is_retryable_status http_status_error
  do_stream body w = elim c.client.prepare [
    | some e ↦ ((zero_response, false, some e), w)
    | none ↦ read_reply (c.open_stream body w)
  ]

  -- (*OpenAI).ChatStream
  unfoldable pub chat_stream_client : Request → W → Response × Option Error × W
  unfolding try_loop attempts do_stream
  chat_stream_client req w =
      let model = model_of c.client req in
      if is_empty model
      then (zero_response, some (new_error (codes "llm: model is required")), w)
      else elim (c.encode_stream model req) [
        | inr e ↦ (zero_response, some (wrap (codes "llm: marshal request: ") e), w)
        | inl body ↦ try_loop c.client (do_stream body) (attempts c.client) 0 zero_response none w
      ]

  stream-sent_body :
      (req : Request) (w : W) (body : Text)
      → is_empty (model_of c.client req) ≡ false
      → c.encode_stream (model_of c.client req) req ≡ inl body
      → chat_stream_client req w
        ≡ try_loop c.client (do_stream body) (attempts c.client) 0 zero_response none w
  unfolding chat_stream_client
  stream-sent_body req w body h1 h2 = rw h1 (rw h2 refl)

  do_stream-opened :
      (body : Text) {sse : Body} {w w1 : W}
      → c.client.prepare ≡ none
      → c.open_stream body w ≡ (opened sse, w1)
      → do_stream body w ≡ streamed (read_sse c.decode_chunk on_delta sse w1)
  unfolding do_stream
  do_stream-opened body h g = rw (do_stream, h) (ap (λ r. read_reply r) g)

  -- If a model is named, the request can be encoded and prepared, there is at least one attempt,
  -- the context is alive, and the first try opens a body that ends in an error, then ChatStream
  -- returns this error with an empty response, in the world that reading left: nothing is sent
  -- again.
  pub chat_stream_client-started :
      (req : Request) (body : Text) (left : ℕ) (sse : Body) {msg : Message} {usage : Usage}
      {e : Error} {w w1 w2 : W}
      → is_empty (model_of c.client req) ≡ false
      → c.encode_stream (model_of c.client req) req ≡ inl body
      → attempts c.client ≡ suc left
      → c.client.ctx_err w ≡ none
      → c.client.prepare ≡ none
      → c.open_stream body w ≡ (opened sse, w1)
      → read_sse c.decode_chunk on_delta sse w1 ≡ (msg, usage, some e, w2)
      → chat_stream_client req w ≡ (zero_response, some e, w2)
  chat_stream_client-started req body left sse {w = w} h1 h2 ha h3 h4 h5 h6 =
      stream-sent_body req w body h1 h2
      ∙ ap (λ (n : ℕ). try_loop c.client (do_stream body) n 0 zero_response none w) ha
      ∙ try_loop-final c.client (do_stream body) left h3
          (do_stream-opened body h4 h5 ∙ ap (λ r. streamed r) h6)
