-- ===== src/Llm/Retry/Persistence.antt =====
-- llm/openai.go: how often Chat tries, and what it comes to.
use agent_go.Prelude.{
  ℕ, zero, suc, ◌+◌, ◌≤◌, ◌<◌, ◌≡◌, refl, ◌∙◌, ap, Bool, true, false, not, ◌||◌, Option, none, some,
  arith, Bool-cases, Option-cases, Sum-cases, inl, inr, ◌==◌, ◌≢◌,
}
use agent_go.Prelude.Int.{add_word, is_positive}
use agent_go.Text.{Text, is_empty}
use agent_go.Errors.{Error}
use agent_go.Llm.{Request, Response, zero_response}
use agent_go.Llm.Client.{
  Client, Tried, Exchange, received, is_refusal, is_retryable_status, read_exchange, do_chat,
  attempts, http_status_error, usage_only, retry_budget,
}
use agent_go.Llm.Retry.{after_try, try_loop, chat_client, model_of, backoff}

module _ {W : Type 0} (c : Client W) (shot : W → Tried × W) where
  -- From round `a` on, `n` tries fail with an error to try again for, and the context lasts.
  pub data Failing : ℕ → ℕ → W → W → Type 0 where
    over : {a : ℕ} {w : W} → Failing 0 a w w
    once :
        {n a : ℕ} {resp : Response} {e : Error} {w w1 w2 : W}
        → c.ctx_err w ≡ none
        → shot w ≡ ((resp, true, some e), w1)
        → c.ctx_err w1 ≡ none
        → Failing n (suc a) (c.pause (backoff a) w1) w2
        → Failing (suc n) a w w2

  not-last : (n left : ℕ) → suc n < suc left → (left == 0) ≡ false
  not-last n left h = ground arith

  -- A round that fails with an error to try again for, and is not the last.
  try_loop-once :
      (left a : ℕ) (lr : Response) (l : Option Error) {resp : Response} {e : Error} {w w1 : W}
      → (left == 0) ≡ false
      → c.ctx_err w ≡ none
      → shot w ≡ ((resp, true, some e), w1)
      → c.ctx_err w1 ≡ none
      → try_loop c shot (suc left) a lr l w
        ≡ try_loop c shot left (suc a) resp (some e) (c.pause (backoff a) w1)
  unfolding try_loop after_try
  try_loop-once left a lr l h h1 h2 h3 = rw (try_loop, h1) (rw h2 (rw h (rw h3 refl)))

  pub try_loop-Failing :
      (left : ℕ) (lr : Response) (l : Option Error) {n a : ℕ} {w w1 : W}
      → Failing n a w w1
      → n < left
      → {resp : Response} {r : Bool} {w2 : W} → c.ctx_err w1 ≡ none
      → shot w1 ≡ ((resp, r, none), w2)
      → try_loop c shot left a lr l w ≡ (resp, none, w2)
  unfolding try_loop after_try
  try_loop-Failing (suc left) lr l over h h1 h2 = rw (try_loop, h1) (rw h2 refl)
  try_loop-Failing zero lr l f h h1 h2 = elim h [ ]
  try_loop-Failing (suc left) lr l (once {n} {a} {resp} {e} p q r f) h h1 h2 =
      try_loop-once left a lr l (not-last n left h) p q r
      ∙ try_loop-Failing left resp (some e) f (omega arith) h1 h2

  -- A first round that ends the loop.
  pub try_loop-final :
      (left : ℕ) {resp : Response} {e : Error} {w w1 : W}
      → c.ctx_err w ≡ none
      → shot w ≡ ((resp, false, some e), w1)
      → try_loop c shot (suc left) 0 zero_response none w ≡ (resp, some e, w1)
  unfolding try_loop after_try
  try_loop-final left h1 h2 = rw (try_loop, h1) (rw h2 refl)

module _ {W : Type 0} (c : Client W) where
  chat_client-sent_body :
      (req : Request) (w : W) (body : Text)
      → is_empty (model_of c req) ≡ false
      → c.encode (model_of c req) req ≡ inl body
      → chat_client c req w ≡ try_loop c (do_chat c body) (attempts c) 0 zero_response none w
  unfolding chat_client
  chat_client-sent_body req w body h1 h2 = rw h1 (rw h2 refl)

  -- If a model is named and the request can be encoded, the first n tries fail with an error to
  -- try again for, with the context alive before and after each and the wait of backoff between
  -- them, n is less than the number of attempts, the context is alive then, and the next try gives
  -- no error, then Chat returns the response of this try, in the world after it.
  pub chat_client-persists :
      (req : Request) (body : Text) (n : ℕ) {w w1 w2 : W} {resp : Response} {r : Bool}
      → is_empty (model_of c req) ≡ false
      → c.encode (model_of c req) req ≡ inl body
      → Failing c (do_chat c body) n 0 w w1
      → n < attempts c
      → c.ctx_err w1 ≡ none
      → do_chat c body w1 ≡ ((resp, r, none), w2)
      → chat_client c req w ≡ (resp, none, w2)
  chat_client-persists req body n {w} h1 h2 f h h3 h4 =
      chat_client-sent_body req w body h1 h2
      ∙ try_loop-Failing c (do_chat c body) (attempts c) zero_response none f h h3 h4

  do_chat-received :
      (body : Text) (code : ℕ) (raw : Text) {w w1 : W}
      → c.prepare ≡ none
      → c.send body w ≡ (received code raw, w1)
      → do_chat c body w ≡ (read_exchange c (received code raw) w1, w1)
  unfolding do_chat
  do_chat-received body code raw {w} {w1} h2 h3 =
      rw (do_chat, h2) (ap (λ (t : Exchange × W). (read_exchange c t.0 t.1, t.1)) h3)

  read_exchange-refused :
      (code : ℕ) (raw : Text) (w : W)
      → is_refusal code ≡ true
      → is_retryable_status code ≡ false
      → read_exchange c (received code raw) w
        ≡ (usage_only (c.decode raw).0, false, some (http_status_error c.decode code raw))
  unfolding read_exchange
  read_exchange-refused code raw w h4 h5 = rw (read_exchange, h4) (rw h5 refl)

  do_chat-refused :
      (body : Text) (code : ℕ) (raw : Text) {w w1 : W}
      → c.prepare ≡ none
      → c.send body w ≡ (received code raw, w1)
      → is_refusal code ≡ true
      → is_retryable_status code ≡ false
      → do_chat c body w
        ≡ ((usage_only (c.decode raw).0, false, some (http_status_error c.decode code raw)), w1)
  do_chat-refused body code raw {w} {w1} h2 h3 h4 h5 =
      do_chat-received body code raw h2 h3
      ∙ ap (λ (t : Tried). (t, w1)) (read_exchange-refused code raw w1 h4 h5)

  refusal-4xx : (code : ℕ) → 400 ≤ code → code < 500 → is_refusal code ≡ true
  refusal-4xx code h g = ground arith

  final-4xx : (code : ℕ) → code ≢ 429 → code < 500 → is_retryable_status code ≡ false
  unfolding is_retryable_status
  final-4xx code h g = ground arith

  pub chat_client-refused :
      (req : Request) (body : Text) (left code : ℕ) (raw : Text) {w w1 : W}
      → is_empty (model_of c req) ≡ false
      → c.encode (model_of c req) req ≡ inl body
      → attempts c ≡ suc left
      → c.ctx_err w ≡ none
      → c.prepare ≡ none
      → c.send body w ≡ (received code raw, w1)
      → 400 ≤ code
      → code < 500
      → code ≢ 429
      → chat_client c req w
        ≡ (usage_only (c.decode raw).0, some (http_status_error c.decode code raw), w1)
  chat_client-refused req body left code raw {w} h1 h2 ha h3 h4 h5 lo hi ne =
      chat_client-sent_body req w body h1 h2
      ∙ ap (λ (n : ℕ). try_loop c (do_chat c body) n 0 zero_response none w) ha
      ∙ try_loop-final c (do_chat c body) left h3
          (do_chat-refused body code raw h4 h5 (refusal-4xx code lo hi) (final-4xx code ne hi))

module _ {W : Type 0} (c : Client W) (sent : W → ℕ)
    (send-counts : (body : Text) (w : W) → sent (c.send body w).1 ≤ suc (sent w))
    (pause-counts : (d : ℕ) (w : W) → sent (c.pause d w) ≤ sent w) where
  do_chat-counts : (body : Text) (w : W) → sent (do_chat c body w).1 ≤ suc (sent w)
  unfolding do_chat
  do_chat-counts body w = elim (Option-cases c.prepare) [
    | inl e ↦ rw e (send-counts body w)
    | inr (x, e) ↦ rw e (omega arith)
  ]

  after_try-counts :
      (last : Bool) (again : Response → Error → W → Response × Option Error × W) (t : Tried × W)
      (k : ℕ)
      → ((resp : Response) (e : Error) → sent (again resp e t.1).2 ≤ sent t.1 + k)
      → sent (after_try c last again t).2 ≤ sent t.1 + k
  unfolding after_try
  after_try-counts last again ((resp, retry, none), w) k h = omega arith
  after_try-counts last again ((resp, retry, some e), w) k h =
      elim (Bool-cases (not retry || last)) [
        | inl d ↦ rw d (omega arith)
        | inr d ↦ rw d (elim (Option-cases (c.ctx_err w)) [
          | inl f ↦ rw f (h resp e)
          | inr (x, f) ↦ rw f (omega arith)
        ])
      ]

  try_loop-counts :
      (shot : W → Tried × W) (left a : ℕ) (lr : Response) (l : Option Error) (w : W)
      → ((w : W) → sent (shot w).1 ≤ suc (sent w))
      → sent (try_loop c shot left a lr l w).2 ≤ sent w + left
  unfolding try_loop
  try_loop-counts shot zero a lr l w h = omega arith
  try_loop-counts shot (suc left) a lr l w h = elim (Option-cases (c.ctx_err w)) [
    | inr (x, f) ↦ rw (try_loop, f) (omega arith)
    | inl f ↦
        let w1 = (shot w).1 in
        let again = λ (resp : Response) (e : Error) (v : W).
          try_loop c shot left (suc a) resp (some e) (c.pause (backoff a) v) in
        let tried = after_try-counts (left == 0) again (shot w) left (λ resp e. omega (
          arith,
          try_loop-counts shot left (suc a) resp (some e) (c.pause (backoff a) w1) h,
          pause-counts (backoff a) w1,
        )) in
        rw (try_loop, f) (two_steps left (h w) tried)
  ]
    where
      two_steps : {k m n : ℕ} (l : ℕ) → m ≤ suc n → k ≤ m + l → k ≤ n + suc l
      two_steps l h g = omega arith

  attempts-le : attempts c ≤ suc (retry_budget c)
  unfolding attempts add_word is_positive
  attempts-le = ground arith

  -- For a count of exchanges on the world, if one exchange raises it by at most one and a wait
  -- does not raise it, then Chat, whatever comes back, raises it by at most one more than the
  -- retry budget.
  pub chat_client-counts :
      (req : Request) (w : W) → sent (chat_client c req w).2 ≤ sent w + suc (retry_budget c)
  unfolding chat_client
  chat_client-counts req w = elim (Bool-cases (is_empty (model_of c req))) [
    | inl e ↦ rw e (omega arith)
    | inr e ↦ rw e (elim (Sum-cases (c.encode (model_of c req) req)) [
      | inr (x, f) ↦ rw f (omega arith)
      | inl (body, f) ↦ rw f (
          omega (
            arith,
            try_loop-counts (do_chat c body) (attempts c) 0 zero_response none w
                (do_chat-counts body),
            attempts-le,
          ))
    ])
  ]
