-- ===== src/Llm/Router.antt =====
-- llm/router.go: summary requests go to their own model, and a failed chat may be retried once.
use agent_go.Prelude.{
  ◌≡◌, Bool, true, false, ◌||◌, Option, none, some, if◌then◌else◌, List, [], ◌∷◌, any, arith,
  Option-cases, inl, inr,
}
use agent_go.Text.{Text, codes, contains}
use agent_go.Errors.{Error, new_error, retryable}
use agent_go.Llm.{Request, Response, Provider, Purpose, summary, zero_response}

-- Delta text goes to a callback of the caller, which the world holds.
pub record Router (W : Type 0) : Type 0 where
  pub primary : Option (Provider W)
  pub fallback : Option (Provider W)
  pub summary_model : Option (Provider W)
  -- `Primary.(Streamer)`: the ChatStream of a primary that has one.
  pub stream : Option (Provider W)

abbrev retry_marks : List Text
retry_marks =
    codes "status 429"
    ∷ codes "llm: http:"
    ∷ codes "status 500"
    ∷ codes "status 502"
    ∷ codes "status 503"
    ∷ codes "status 504"
    ∷ []

-- isRetryableChatErr of an error that is not nil
unfoldable pub is_retryable_chat_err : Error → Bool
is_retryable_chat_err e =
    if e.canceled || e.deadline
    then false
    else elim e.status [ some s ↦ retryable s | none ↦ any (contains e.text) retry_marks ]

abbrev pub is_summary : Purpose → Bool
is_summary summary = true
is_summary _ = false

module _ {W : Type 0} where
  -- The reply of `Primary`, and the second try on `Fallback`.
  unfoldable pub with_fallback :
      Option (Provider W) → Request → Response × Option Error × W → Response × Option Error × W
  with_fallback fallback req (resp, none, w) = (resp, none, w)
  with_fallback none req (resp, some e, w) = (resp, some e, w)
  with_fallback (some f) req (resp, some e, w) =
      if is_retryable_chat_err e then f req w else (resp, some e, w)

  -- `req.Purpose == PurposeSummary && r.Summary != nil`
  abbrev summary_route : Router W → Request → Option (Provider W)
  summary_route r req = if is_summary req.purpose then r.summary_model else none

  -- (*Router).Chat
  unfoldable pub chat_router : Router W → Provider W
  unfolding with_fallback
  chat_router r req w = elim r.primary [
    | none ↦ (zero_response, some (new_error (codes "llm: router primary is nil")), w)
    | some primary ↦ elim (summary_route r req) [
      | some s ↦ s req w
      | none ↦ with_fallback r.fallback req (primary req w)
    ]
  ]

  -- (*Router).ChatStream
  unfoldable pub chat_stream : Router W → Provider W
  unfolding with_fallback chat_router
  chat_stream r req w = elim r.primary [
    | none ↦ (zero_response, some (new_error (codes "llm: router primary is nil")), w)
    | some primary ↦ elim (summary_route r req) [
      | some s ↦ s req w
      | none ↦ elim r.stream [
        | some stream ↦ with_fallback r.fallback req (stream req w)
        | none ↦ chat_router r req w
      ]
    ]
  ]

  -- If the router has a primary, the request does not go to the summary model, and the primary
  -- fails with an error that is a cancellation or a deadline, then the router returns the
  -- primary's reply, error and world: the fallback is not asked.
  pub chat_router_cancelled :
      (r : Router W) (primary : Provider W) (req : Request) (w : W) {resp : Response} {e : Error}
      {w' : W}
      → r.primary ≡ some primary
      → summary_route r req ≡ none
      → primary req w ≡ (resp, some e, w')
      → (e.canceled || e.deadline) ≡ true
      → chat_router r req w ≡ (resp, some e, w')
  unfolding chat_router is_retryable_chat_err
  chat_router_cancelled r primary req w hp hs he hc = ground arith

  -- If the streaming call of the primary, when it has one, gives what its Chat gives, then
  -- ChatStream of the router gives what Chat of the router gives.
  pub chat_stream-eq-chat :
      (r : Router W) (req : Request) (w : W)
      → ((s p : Provider W) → r.stream ≡ some s → r.primary ≡ some p → s req w ≡ p req w)
      → chat_stream r req w ≡ chat_router r req w
  unfolding chat_stream
  chat_stream-eq-chat r req w same = elim (Option-cases r.primary) [
    | inl e ↦ ground arith
    | inr (p, e) ↦ elim (Option-cases r.stream) [
      | inl d ↦ ground arith
      | inr (s, d) ↦ let agree = same s p d e in ground arith
    ]
  ]
