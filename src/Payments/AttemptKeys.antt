-- ===== src/Payments/AttemptKeys.antt =====
-- examples/go/payments/activity.go: the idempotency key that the attempts of one `ChargePayment` send.
use text.Mathlib.Text.{◌==◌ as str_eq}
use temporal_mistakes.Base.{
  if◌then◌else◌, ◌≡◌, ◌≢◌, sym, ap, ◌∙◌, ◌⊎◌, inl, inr, some, String, [], arith,
}
use temporal_mistakes.Errors.{Err}
use temporal_mistakes.Runtime.{Runtime}
use temporal_mistakes.Sdk.{ActivityInfo}
use temporal_mistakes.Activity.Idempotency.{get_idempotency_token, get_idempotency_token_congr}
use temporal_mistakes.Activity.Transport.{
  Request, get, lookup, default_idempotency_header, header_name,
}
use temporal_mistakes.Activity.RequestLaws.{do_request_key, get-set_other}
use temporal_mistakes.Payments.Charge.{
  default_http_client, Services, with_content_type, request_for,
}
use temporal_mistakes.Payments.Attempts.{PaymentService, in_state, sent_by}

-- http.NewRequestWithContext answers with an empty header.
abbrev pub HasNoHeader : {Content : Type 0} → Err ⊎ Request Content → Type 0
HasNoHeader (inl err) = Unit
HasNoHeader (inr built) = built.header ≡ []

-- The attempt belongs to the activity execution of `first`.
abbrev pub IsSameActivity : {F Time : Type 0} → ActivityInfo F → ActivityInfo F × Time → Type 0
IsSameActivity first (info, now) =
    (info.workflow_id ≡ first.workflow_id)
    × (info.run_id ≡ first.run_id)
    × (info.activity_id ≡ first.activity_id)

module _ (rt : Runtime) {Time Client Content : Type 0} (via : Services Time Client Content)
    (bare : (body : Content) → HasNoHeader (via.new_request body))
    (distinct : via.canonical default_idempotency_header ≢ via.canonical "Content-Type") where
  abbrev key_of : Err ⊎ Request Content → String
  key_of (inl err) = ""
  key_of (inr req) = get via.canonical req.header default_idempotency_header

  content_type-key :
      (b : Err ⊎ Request Content) (built : Request Content)
      → HasNoHeader b
      → with_content_type rt via b ≡ inr built
      → get via.canonical built.header default_idempotency_header ≡ ""
  unfolding get lookup
  content_type-key (inl err) built h e = absurd (ground arith)
  content_type-key (inr req) built h e =
      sym (ap key_of e)
      ∙ get-set_other via.canonical req.header default_idempotency_header "Content-Type"
          "application/json" distinct
      ∙ ap (λ h. get via.canonical h default_idempotency_header) h

  -- The built request has no key of its own.
  pub built-key :
      (body : Err ⊎ Content) (built : Request Content)
      → request_for rt via body ≡ inr built
      → get via.canonical built.header default_idempotency_header ≡ ""
  built-key (inl err) built e = absurd (ground arith)
  built-key (inr body) built e = content_type-key (via.new_request body) built (bare body) e

module _ (rt : Runtime) {Time Client Content : Type 0} (via : Services Time Client Content)
    (service : PaymentService Content) (first : ActivityInfo rt.Float) where
  -- Every attempt of the activity execution sends the token of that execution.
  pub sent-key :
      (s : service.State) (info : ActivityInfo rt.Float) (now : Time) (built : Request Content)
      → IsSameActivity first (info, now)
      → get via.canonical built.header default_idempotency_header ≡ ""
      → get via.canonical (sent_by rt via service s info built).header default_idempotency_header
        ≡ get_idempotency_token via.digest (some first)
  unfolding header_name
  sent-key s info now built (w, r, i) unset =
      do_request_key via.canonical via.error_text via.url_text via.default_client
        (in_state rt via service s).send (default_http_client rt (in_state rt via service s))
        (get_idempotency_token via.digest (some info)) built
      ∙ ap (λ v. if str_eq v "" then get_idempotency_token via.digest (some info) else v) unset
      ∙ get_idempotency_token_congr via.digest info first w r i
