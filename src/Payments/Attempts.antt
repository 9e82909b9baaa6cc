-- ===== src/Payments/Attempts.antt =====
-- examples/go/payments/activity.go: the attempts of one `ChargePayment` at a payment service that
-- keeps a state between them. The service is an interface.
use temporal_mistakes.Base.{◌≡◌, ◌⊎◌, inl, inr, some, String, List, [], ◌∷◌, Memᴰ}
use temporal_mistakes.Errors.{Err}
use temporal_mistakes.Runtime.{Runtime}
use temporal_mistakes.Sdk.{ActivityInfo}
use temporal_mistakes.Activity.Http.{Response}
use temporal_mistakes.Activity.Idempotency.{get_idempotency_token}
use temporal_mistakes.Activity.Statuses.{IsSuccess}
use temporal_mistakes.Activity.Transport.{Request, get, default_idempotency_header}
use temporal_mistakes.Activity.RequestLaws.{sent}
use temporal_mistakes.Payments.Charge.{
  ChargePaymentRequest, ChargePaymentResponse, Services, build_charge_request, default_http_client,
  charge_payment,
}

-- A service with a ledger: the idempotency keys of the charges it has made, the latest first. A
-- request may charge although its answer is lost.
pub record PaymentService (Content : Type 0) : Type 1 where
  pub State : Type 0
  pub ledger : State → List String
  pub handle : State → Request Content → State × (Err ⊎ Response)

abbrev pub IsAccepted : Err ⊎ Response → Type 0
IsAccepted (inl err) = ⊥
IsAccepted (inr resp) = IsSuccess resp.status_code

-- What a service with idempotency keys documents: it charges at most once under a key, and answers
-- with success only when it has charged under it.
abbrev pub IsIdempotent : (String → String) → {Content : Type 0} → PaymentService Content → Type 0
IsIdempotent canonical service =
    (s : service.State) (req : Request _)
    → ((service.ledger (service.handle s req).0 ≡ service.ledger s)
        ⊎ ((service.ledger (service.handle s req).0
              ≡ get canonical req.header default_idempotency_header ∷ service.ledger s)
            × (¬ Memᴰ (get canonical req.header default_idempotency_header) (service.ledger s))))
      × ((¬ IsAccepted (service.handle s req).1)
          ⊎ Memᴰ (get canonical req.header default_idempotency_header)
              (service.ledger (service.handle s req).0))

module _ (rt : Runtime) {Time Client Content : Type 0} (via : Services Time Client Content)
    (service : PaymentService Content) where
  -- The exchange of net/http with the service in a state.
  abbrev pub in_state : service.State → Services Time Client Content
  in_state s = record via { send = λ client req. (service.handle s req).1 }

  -- The request as `Do` sends it.
  abbrev pub sent_by : service.State → ActivityInfo rt.Float → Request Content → Request Content
  sent_by s info built =
      sent via.canonical via.error_text via.url_text via.default_client (in_state s).send
        (default_http_client rt (in_state s)) (get_idempotency_token via.digest (some info)) built

  abbrev pub state_after :
      ActivityInfo rt.Float → service.State → Err ⊎ Request Content → service.State
  state_after info s (inl err) = s
  state_after info s (inr built) = (service.handle s (sent_by s info built)).0

  -- The attempts, each at its time, and their results, in order. An attempt may follow one that has
  -- succeeded, if the worker is lost before it reports.
  unfoldable pub charge_attempts :
      ChargePaymentRequest
      → List (ActivityInfo rt.Float × Time)
      → service.State
      → service.State × List (Err ⊎ ChargePaymentResponse)
  charge_attempts req [] s = (s, [])
  charge_attempts req ((info, now) ∷ attempts) s =
      let later =
        charge_attempts req attempts (state_after info s (build_charge_request rt via req)) in
      (later.0, charge_payment rt (in_state s) (some info) now req ∷ later.1)
