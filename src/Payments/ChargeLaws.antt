-- ===== src/Payments/ChargeLaws.antt =====
-- When `ChargePayment` of examples/go/payments/activity.go succeeds.
use temporal_mistakes.Base.{Option, none, some, ◌≡◌, refl, ap, ◌∙◌, ◌↔◌, ◌⊎◌, inl, inr, arith}
use temporal_mistakes.Errors.{Err}
use temporal_mistakes.Runtime.{Runtime}
use temporal_mistakes.Sdk.{ActivityInfo}
use temporal_mistakes.Activity.Http.{Response, http_response_error}
use temporal_mistakes.Activity.Statuses.{IsSuccess, http_response_error_classifies}
use temporal_mistakes.Activity.Transport.{Request}
use temporal_mistakes.Payments.Charge.{
  ChargePaymentRequest, ChargePaymentResponse, Services, build_charge_request, decoded,
  unless_rejected, with_response, with_request, exchange, charge_payment,
}

module _ (rt : Runtime) {Time Client Content : Type 0} (via : Services Time Client Content)
    (ctx : Option (ActivityInfo rt.Float)) (now : Time) (out : ChargePaymentResponse) where
  decoded_iff : (r : Err ⊎ ChargePaymentResponse) → (decoded rt via r ≡ inr out) ↔ (r ≡ inr out)
  decoded_iff (inl err) = (λ k. absurd (ground arith), λ k. absurd (ground arith))
  decoded_iff (inr x) = (λ k. k, λ k. k)

  unless_iff :
      (o : Option Err) (resp : Response)
      → (unless_rejected rt via o resp ≡ inr out) ↔ ((o ≡ none) × (via.decode resp ≡ inr out))
  unless_iff none resp = let d = decoded_iff (via.decode resp) in (λ k. (refl, d.0 k), λ k. d.1 k.1)
  unless_iff (some err) resp = (λ k. absurd (ground arith), λ k. absurd (ground arith))

  answered : Response → Option Err
  answered resp =
      http_response_error rt via.status_text via.trimmed_text via.parse_time via.time_sub ctx resp
        now

  accepted_iff : (resp : Response) → (answered resp ≡ none) ↔ IsSuccess resp.status_code
  unfolding answered
  accepted_iff resp =
      (http_response_error_classifies rt via.status_text via.trimmed_text via.parse_time
        via.time_sub ctx resp now).0

  response_iff :
      (r : Err ⊎ Response)
      → (with_response rt via ctx now r ≡ inr out) ↔ (
          (resp : Response) × (r ≡ inr resp)
          × IsSuccess resp.status_code
          × (via.decode resp ≡ inr out))
  unfolding answered
  response_iff r = (forth r, back r)
    where
      forth :
          (r : Err ⊎ Response)
          → with_response rt via ctx now r ≡ inr out
          → (resp : Response) × (r ≡ inr resp)
            × IsSuccess resp.status_code
            × (via.decode resp ≡ inr out)
      forth (inl err) k = absurd (ground arith)
      forth (inr resp) k =
          let (none_found, d) = (unless_iff (answered resp) resp).0 k in
          (resp, refl, (accepted_iff resp).0 none_found, d)

      back :
          (r : Err ⊎ Response)
          → ((resp : Response) × (r ≡ inr resp)
              × IsSuccess resp.status_code
              × (via.decode resp ≡ inr out))
          → with_response rt via ctx now r ≡ inr out
      back r (resp, e, ok, d) =
          ap (with_response rt via ctx now) e
          ∙ (unless_iff (answered resp) resp).1 ((accepted_iff resp).1 ok, d)

  -- The activity succeeds with a result exactly if its request can be built, the service answers it
  -- with a 2xx or 3xx status, and the body decodes to that result.
  pub charge_payment_succeeds_iff :
      (req : ChargePaymentRequest)
      → (charge_payment rt via ctx now req ≡ inr out) ↔ (
          (built : Request Content) × (resp : Response) × (build_charge_request rt via req
            ≡ inr built)
          × (exchange rt via ctx built ≡ inr resp)
          × IsSuccess resp.status_code
          × (via.decode resp ≡ inr out))
  unfolding charge_payment
  charge_payment_succeeds_iff req = (
    forth (build_charge_request rt via req),
    λ (built, resp, b, e, ok, d).
        ap (with_request rt via ctx now) b
        ∙ (response_iff (exchange rt via ctx built)).1 (resp, e, ok, d),
  )
    where
      forth :
          (r : Err ⊎ Request Content)
          → with_request rt via ctx now r ≡ inr out
          → (built : Request Content) × (resp : Response) × (r ≡ inr built)
            × (exchange rt via ctx built ≡ inr resp)
            × IsSuccess resp.status_code
            × (via.decode resp ≡ inr out)
      forth (inl err) k = absurd (ground arith)
      forth (inr built) k =
          let (resp, e, ok, d) = (response_iff (exchange rt via ctx built)).0 k in
          (built, resp, refl, e, ok, d)
