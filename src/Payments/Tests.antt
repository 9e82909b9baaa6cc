-- ===== src/Payments/Tests.antt =====
-- The theorem about the attempts of `ChargePayment` at a concrete service.
use text.Mathlib.Text.{◌==◌ as str_eq}
use text.Mathlib.TextEquality.{eq_iff}
use temporal_mistakes.Base.{
  ℕ, ◌≡◌, ◌≢◌, refl, sym, ◌⊎◌, inl, inr, none, some, String, List, [], ◌∷◌, All, Memᴰ, pos,
  Bool-cases, if◌then◌else◌, arith,
}
use temporal_mistakes.Errors.{Err, node, nil, other}
use temporal_mistakes.Runtime.{whole}
use temporal_mistakes.Sdk.{ActivityInfo, ActivityOptions}
use temporal_mistakes.Activity.Http.{Response, http_response_error}
use temporal_mistakes.Activity.Idempotency.{get_idempotency_token, token_of_info}
use temporal_mistakes.Activity.Transport.{
  Request, get, set, lookup, remove, populate, header_name, prepare, transport_result, do_request,
  default_idempotency_header,
}
use temporal_mistakes.Payments.Charge.{
  ChargePaymentRequest, ChargePaymentResponse, build_charge_request, charge_payment,
}
use temporal_mistakes.Payments.Purchase.{PurchaseRequest, purchase_item}
use temporal_mistakes.Payments.PurchaseLaws.{one_dollar, executed}
use temporal_mistakes.Payments.PurchaseOnce.{IsOutcome, ChargesOnce, purchase_item-ChargesOnce}
use temporal_mistakes.Workflow.SideEffects.{executing}
use temporal_mistakes.Workflow.History.{history, history-IsLawful, plain, plain-IsFaithful}
use temporal_mistakes.Payments.Samples.{charge_request, charged, answer, services}
use temporal_mistakes.Payments.Attempts.{PaymentService, IsIdempotent, charge_attempts}
use temporal_mistakes.Payments.AttemptsLaws.{IsFailure, charge_attempts_once}

abbrev lost : Err ⊎ Response
lost = inl (node (other "connection reset") nil)

abbrev key : Request ℕ → String
key req = get (λ k. k) req.header default_idempotency_header

-- A service that charges once. The answer to that charge is lost; later ones tell whether it was
-- made under their key.
abbrev charge_once : List String → Request ℕ → List String × (Err ⊎ Response)
charge_once [] req = (key req ∷ [], lost)
charge_once (k ∷ ks) req = (k ∷ ks, inr (answer (if str_eq k (key req) then 200 else 409)))

abbrev once : PaymentService ℕ
once = record { State = List String; ledger = λ ks. ks; handle = charge_once }

once-IsIdempotent : IsIdempotent (λ k. k) once
once-IsIdempotent [] req = (inr (refl, λ m. elim m [ ]), inl (λ x. x))
once-IsIdempotent (k ∷ ks) req = (
  inl refl,
  elim (Bool-cases (str_eq k (key req))) [
    | inl e ↦ inr (Memᴰ.head (sym ((eq_iff _ _).0 e)))
    | inr e ↦ rw e (inl (λ ok. ground arith))
  ],
)

abbrev first_attempt : ActivityInfo ℕ
first_attempt = record {
  workflow_id = 119 ∷ [];
  run_id = 114 ∷ [];
  activity_id = 49 ∷ [];
  attempt = pos 1;
  heartbeat_timeout = pos 0;
  retry_policy = none;
}

abbrev two_attempts : List (ActivityInfo ℕ × ℕ)
two_attempts = (first_attempt, 0) ∷ (record first_attempt { attempt = pos 2 }, 5) ∷ []

names-distinct : default_idempotency_header ≢ "Content-Type"
names-distinct e = absurd (ground (arith, (eq_iff default_idempotency_header "Content-Type").1 e))

charge_attempts_once_example :
    (((charge_attempts whole services once charge_request two_attempts []).0 ≡ [])
      × All IsFailure (charge_attempts whole services once charge_request two_attempts []).1)
    ⊎ ((charge_attempts whole services once charge_request two_attempts []).0
        ≡ get_idempotency_token services.digest (some first_attempt) ∷ [])
charge_attempts_once_example =
    charge_attempts_once whole services once once-IsIdempotent (λ body. refl) names-distinct
      first_attempt charge_request two_attempts [] ((refl, refl, refl), ((refl, refl, refl), tt))
      (λ m. elim m [ ])

-- The result of the second attempt.
abbrev charge : ActivityOptions ℕ → ChargePaymentRequest → Err ⊎ ChargePaymentResponse
charge opts req = inr charged

abbrev article : PurchaseRequest
article = record { sku = "1234" }

second-IsOutcome :
    IsOutcome (charge_attempts whole services once one_dollar two_attempts []).1 (inr charged)
unfolding charge_attempts charge_payment build_charge_request do_request prepare populate get set
    lookup remove header_name get_idempotency_token token_of_info transport_result
    http_response_error
second-IsOutcome = inr (Memᴰ.tail (Memᴰ.head refl))

purchase_item-ChargesOnce_example :
    ChargesOnce whole services once once-IsIdempotent
      (λ body. refl)
      names-distinct
      first_attempt
      two_attempts
      []
      (purchase_item whole history plain charge (executing none) article)
purchase_item-ChargesOnce_example =
    purchase_item-ChargesOnce whole services once once-IsIdempotent (λ body. refl) names-distinct
      first_attempt two_attempts [] history plain charge history-IsLawful plain-IsFaithful none
      article (executing none) executed refl ((refl, refl, refl), ((refl, refl, refl), tt))
      (λ m. elim m [ ]) second-IsOutcome
