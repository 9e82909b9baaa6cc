-- ===== src/Payments/PurchaseOnce.antt =====
-- `PurchaseItem` of examples/go/payments/workflow.go over the attempts of `ChargePayment` beside it at
-- a payment service.
use temporal_mistakes.Base.{
  ◌≡◌, ◌≢◌, refl, sym, subst, Option, some, ◌⊎◌, inl, inr, String, List, ◌∷◌, All, All-mem, Memᴰ,
}
use temporal_mistakes.Errors.{Err}
use temporal_mistakes.Runtime.{Runtime}
use temporal_mistakes.Sdk.{ActivityInfo, ActivityOptions}
use temporal_mistakes.Activity.Idempotency.{get_idempotency_token}
use temporal_mistakes.Activity.Transport.{default_idempotency_header}
use temporal_mistakes.Workflow.SideEffects.{Converter, IsFaithful, Run, SideEffects, IsLawful}
use temporal_mistakes.Payments.Charge.{ChargePaymentRequest, ChargePaymentResponse, Services}
use temporal_mistakes.Payments.Attempts.{PaymentService, IsIdempotent, charge_attempts}
use temporal_mistakes.Payments.AttemptKeys.{HasNoHeader, IsSameActivity}
use temporal_mistakes.Payments.AttemptsLaws.{IsFailure, charge_attempts_once}
use temporal_mistakes.Payments.Purchase.{
  PurchaseRequest, PurchaseResponse, Call, returns, purchase_options, purchase_item, paid,
}
use temporal_mistakes.Payments.PurchaseLaws.{one_dollar, IsCallFor, purchase_item_charges}

-- What the server may report of an activity: an error, as a timeout, or the result of an attempt.
abbrev pub IsOutcome : {A : Type 0} → List (Err ⊎ A) → Err ⊎ A → Type 0
IsOutcome results r = IsFailure r ⊎ Memᴰ r results

module _ (rt : Runtime) {Time Client Content : Type 0} (via : Services Time Client Content)
    (service : PaymentService Content) (idempotent : IsIdempotent via.canonical service)
    (bare : (body : Content) → HasNoHeader (via.new_request body))
    (distinct : via.canonical default_idempotency_header ≢ via.canonical "Content-Type")
    (first : ActivityInfo rt.Float) (attempts : List (ActivityInfo rt.Float × Time))
    (s : service.State) where
  abbrev token : String
  token = get_idempotency_token via.digest (some first)

  abbrev before : List String
  before = service.ledger s

  -- The ledger after the attempts to charge a dollar.
  abbrev after : List String
  after = service.ledger (charge_attempts rt via service one_dollar attempts s).0

  abbrev results : List (Err ⊎ ChargePaymentResponse)
  results = (charge_attempts rt via service one_dollar attempts s).1

  -- The purchase succeeds with one charge, or fails with at most one.
  abbrev pub ChargesOnce : Call (Err ⊎ PurchaseResponse) → Type 0
  ChargesOnce outcome =
      ((resp : PurchaseResponse) × (outcome ≡ returns (inr resp)) × (after ≡ token ∷ before))
      ⊎ ((err : Err) × (outcome ≡ returns (inl err))
          × ((after ≡ before) ⊎ (after ≡ token ∷ before)))

  module _ {Payload : Type 0} (sdk : SideEffects Payload)
      (conv : Converter Payload (Option ChargePaymentRequest))
      (charge : ActivityOptions rt.Float → ChargePaymentRequest → Err ⊎ ChargePaymentResponse) where
    paid-ChargesOnce :
        (r : Err ⊎ ChargePaymentResponse)
        → All (IsSameActivity first) attempts
        → (¬ Memᴰ token before)
        → IsOutcome results r
        → ChargesOnce (returns (paid rt sdk conv charge r))
    paid-ChargesOnce r same new outcome = cases r outcome (
        charge_attempts_once rt via service idempotent bare distinct first one_dollar attempts s
          same new)
      where
        cases :
            (r : Err ⊎ ChargePaymentResponse)
            → IsOutcome results r
            → ((after ≡ before) × All IsFailure results) ⊎ (after ≡ token ∷ before)
            → ChargesOnce (returns (paid rt sdk conv charge r))
        cases (inl err) o (inl (l, fs)) = inr (err, refl, inl l)
        cases (inl err) o (inr l) = inr (err, refl, inr l)
        cases (inr out) o (inr l) = inl (_, refl, l)
        cases (inr out) (inl none_made) (inl (l, fs)) = absurd none_made
        cases (inr out) (inr m) (inl (l, fs)) = absurd (All-mem IsFailure (inr out) results fs m)

    -- A purchase of the SKU "1234", run or replayed, that succeeds has charged exactly once, and one
    -- that fails at most once, however many attempts the activity takes, whichever answers are lost,
    -- and whichever attempt the server reports: at an idempotent service that has not charged under
    -- the execution's token before, if new requests have no header, the names of the two headers differ,
    -- and the data converter is faithful.
    pub purchase_item-ChargesOnce :
        (laws : IsLawful sdk) (faithful : IsFaithful conv) (latest : Option Payload)
        (req : PurchaseRequest) (run : Run Payload)
        → IsCallFor rt sdk conv charge latest req run
        → req.sku ≡ "1234"
        → All (IsSameActivity first) attempts
        → (¬ Memᴰ token before)
        → IsOutcome results (charge (purchase_options rt) one_dollar)
        → ChargesOnce (purchase_item rt sdk conv charge run req)
    purchase_item-ChargesOnce laws faithful latest req run stands known same new outcome =
        elim (purchase_item_charges rt sdk conv charge laws faithful latest req run stands) [
          | inl (_, e) ↦
              subst ChargesOnce (sym e)
                (paid-ChargesOnce (charge (purchase_options rt) one_dollar) same new outcome)
          | inr (other, _) ↦ absurd (other known)
        ]
