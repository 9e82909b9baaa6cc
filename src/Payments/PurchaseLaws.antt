-- ===== src/Payments/PurchaseLaws.antt =====
-- What examples/go/payments/workflow.go charges.
use text.Mathlib.Text.{◌==◌ as str_eq}
use text.Mathlib.TextEquality.{eq_iff}
use temporal_mistakes.Base.{◌≡◌, ◌≢◌, refl, ap, ◌∙◌, Option, Bool-cases, ◌⊎◌, inl, inr, pos, arith}
use temporal_mistakes.Errors.{Err}
use temporal_mistakes.Runtime.{Runtime}
use temporal_mistakes.Sdk.{ActivityOptions}
use temporal_mistakes.Workflow.SideEffects.{
  Converter, IsFaithful, Run, executing, replaying, SideEffects, IsLawful, side_effect,
}
use temporal_mistakes.Workflow.Replay.{side_effect-executing, side_effect-replaying}
use temporal_mistakes.Workflow.Activities.{await_activity-eq}
use temporal_mistakes.Payments.Charge.{ChargePaymentRequest, ChargePaymentResponse}
use temporal_mistakes.Payments.Purchase.{
  PurchaseRequest, PurchaseResponse, generate_charge_request_for_sku, Call, panics, returns,
  purchase_options, paid, with_charge_request, purchase_item,
}

abbrev pub one_dollar : ChargePaymentRequest
one_dollar = record { customer_id = ""; amount_cents = pos 100; currency = "" }

module _ (rt : Runtime) {Payload : Type 0} (sdk : SideEffects Payload)
    (conv : Converter Payload (Option ChargePaymentRequest))
    (charge : ActivityOptions rt.Float → ChargePaymentRequest → Err ⊎ ChargePaymentResponse) where
  -- The known article is charged at a dollar, with the result of the activity.
  abbrev pub ChargesOneDollar : Call (Err ⊎ PurchaseResponse) → Type 0
  ChargesOneDollar outcome =
      outcome ≡ returns (paid rt sdk conv charge (charge (purchase_options rt) one_dollar))

  -- The call that is executed, or a replay of it.
  pub data IsCallFor (latest : Option Payload) (req : PurchaseRequest) : Run Payload → Type 0 where
    executed : IsCallFor latest req (executing latest)
    replay : IsCallFor latest req (
        replaying
          (sdk.side_effect conv (executing latest) (generate_charge_request_for_sku req.sku)))

  module _ (laws : IsLawful sdk) (faithful : IsFaithful conv) where
    chosen_request :
        (latest : Option Payload) (req : PurchaseRequest) (run : Run Payload)
        → IsCallFor latest req run
        → side_effect sdk conv run (generate_charge_request_for_sku req.sku)
          ≡ inr (generate_charge_request_for_sku req.sku)
    chosen_request latest req _ executed =
        side_effect-executing sdk conv laws faithful latest
          (generate_charge_request_for_sku req.sku)
    chosen_request latest req _ replay =
        let v = generate_charge_request_for_sku req.sku in
        ap (λ p. side_effect sdk conv (replaying p) v) (laws.recorded conv latest v)
        ∙ side_effect-replaying sdk conv laws faithful v v

    -- When the workflow is run or replayed, the SKU "1234" is charged at a dollar, and the workflow
    -- returns what the activity makes of it; for any other SKU it panics.
    pub purchase_item_charges :
        (latest : Option Payload) (req : PurchaseRequest) (run : Run Payload)
        → IsCallFor latest req run
        → ((req.sku ≡ "1234") × ChargesOneDollar (purchase_item rt sdk conv charge run req))
          ⊎ ((req.sku ≢ "1234") × (purchase_item rt sdk conv charge run req ≡ panics))
    unfolding purchase_item generate_charge_request_for_sku
    purchase_item_charges latest req run stands =
        let chosen =
          ap (with_charge_request rt sdk conv charge) (chosen_request latest req run stands) in
        elim (Bool-cases (str_eq req.sku "1234")) [
          | inl known ↦ inl (
            (eq_iff req.sku "1234").0 known,
            chosen
                ∙ rw known (
                    ap (λ r. returns (paid rt sdk conv charge r))
                      (await_activity-eq charge (purchase_options rt) one_dollar)),
          )
          | inr unknown ↦ inr (
            λ e. absurd (ground (arith, unknown, (eq_iff req.sku "1234").1 e)),
            chosen ∙ rw unknown refl,
          )
        ]
