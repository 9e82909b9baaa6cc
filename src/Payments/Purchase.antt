-- ===== src/Payments/Purchase.antt =====
-- examples/go/payments/workflow.go: `PurchaseItem`. The SDK's side effects and the execution of the
-- activity are parameters.
use text.Mathlib.Text.{◌==◌ as str_eq}
use temporal_mistakes.Base.{Option, none, some, ◌⊎◌, inl, inr, String, pos, if◌then◌else◌}
use temporal_mistakes.Errors.{Err}
use temporal_mistakes.Runtime.{Runtime}
use temporal_mistakes.Sdk.{ActivityOptions, zero_options, second, minute, hour}
use temporal_mistakes.Workflow.SideEffects.{Converter, Run, SideEffects, side_effect}
use temporal_mistakes.Workflow.Activities.{await_activity}
use temporal_mistakes.Payments.Charge.{ChargePaymentRequest, ChargePaymentResponse}

pub record PurchaseRequest : Type 0 where
  pub sku : String

pub record PurchaseResponse : Type 0 where
  pub payment : ChargePaymentResponse

-- A nil pointer is `none`.
unfoldable pub generate_charge_request_for_sku : String → Option ChargePaymentRequest
generate_charge_request_for_sku sku =
    if str_eq sku "1234"
    then some (record { customer_id = ""; amount_cents = pos 100; currency = "" })
    else none

-- A call returns, or panics as it dereferences a nil pointer.
pub data Call (A : Type 0) : Type 0 where
  panics : Call A
  returns : A → Call A

module _ (rt : Runtime) where
  abbrev pub purchase_options : ActivityOptions rt.Float
  purchase_options = record zero_options {
    start_to_close_timeout = pos 30_000_000_000;
    schedule_to_close_timeout = hour;
    retry_policy = some (record {
      initial_interval = second;
      backoff_coefficient = rt.of_int (pos 2);
      maximum_interval = minute;
      maximum_attempts = pos 0;
    });
  }

  module _ {Payload : Type 0} (sdk : SideEffects Payload)
      (conv : Converter Payload (Option ChargePaymentRequest))
      (charge : ActivityOptions rt.Float → ChargePaymentRequest → Err ⊎ ChargePaymentResponse) where
    abbrev pub paid : Err ⊎ ChargePaymentResponse → Err ⊎ PurchaseResponse
    paid (inl err) = inl err
    paid (inr resp) = inr (record { payment = resp })

    abbrev pub with_charge_request :
        Err ⊎ Option ChargePaymentRequest → Call (Err ⊎ PurchaseResponse)
    with_charge_request (inl err) = returns (inl err)
    with_charge_request (inr none) = panics
    with_charge_request (inr (some charge_request)) =
        returns (paid (await_activity charge purchase_options charge_request))

    unfoldable pub purchase_item : Run Payload → PurchaseRequest → Call (Err ⊎ PurchaseResponse)
    purchase_item run req =
        with_charge_request (side_effect sdk conv run (generate_charge_request_for_sku req.sku))
