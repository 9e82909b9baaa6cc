-- ===== src/Examples/WorkflowTests.antt =====
-- The theorems about the workflows over internal/workflowhelpers and the policies, at concrete runs.
use temporal_mistakes.Base.{ℕ, ◌≡◌, ◌≢◌, refl, ◌⊎◌, inl, inr, Option, none, some, arith}
use temporal_mistakes.Errors.{Err, node, nil, canceled, other}
use temporal_mistakes.Runtime.{whole, whole-IsLawful}
use temporal_mistakes.Sdk.{ActivityOptions, WorkflowExecution}
use temporal_mistakes.Policy.Config.{required_retries}
use temporal_mistakes.Workflow.SideEffects.{executing}
use temporal_mistakes.Workflow.History.{history, history-IsLawful, plain, plain-IsFaithful}
use temporal_mistakes.Workflow.Children.{Contexts}
use temporal_mistakes.Helpers.{zero_policy_options}
use temporal_mistakes.Payments.Charge.{ChargePaymentRequest, ChargePaymentResponse}
use temporal_mistakes.Payments.Purchase.{PurchaseRequest, panics, purchase_item}
use temporal_mistakes.Payments.PurchaseLaws.{ChargesOneDollar, executed, purchase_item_charges}
use temporal_mistakes.Examples.Cleanup.{
  PurchaseItemRequest, ShipItemRequest, ShipItemResponse, RefundPaymentRequest, context_done,
  purchase_item_v2,
}
use temporal_mistakes.Examples.CleanupLaws.{Ships, Refunds, purchase_item_v2_compensates}
use temporal_mistakes.Policy.Outbound.{intercepted}
use temporal_mistakes.Kubernetes.Activities.{
  StartKubernetesJobRequest, StartKubernetesJobResponse, AwaitKubernetesJobRequest,
  AwaitKubernetesJobResponse,
}
use temporal_mistakes.Kubernetes.Workflow.{RunKubernetesJobRequest, run_kubernetes_job}
use temporal_mistakes.Composed.Intercepted.{interception_invisible}

abbrev execution : WorkflowExecution
execution = record { id = "w"; run_id = "r" }

abbrev charge : ActivityOptions whole.Float → ChargePaymentRequest → Err ⊎ ChargePaymentResponse
charge opts req = inr (record { charge_id = "ch"; status = "paid" })

abbrev unknown : PurchaseRequest
unknown = record { sku = "5678" }

purchase_item_charges_example :
    ((unknown.sku ≡ "1234")
      × ChargesOneDollar whole history plain charge
          (purchase_item whole history plain charge (executing none) unknown))
    ⊎ ((unknown.sku ≢ "1234")
        × (purchase_item whole history plain charge (executing none) unknown ≡ panics))
purchase_item_charges_example =
    purchase_item_charges whole history plain charge history-IsLawful plain-IsFaithful none unknown
      (executing none) executed

-- Contexts by their errors.
abbrev contexts : Contexts RefundPaymentRequest
contexts = record {
  Context = Option Err;
  err_of = λ c. c;
  disconnect = λ c. none;
  start_child = λ c opts req. none;
}

abbrev context_canceled : Option Err
context_canceled = some (node canceled nil)

abbrev too_late : Err
too_late = node (other "deadline exceeded") nil

abbrev order : PurchaseItemRequest
order = record { order_id = "7"; customer_id = "c" }

abbrev ship : ActivityOptions whole.Float → ShipItemRequest → Err ⊎ ShipItemResponse
ship opts req = inr (record { tracking_id = "t" })

purchase_item_v2_compensates_example :
    Ships contexts too_late ship context_canceled order context_done
      (purchase_item_v2 contexts too_late ship context_canceled order context_done)
    ⊎ Refunds contexts too_late ship context_canceled order context_done
        (purchase_item_v2 contexts too_late ship context_canceled order context_done)
purchase_item_v2_compensates_example =
    purchase_item_v2_compensates contexts too_late ship context_canceled order context_done
      (λ c. refl) (λ e h. absurd (ground (arith, h)))

abbrev job : RunKubernetesJobRequest ℕ
job = record { name = "n"; namespace = "ns"; spec = 0 }

abbrev start :
    ActivityOptions whole.Float → StartKubernetesJobRequest ℕ → Err ⊎ StartKubernetesJobResponse
start opts req = inr (record { uid = "7f" })

abbrev await :
    ActivityOptions whole.Float → AwaitKubernetesJobRequest → Err ⊎ AwaitKubernetesJobResponse
await opts req = inl too_late

interception_invisible_example :
    (purchase_item whole history plain
        (intercepted whole (λ x. x) zero_policy_options "ChargePayment" execution charge)
        (executing none)
        unknown
      ≡ purchase_item whole history plain charge (executing none) unknown)
    × (run_kubernetes_job whole
          (intercepted whole (λ x. x) zero_policy_options "StartKubernetesJob" execution start)
          (intercepted whole (λ x. x) zero_policy_options "AwaitKubernetesJob" execution await)
          job
        ≡ run_kubernetes_job whole start await job)
unfolding required_retries
interception_invisible_example =
    interception_invisible whole (λ x. x) zero_policy_options execution 2 whole-IsLawful refl
      (omega arith) history plain charge start await (executing none) unknown job
