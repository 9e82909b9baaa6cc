-- ===== src/Composed/Intercepted.antt =====
-- The workflows of examples/go/payments and examples/go/kubernetes with and without the outbound side
-- of examples/go/activitypolicyinterceptor/interceptor.go.
use temporal_mistakes.Base.{
  ℕ, ◌≤◌, ◌≡◌, refl, ap, ◌∙◌, ◌⊎◌, inl, inr, Option, none, some, String, List, pos, sym,
}
use temporal_mistakes.Errors.{Err}
use temporal_mistakes.Runtime.{Runtime, IsLawful}
use temporal_mistakes.Sdk.{ActivityOptions, WorkflowExecution}
use temporal_mistakes.Policy.Config.{Options, required_retries}
use temporal_mistakes.Policy.Evaluate.{Value}
use temporal_mistakes.Policy.Outbound.{through, intercepted}
use temporal_mistakes.Workflow.Activities.{await_activity-eq}
use temporal_mistakes.Workflow.SideEffects.{Converter, Run, SideEffects}
use temporal_mistakes.Kubernetes.Activities.{
  StartKubernetesJobRequest, StartKubernetesJobResponse, AwaitKubernetesJobRequest,
  AwaitKubernetesJobResponse,
}
use temporal_mistakes.Kubernetes.Workflow.{
  RunKubernetesJobRequest, start_options, await_options, with_await, with_start, run_kubernetes_job,
}
use temporal_mistakes.Payments.Charge.{ChargePaymentRequest, ChargePaymentResponse}
use temporal_mistakes.Payments.Purchase.{
  PurchaseRequest, purchase_options, paid, with_charge_request, purchase_item, returns,
}
use temporal_mistakes.Composed.Accepted.{PassesUnchanged, scheduled_options_pass}

module _ (rt : Runtime) {Payload : Type 0} (sdk : SideEffects Payload)
    (conv : Converter Payload (Option ChargePaymentRequest))
    (a b : ActivityOptions rt.Float → ChargePaymentRequest → Err ⊎ ChargePaymentResponse)
    (same : (req : ChargePaymentRequest)
      → a (purchase_options rt) req ≡ b (purchase_options rt) req) where
  paid_congr : (r : Err ⊎ ChargePaymentResponse) → paid rt sdk conv a r ≡ paid rt sdk conv b r
  paid_congr (inl err) = refl
  paid_congr (inr resp) = refl

  with_charge_request_congr :
      (r : Err ⊎ Option ChargePaymentRequest)
      → with_charge_request rt sdk conv a r ≡ with_charge_request rt sdk conv b r
  with_charge_request_congr (inl err) = refl
  with_charge_request_congr (inr none) = refl
  with_charge_request_congr (inr (some req)) =
      ap (λ r. returns (paid rt sdk conv a r))
        (await_activity-eq a (purchase_options rt) req
          ∙ same req
          ∙ sym (await_activity-eq b (purchase_options rt) req))
      ∙ ap returns (paid_congr _)

  -- PurchaseItem depends on the activity only at its own options.
  purchase_item_congr :
      (run : Run Payload) (req : PurchaseRequest)
      → purchase_item rt sdk conv a run req ≡ purchase_item rt sdk conv b run req
  unfolding purchase_item
  purchase_item_congr run req = with_charge_request_congr _

module _ (rt : Runtime) {Spec : Type 0}
    (start start' : ActivityOptions rt.Float
      → StartKubernetesJobRequest Spec
      → Err ⊎ StartKubernetesJobResponse)
    (await await' : ActivityOptions rt.Float
      → AwaitKubernetesJobRequest
      → Err ⊎ AwaitKubernetesJobResponse)
    (same_start : (req : StartKubernetesJobRequest Spec)
      → start (start_options rt) req ≡ start' (start_options rt) req)
    (same_await : (req : AwaitKubernetesJobRequest)
      → await (await_options rt) req ≡ await' (await_options rt) req) where
  with_await_congr :
      (resp : StartKubernetesJobResponse) (r : Err ⊎ AwaitKubernetesJobResponse)
      → with_await rt start await resp r ≡ with_await rt start' await' resp r
  with_await_congr resp (inl err) = refl
  with_await_congr resp (inr x) = refl

  with_start_congr :
      (req : RunKubernetesJobRequest Spec) (r : Err ⊎ StartKubernetesJobResponse)
      → with_start rt start await req r ≡ with_start rt start' await' req r
  with_start_congr req (inl err) = refl
  with_start_congr req (inr resp) =
      ap (with_await rt start await resp) (
        await_activity-eq await (await_options rt) _
        ∙ same_await _
        ∙ sym (await_activity-eq await' (await_options rt) _))
      ∙ with_await_congr resp _

  -- RunKubernetesJob depends on its activities only at their own options.
  run_kubernetes_job_congr :
      (req : RunKubernetesJobRequest Spec)
      → run_kubernetes_job rt start await req ≡ run_kubernetes_job rt start' await' req
  unfolding run_kubernetes_job
  run_kubernetes_job_congr req =
      ap (with_start rt start await req) (
        await_activity-eq start (start_options rt) _
        ∙ same_start _
        ∙ sym (await_activity-eq start' (start_options rt) _))
      ∙ with_start_congr req _

module _ (rt : Runtime) (visit : List (String × Value) → List (String × Value)) (o : Options)
    (execution : WorkflowExecution) (n : ℕ) (laws : IsLawful rt)
    (required : required_retries o ≡ pos n) (few : n ≤ 27) where
  intercepted-PassesUnchanged :
      (activity_type : String) (opts : ActivityOptions rt.Float) {Req Resp : Type 0}
      (run : ActivityOptions rt.Float → Req → Err ⊎ Resp) (req : Req)
      → PassesUnchanged rt visit o activity_type execution opts
      → intercepted rt visit o activity_type execution run opts req ≡ run opts req
  unfolding intercepted
  intercepted-PassesUnchanged activity_type opts run req (quiet, passed) =
      ap (λ d. through rt visit o activity_type execution d run req) passed

  -- With at most 27 required retries, PurchaseItem and RunKubernetesJob return the same whether their
  -- activities are scheduled through the interceptor or not, whatever the severities of the policies
  -- and whatever the activities do.
  pub interception_invisible :
      {Payload Spec : Type 0} (sdk : SideEffects Payload)
      (conv : Converter Payload (Option ChargePaymentRequest))
      (charge : ActivityOptions rt.Float → ChargePaymentRequest → Err ⊎ ChargePaymentResponse)
      (start : ActivityOptions rt.Float
        → StartKubernetesJobRequest Spec
        → Err ⊎ StartKubernetesJobResponse)
      (await : ActivityOptions rt.Float
        → AwaitKubernetesJobRequest
        → Err ⊎ AwaitKubernetesJobResponse)
      (run : Run Payload) (req : PurchaseRequest) (job : RunKubernetesJobRequest Spec)
      → (purchase_item rt sdk conv (intercepted rt visit o "ChargePayment" execution charge) run req
          ≡ purchase_item rt sdk conv charge run req)
        × (run_kubernetes_job rt
              (intercepted rt visit o "StartKubernetesJob" execution start)
              (intercepted rt visit o "AwaitKubernetesJob" execution await)
              job
            ≡ run_kubernetes_job rt start await job)
  interception_invisible sdk conv charge start await run req job =
      let passes = λ (activity_type : String).
        scheduled_options_pass rt visit o activity_type execution n laws required few in
      (
        purchase_item_congr rt sdk conv _ charge
            (λ r.
              intercepted-PassesUnchanged "ChargePayment" (purchase_options rt) charge r
                (passes "ChargePayment").0)
            run req,
        run_kubernetes_job_congr rt _ start _ await
            (λ r.
              intercepted-PassesUnchanged "StartKubernetesJob" (start_options rt) start r
                (passes "StartKubernetesJob").1.0)
            (λ r.
              intercepted-PassesUnchanged "AwaitKubernetesJob" (await_options rt) await r
                (passes "AwaitKubernetesJob").1.1.0)
            job,
      )
