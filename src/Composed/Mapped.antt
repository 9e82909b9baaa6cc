-- ===== src/Composed/Mapped.antt =====
-- The activities of examples/go/payments/activity.go and examples/go/kubernetes/activity.go behind the
-- interceptor of examples/go/errormapperinterceptor/interceptor.go.
use temporal_mistakes.Base.{
  ◌≡◌, refl, subst, sym, Option, none, some, ◌⊎◌, inl, inr, Bool-cases, true, List, Memᴰ, ltb, leb,
  ◌&&◌, String,
}
use temporal_mistakes.Errors.{Err, matches, is_application, errors_as}
use temporal_mistakes.Runtime.{Runtime}
use temporal_mistakes.Sdk.{ActivityInfo}
use temporal_mistakes.Activity.Http.{Response, is_rejected, http_response_error}
use temporal_mistakes.Activity.Transport.{
  Request, classify_http_transport_error, transport_result, do_request,
}
use temporal_mistakes.ErrorMapper.Chain.{Options, execute_activity}
use temporal_mistakes.ErrorMapper.ChainLaws.{execute_activity-native}
use temporal_mistakes.Kubernetes.Jobs.{Job, Jobs}
use temporal_mistakes.Kubernetes.Activities.{
  StartKubernetesJobRequest, AwaitKubernetesJobRequest, AwaitKubernetesJobResponse, Poll,
  context_done, existing_job, after_create, start_kubernetes_job, await_kubernetes_job,
}
use temporal_mistakes.Kubernetes.Waiting.{
  get_failed, finished, canceled, await_kubernetes_job_iff, Decides,
}
use temporal_mistakes.Kubernetes.WorkflowLaws.{mem-middle}
use temporal_mistakes.Payments.Charge.{
  ChargePaymentRequest, ChargePaymentResponse, Services, build_charge_request, decoded,
  unless_rejected, with_response, with_request, exchange, charge_payment,
}

-- The result and the error of an activity.
abbrev pub returned : {A : Type 0} → Err ⊎ A → Option A × Option Err
returned (inl err) = (none, some err)
returned (inr x) = (some x, none)

-- An error, if there is one, is or wraps an *ApplicationError.
abbrev pub IsReported : {A : Type 0} → Err ⊎ A → Type 0
IsReported (inl err) = matches is_application err ≡ true
IsReported (inr x) = Unit

abbrev pub AnswersReported : Option Err → Type 0
AnswersReported none = Unit
AnswersReported (some err) = matches is_application err ≡ true

module _ {A : Type 0} (o : Options) where
  -- The interceptor leaves the result and the error as they are.
  abbrev pub Unmapped : Err ⊎ A → Type 0
  Unmapped r = execute_activity o (returned r) ≡ returned r

  IsReported-Unmapped : (r : Err ⊎ A) → IsReported r → Unmapped r
  unfolding execute_activity
  IsReported-Unmapped (inl err) h = execute_activity-native o none err (inl h)
  IsReported-Unmapped (inr x) h = refl

module _ (rt : Runtime) {Time Client Content : Type 0} (via : Services Time Client Content)
    (ctx : Option (ActivityInfo rt.Float)) (now : Time) where
  http_response_error-reports :
      (resp : Response)
      → AnswersReported (
          http_response_error rt via.status_text via.trimmed_text via.parse_time via.time_sub ctx
            resp now)
  unfolding http_response_error errors_as
  http_response_error-reports resp =
      elim (Bool-cases (leb 200 resp.status_code && ltb resp.status_code 400)) [
        | inl e ↦ rw e tt
        | inr e ↦ elim (Bool-cases (is_rejected resp.status_code)) [
          | inl k ↦ rw (e, k) refl
          | inr k ↦ rw (e, k) refl
        ]
      ]

  decoded-IsReported : (r : Err ⊎ ChargePaymentResponse) → IsReported (decoded rt via r)
  unfolding errors_as
  decoded-IsReported (inl err) = refl
  decoded-IsReported (inr out) = tt

  unless_rejected-IsReported :
      (o : Option Err) (resp : Response)
      → AnswersReported o
      → IsReported (unless_rejected rt via o resp)
  unless_rejected-IsReported none resp h = decoded-IsReported (via.decode resp)
  unless_rejected-IsReported (some err) resp h = h

  with_response-IsReported :
      (r : Err ⊎ Response) → IsReported r → IsReported (with_response rt via ctx now r)
  with_response-IsReported (inl err) h = h
  with_response-IsReported (inr resp) h =
      unless_rejected-IsReported _ resp (http_response_error-reports resp)

  transport_result-IsReported :
      (r : Err ⊎ Response)
      → IsReported
          (transport_result via.canonical via.error_text via.url_text via.default_client via.send r)
  unfolding transport_result classify_http_transport_error errors_as
  transport_result-IsReported (inl err) = refl
  transport_result-IsReported (inr resp) = tt

  with_request-IsReported : (r : Err ⊎ Request Content) → IsReported (with_request rt via ctx now r)
  unfolding do_request errors_as
  with_request-IsReported (inl err) = refl
  with_request-IsReported (inr req) =
      with_response-IsReported (exchange rt via ctx req) (transport_result-IsReported _)

  charge_payment-IsReported :
      (req : ChargePaymentRequest) → IsReported (charge_payment rt via ctx now req)
  unfolding charge_payment
  charge_payment-IsReported req = with_request-IsReported (build_charge_request rt via req)

module _ (api : Jobs) (text : Err → String) where
  existing_job-IsReported :
      (namespace name : String) (r : Err ⊎ Job)
      → IsReported (existing_job api text namespace name r)
  unfolding errors_as
  existing_job-IsReported namespace name (inl err) = refl
  existing_job-IsReported namespace name (inr j) = tt

  after_create-IsReported :
      (req : StartKubernetesJobRequest api.Spec) (c : api.Cluster) (r : Err ⊎ Job)
      → IsReported (after_create api text req c r)
  unfolding errors_as
  after_create-IsReported req c (inr j) = tt
  after_create-IsReported req c (inl err) = elim (Bool-cases (api.is_already_exists err)) [
    | inl e ↦ rw e (existing_job-IsReported req.namespace req.name _)
    | inr e ↦ rw e refl
  ]

  -- The wait ended with the error of the context, which is none of the program's.
  abbrev pub EndedByContext : List Poll → Err ⊎ AwaitKubernetesJobResponse → Type 0
  EndedByContext polls r =
      (p : Poll) × (err : Err) × Memᴰ p polls × (p.wake ≡ context_done err) × (r ≡ inl err)

  decided :
      (req : AwaitKubernetesJobRequest) (p : Poll) (r : Err ⊎ AwaitKubernetesJobResponse)
      → Decides api text req p r
      → IsReported r ⊎ ((err : Err) × (p.wake ≡ context_done err) × (r ≡ inl err))
  unfolding errors_as
  decided req p r (get_failed err g e) = inl (subst IsReported (sym e) refl)
  decided req p r (finished j s g f e) = inl (subst IsReported (sym e) tt)
  decided req p r (canceled j err g u w e) = inr (err, w, e)

module _ (rt : Runtime) {Time Client Content : Type 0} (via : Services Time Client Content)
    (ctx : Option (ActivityInfo rt.Float)) (now : Time) (api : Jobs) (text : Err → String) where
  -- Whatever the mappers are, the interceptor changes no result and no error of ChargePayment and of
  -- StartKubernetesJob, and none with which AwaitKubernetesJob returns but the error of its context.
  pub activities-Unmapped :
      (o : Options) (charge : ChargePaymentRequest) (others : api.Cluster → api.Cluster)
      (c : api.Cluster) (start : StartKubernetesJobRequest api.Spec)
      (await : AwaitKubernetesJobRequest) (polls : List Poll) (r : Err ⊎ AwaitKubernetesJobResponse)
      → await_kubernetes_job api text await polls ≡ some r
      → Unmapped o (charge_payment rt via ctx now charge)
        × Unmapped o (start_kubernetes_job api text others c start).1
        × (Unmapped o r ⊎ EndedByContext api text polls r)
  unfolding start_kubernetes_job
  activities-Unmapped o charge others c start await polls r e =
      let ended = ((await_kubernetes_job_iff api text await polls).0 r).0 e in
      (
        IsReported-Unmapped o _ (charge_payment-IsReported rt via ctx now charge),
        IsReported-Unmapped o _ (after_create-IsReported api text start _ _),
        elim (decided api text await ended.last r ended.ends) [
          | inl h ↦ inl (IsReported-Unmapped o r h)
          | inr (err, w, k) ↦ inr (
            ended.last,
            err,
            subst (Memᴰ ended.last) (sym ended.split)
                (mem-middle ended.before ended.last ended.after),
            w,
            k,
          )
        ],
      )
