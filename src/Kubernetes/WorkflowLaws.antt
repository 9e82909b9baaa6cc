-- ===== src/Kubernetes/WorkflowLaws.antt =====
-- `RunKubernetesJob` of examples/go/kubernetes/workflow.go over the attempts of its activities.
use temporal_mistakes.Base.{
  ◌≡◌, refl, sym, ap, subst, ◌∙◌, ◌⊎◌, inl, inr, some, String, List, [], ◌∷◌, ◌++◌, All, All-mem,
  Memᴰ, arith,
}
use temporal_mistakes.Errors.{Err}
use temporal_mistakes.Runtime.{Runtime}
use temporal_mistakes.Sdk.{ActivityOptions}
use temporal_mistakes.Workflow.Activities.{await_activity-eq}
use temporal_mistakes.Kubernetes.Jobs.{Job, Jobs, IsLawful}
use temporal_mistakes.Kubernetes.Activities.{
  StartKubernetesJobRequest, StartKubernetesJobResponse, AwaitKubernetesJobRequest,
  AwaitKubernetesJobResponse, Poll, await_kubernetes_job,
}
use temporal_mistakes.Kubernetes.Conditions.{Finished}
use temporal_mistakes.Kubernetes.Starting.{
  Others, Keeps, attempts, ReportsOnly, start_kubernetes_job_stable,
}
use temporal_mistakes.Kubernetes.Waiting.{
  Decides, get_failed, finished, canceled, await_kubernetes_job_iff,
}
use temporal_mistakes.Kubernetes.Workflow.{
  RunKubernetesJobRequest, RunKubernetesJobResponse, start_options, await_options, with_await,
  with_start, run_kubernetes_job,
}

abbrev pub start_request :
    {Spec : Type 0} → RunKubernetesJobRequest Spec → StartKubernetesJobRequest Spec
start_request req = record { name = req.name; namespace = req.namespace; spec = req.spec }

abbrev pub await_request :
    {Spec : Type 0} → RunKubernetesJobRequest Spec → AwaitKubernetesJobRequest
await_request req = record { name = req.name; namespace = req.namespace }

module _ (rt : Runtime) {Spec : Type 0}
    (start : ActivityOptions rt.Float
      → StartKubernetesJobRequest Spec
      → Err ⊎ StartKubernetesJobResponse)
    (await : ActivityOptions rt.Float
      → AwaitKubernetesJobRequest
      → Err ⊎ AwaitKubernetesJobResponse)
    (req : RunKubernetesJobRequest Spec) where
  from_await :
      (s : StartKubernetesJobResponse) (w : Err ⊎ AwaitKubernetesJobResponse)
      (resp : RunKubernetesJobResponse)
      → with_await rt start await s w ≡ inr resp
      → (w ≡ inr (record { status = resp.status })) × (s.uid ≡ resp.uid)
  from_await s (inl err) resp e = absurd (ground arith)
  from_await s (inr w) resp e = (ground arith, ground arith)

  from_start :
      (r : Err ⊎ StartKubernetesJobResponse) (resp : RunKubernetesJobResponse)
      → with_start rt start await req r ≡ inr resp
      → (r ≡ inr (record { uid = resp.uid }))
        × (await (await_options rt) (await_request req) ≡ inr (record { status = resp.status }))
  from_start (inl err) resp e = absurd (ground arith)
  from_start (inr s) resp e =
      let (w, u) = from_await s _ resp e in
      (
        ap (λ u'. inr (record { uid = u' })) u,
        sym (await_activity-eq await (await_options rt) (await_request req)) ∙ w,
      )

  -- A success comes from a success of each activity, with their results.
  run_kubernetes_job_results :
      (resp : RunKubernetesJobResponse)
      → run_kubernetes_job rt start await req ≡ inr resp
      → (start (start_options rt) (start_request req) ≡ inr (record { uid = resp.uid }))
        × (await (await_options rt) (await_request req) ≡ inr (record { status = resp.status }))
  unfolding run_kubernetes_job
  run_kubernetes_job_results resp e =
      let (s, w) = from_start _ resp e in
      (sym (await_activity-eq start (start_options rt) (start_request req)) ∙ s, w)

  module _ (api : Jobs) (text : Err → String) where
    round_status :
        (p : Poll) (r : Err ⊎ AwaitKubernetesJobResponse) (status : String)
        → Decides api text (await_request req) p r
        → r ≡ inr (record { status = status })
        → (j : Job) × (p.got ≡ inr j) × Finished j.conditions status
    round_status p r status (get_failed err g e) h = absurd (ground arith)
    round_status p r status (finished j s g f e) h =
        (j, g, subst (Finished j.conditions) (ground arith) f)
    round_status p r status (canceled j err g u w e) h = absurd (ground arith)

pub mem-middle :
    {A : Type 0} (before : List A) (x : A) (after : List A) → Memᴰ x (before ++ x ∷ after)
mem-middle [] x after = Memᴰ.head refl
mem-middle (y ∷ before) x after = Memᴰ.tail (mem-middle before x after)

module _ (rt : Runtime) (api : Jobs) (text : Err → String)
    (start : ActivityOptions rt.Float
      → StartKubernetesJobRequest api.Spec
      → Err ⊎ StartKubernetesJobResponse)
    (await : ActivityOptions rt.Float
      → AwaitKubernetesJobRequest
      → Err ⊎ AwaitKubernetesJobResponse)
    (req : RunKubernetesJobRequest api.Spec) where
  -- Some round reads a job whose conditions have the status.
  abbrev pub SawFinished : List Poll → String → Type 0
  SawFinished polls status =
      (p : Poll) × (j : Job) × Memᴰ p polls × (p.got ≡ inr j) × Finished j.conditions status

  saw_finished :
      (polls : List Poll) (status : String)
      → await_kubernetes_job api text (await_request req) polls
        ≡ some (inr (record { status = status }))
      → SawFinished polls status
  saw_finished polls status e =
      let h = ((await_kubernetes_job_iff api text (await_request req) polls).0 _).0 e in
      let (j, g, f) = round_status rt start await req api text h.last _ status h.ends refl in
      (h.last, j, subst (Memᴰ h.last) (sym h.split) (mem-middle h.before h.last h.after), g, f)

  -- If the start of the job is one of its attempts, in a cluster where others may do anything at any
  -- time but to remove the job, and the wait is a run of the polling activity, then a
  -- workflow that succeeds reports the UID that all successful attempts report, and the status of a
  -- job that some round of the polling found finished.
  pub run_kubernetes_job_reports :
      IsLawful api
      → (c : api.Cluster) (rest : List (Others api text (start_request req))) (polls : List Poll)
        (resp : RunKubernetesJobResponse)
      → All (Keeps api text (start_request req)) rest
      → Memᴰ
          (start (start_options rt) (start_request req))
          (attempts api text (start_request req) c rest)
      → await_kubernetes_job api text (await_request req) polls
        ≡ some (await (await_options rt) (await_request req))
      → run_kubernetes_job rt start await req ≡ inr resp
      → All
          (ReportsOnly api text (start_request req) resp.uid)
          (attempts api text (start_request req) c rest)
        × SawFinished polls resp.status
  run_kubernetes_job_reports laws c rest polls resp keeps started awaited e =
      let (s, w) = run_kubernetes_job_results rt start await req resp e in
      let (u, known) = start_kubernetes_job_stable api text (start_request req) laws c rest keeps in
      let own : resp.uid ≡ u =
        subst (ReportsOnly api text (start_request req) u) s
          (All-mem (ReportsOnly api text (start_request req) u) _ _ known started) in
      (
        subst
            (λ v.
              All (ReportsOnly api text (start_request req) v)
                (attempts api text (start_request req) c rest))
            (sym own) known,
        saw_finished polls resp.status (awaited ∙ ap some w),
      )
