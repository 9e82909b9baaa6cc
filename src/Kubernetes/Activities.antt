-- ===== src/Kubernetes/Activities.antt =====
-- examples/go/kubernetes/activity.go: the two activities, over the jobs of a cluster. The texts of
-- errors are a parameter.
use temporal_mistakes.Base.{
  Option, none, some, false, ◌⊎◌, inl, inr, String, List, [], ◌∷◌, pos, not, or_else, if◌then◌else◌,
}
use temporal_mistakes.Base.Text.{concat}
use temporal_mistakes.Errors.{Err, application_error}
use temporal_mistakes.Kubernetes.Jobs.{
  ConditionType, job_complete, job_failed, other_condition, Condition, Job, Jobs,
}

pub record StartKubernetesJobRequest (Spec : Type 0) : Type 0 where
  pub name : String
  pub namespace : String
  pub spec : Spec

pub record StartKubernetesJobResponse : Type 0 where
  pub uid : String

pub record AwaitKubernetesJobRequest : Type 0 where
  pub name : String
  pub namespace : String

pub record AwaitKubernetesJobResponse : Type 0 where
  pub status : String

-- temporal.NewApplicationErrorWithCause
abbrev pub with_cause : (message type_name : String) → Err → Err
with_cause message type_name cause =
    application_error
      (record {
        message = message;
        type_name = type_name;
        non_retryable = false;
        next_retry_delay = pos 0;
        details = [];
      })
      cause

module _ (api : Jobs) (text : Err → String) where
  abbrev pub job_error : (what type_name namespace name : String) → Err → Err
  job_error what type_name namespace name err =
      with_cause (concat (what ∷ " " ∷ namespace ∷ "/" ∷ name ∷ ": " ∷ text err ∷ [])) type_name err

  abbrev pub existing_job : (namespace name : String) → Err ⊎ Job → Err ⊎ StartKubernetesJobResponse
  existing_job namespace name (inl err) =
      inl (job_error "get existing job" "GetJob" namespace name err)
  existing_job namespace name (inr existing) = inr (record { uid = existing.uid })

  -- The switch on the result of Create, in the cluster that Get reads.
  abbrev pub after_create :
      StartKubernetesJobRequest api.Spec
      → api.Cluster
      → Err ⊎ Job
      → Err ⊎ StartKubernetesJobResponse
  after_create req c (inr created) = inr (record { uid = created.uid })
  after_create req c (inl err) =
      if api.is_already_exists err
      then existing_job req.namespace req.name (api.get c req.namespace req.name)
      else inl (job_error "create job" "CreateJob" req.namespace req.name err)

  -- The cluster after one attempt, and its result, where `others` is what others do to the cluster
  -- between the two calls.
  unfoldable pub start_kubernetes_job :
      (others : api.Cluster → api.Cluster)
      → api.Cluster
      → StartKubernetesJobRequest api.Spec
      → api.Cluster × (Err ⊎ StartKubernetesJobResponse)
  start_kubernetes_job others c req =
      let (created, result) = api.create c req.namespace req.name req.spec in
      let c' = others created in (c', after_create req c' result)

-- The cases of the switch that return.
abbrev pub status_of : ConditionType → Option String
status_of job_complete = some "completed"
status_of job_failed = some "failed"
status_of (other_condition t) = none

-- `terminalStatus`; `none` is ("", false).
unfoldable pub terminal_status : List Condition → Option String
terminal_status [] = none
terminal_status (cond ∷ conds) =
    let rest = terminal_status conds in
    if not cond.is_true then rest else or_else (status_of cond.kind) rest

-- What the select takes: the end of the context, with its error, or the next tick.
pub data Wake : Type 0 where
  context_done : Err → Wake
  tick : Wake

-- One round of the loop: what Get answers, and what the select takes if it is reached.
pub record Poll : Type 0 where
  pub got : Err ⊎ Job
  pub wake : Wake

module _ (api : Jobs) (text : Err → String) where
  -- How a round ends the loop, or `none`.
  abbrev pub after_status : Option String → Wake → Option (Err ⊎ AwaitKubernetesJobResponse)
  after_status (some status) wake = some (inr (record { status = status }))
  after_status none (context_done err) = some (inl err)
  after_status none tick = none

  unfoldable pub poll_once :
      AwaitKubernetesJobRequest → Err ⊎ Job → Wake → Option (Err ⊎ AwaitKubernetesJobResponse)
  poll_once req (inl err) wake =
      some (inl (job_error api text "get job" "GetJob" req.namespace req.name err))
  poll_once req (inr j) wake = after_status (terminal_status j.conditions) wake

  -- `AwaitKubernetesJob` over the rounds that the run comes to, without its heartbeats; `none` is a
  -- loop that goes on.
  unfoldable pub await_kubernetes_job :
      AwaitKubernetesJobRequest → List Poll → Option (Err ⊎ AwaitKubernetesJobResponse)
  await_kubernetes_job req [] = none
  await_kubernetes_job req (p ∷ ps) =
      or_else (poll_once req p.got p.wake) (await_kubernetes_job req ps)
