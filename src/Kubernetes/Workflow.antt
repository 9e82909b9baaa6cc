-- ===== src/Kubernetes/Workflow.antt =====
-- examples/go/kubernetes/workflow.go: `RunKubernetesJob`, over the execution of its two activities.
use temporal_mistakes.Base.{◌⊎◌, inl, inr, some, String, pos}
use temporal_mistakes.Errors.{Err}
use temporal_mistakes.Runtime.{Runtime}
use temporal_mistakes.Sdk.{RetryPolicy, ActivityOptions, zero_options, second, minute, hour}
use temporal_mistakes.Workflow.Activities.{await_activity}
use temporal_mistakes.Kubernetes.Activities.{
  StartKubernetesJobRequest, StartKubernetesJobResponse, AwaitKubernetesJobRequest,
  AwaitKubernetesJobResponse,
}

pub record RunKubernetesJobRequest (Spec : Type 0) : Type 0 where
  pub name : String
  pub namespace : String
  pub spec : Spec

pub record RunKubernetesJobResponse : Type 0 where
  pub uid : String
  pub status : String

module _ (rt : Runtime) where
  -- retryPolicy; the attempts are not limited.
  abbrev pub retry_policy : RetryPolicy rt.Float
  retry_policy = record {
    initial_interval = second;
    backoff_coefficient = rt.of_int (pos 2);
    maximum_interval = minute;
    maximum_attempts = pos 0;
  }

  abbrev pub start_options : ActivityOptions rt.Float
  start_options = record zero_options {
    start_to_close_timeout = pos 30_000_000_000;
    schedule_to_close_timeout = hour;
    retry_policy = some retry_policy;
  }

  abbrev pub await_options : ActivityOptions rt.Float
  await_options = record zero_options {
    heartbeat_timeout = pos 30_000_000_000;
    schedule_to_close_timeout = hour;
    retry_policy = some retry_policy;
  }

  module _ {Spec : Type 0}
      (start : ActivityOptions rt.Float
        → StartKubernetesJobRequest Spec
        → Err ⊎ StartKubernetesJobResponse)
      (await : ActivityOptions rt.Float
        → AwaitKubernetesJobRequest
        → Err ⊎ AwaitKubernetesJobResponse) where
    abbrev pub with_await :
        StartKubernetesJobResponse
        → Err ⊎ AwaitKubernetesJobResponse
        → Err ⊎ RunKubernetesJobResponse
    with_await start_resp (inl err) = inl err
    with_await start_resp (inr await_resp) =
        inr (record { uid = start_resp.uid; status = await_resp.status })

    abbrev pub with_start :
        RunKubernetesJobRequest Spec
        → Err ⊎ StartKubernetesJobResponse
        → Err ⊎ RunKubernetesJobResponse
    with_start req (inl err) = inl err
    with_start req (inr start_resp) =
        with_await start_resp (
          await_activity await await_options
            (record { name = req.name; namespace = req.namespace }))

    unfoldable pub run_kubernetes_job :
        RunKubernetesJobRequest Spec → Err ⊎ RunKubernetesJobResponse
    run_kubernetes_job req = with_start req (
        await_activity start start_options
          (record { name = req.name; namespace = req.namespace; spec = req.spec }))
