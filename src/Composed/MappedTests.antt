-- ===== src/Composed/MappedTests.antt =====
-- The theorem about the activities behind the error mapper at concrete runs.
use temporal_mistakes.Base.{◌⊎◌, inl, none, some, true, String, List, [], ◌∷◌, refl}
use temporal_mistakes.Errors.{Err}
use temporal_mistakes.Runtime.{whole}
use temporal_mistakes.ErrorMapper.Chain.{Options}
use temporal_mistakes.Kubernetes.Activities.{
  StartKubernetesJobRequest, AwaitKubernetesJobRequest, Poll, tick, poll_once, start_kubernetes_job,
  AwaitKubernetesJobResponse, await_kubernetes_job, job_error,
}
use temporal_mistakes.Payments.Samples.{charge_request, services, no_cluster, unreachable}
use temporal_mistakes.Payments.Charge.{charge_payment}
use temporal_mistakes.Composed.Mapped.{Unmapped, EndedByContext, activities-Unmapped}

-- A mapper that claims every error and drops it.
abbrev drop_all : Options
drop_all = record { mappers = (record { name = "drop"; fn = some (λ err. (none, true)) }) ∷ [] }

abbrev start : StartKubernetesJobRequest Unit
start = record { name = "n"; namespace = "ns"; spec = tt }

abbrev await : AwaitKubernetesJobRequest
await = record { name = "n"; namespace = "ns" }

abbrev polls : List Poll
polls = (record { got = inl unreachable; wake = tick }) ∷ []

abbrev show : Err → String
show err = "e"

abbrev failed : Err ⊎ AwaitKubernetesJobResponse
failed = inl (job_error no_cluster show "get job" "GetJob" "ns" "n" unreachable)

activities-Unmapped_example :
    Unmapped drop_all (charge_payment whole services none 0 charge_request)
    × Unmapped drop_all (start_kubernetes_job no_cluster show (λ c. c) tt start).1
    × (Unmapped drop_all failed ⊎ EndedByContext no_cluster show polls failed)
unfolding await_kubernetes_job poll_once
activities-Unmapped_example =
    activities-Unmapped whole services none 0 no_cluster show drop_all charge_request (λ c. c) tt
      start await polls failed refl
