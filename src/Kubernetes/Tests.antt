-- ===== src/Kubernetes/Tests.antt =====
-- The theorems about the Kubernetes example on a cluster with room for one job.
use temporal_mistakes.Base.{
  ◌≡◌, refl, ◌↔◌, ◌⊎◌, inl, inr, Option, none, some, true, false, String, List, [], ◌∷◌, All, Memᴰ,
  arith,
}
use temporal_mistakes.Errors.{Err, node, nil, other, canceled}
use temporal_mistakes.Runtime.{whole}
use temporal_mistakes.Workflow.Activities.{await_activity}
use temporal_mistakes.Kubernetes.Jobs.{job_complete, job_failed, Condition, Job, Jobs, IsLawful}
use temporal_mistakes.Kubernetes.Activities.{
  Poll, tick, context_done, start_kubernetes_job, poll_once, terminal_status, await_kubernetes_job,
}
use temporal_mistakes.Kubernetes.Starting.{attempts, ReportsOnly}
use temporal_mistakes.Kubernetes.Waiting.{Ended, Continues, await_kubernetes_job_iff}
use temporal_mistakes.Kubernetes.Workflow.{RunKubernetesJobRequest, run_kubernetes_job}
use temporal_mistakes.Kubernetes.WorkflowLaws.{
  SawFinished, start_request, await_request, run_kubernetes_job_reports,
}

abbrev new_job : Job
new_job = record { uid = "7f"; conditions = [] }

abbrev exists : Err
exists = node (other "already exists") nil

abbrev missing : Err
missing = node (other "not found") nil

abbrev create_one : Option Job → Option Job × (Err ⊎ Job)
create_one none = (some new_job, inr new_job)
create_one (some j) = (some j, inl exists)

abbrev get_one : Option Job → Err ⊎ Job
get_one none = inl missing
get_one (some j) = inr j

abbrev uid_of_one : Option Job → Option String
uid_of_one none = none
uid_of_one (some j) = some j.uid

abbrev one_job : Jobs
one_job = record {
  Cluster = Option Job;
  Spec = Unit;
  create = λ c namespace name spec. create_one c;
  get = λ c namespace name. get_one c;
  is_already_exists = λ err. true;
  uid_of = λ c namespace name. uid_of_one c;
}

one_job-created :
    (c : Option Job) (j : Job) → (create_one c).1 ≡ inr j → uid_of_one (create_one c).0 ≡ some j.uid
one_job-created none j e = ground arith
one_job-created (some k) j e = absurd (ground arith)

one_job-kept :
    (c : Option Job) (u : String) → uid_of_one c ≡ some u → uid_of_one (create_one c).0 ≡ some u
one_job-kept none u e = absurd (ground arith)
one_job-kept (some j) u e = e

one_job-got : (c : Option Job) (j : Job) → get_one c ≡ inr j → uid_of_one c ≡ some j.uid
one_job-got none j e = absurd (ground arith)
one_job-got (some k) j e = ground arith

one_job-IsLawful : IsLawful one_job
one_job-IsLawful = record {
  created = λ c namespace name spec j e. one_job-created c j e;
  kept = λ c namespace name spec u e. one_job-kept c u e;
  got = λ c namespace name j e. one_job-got c j e;
}

abbrev text : Err → String
text err = "error"

abbrev run_request : RunKubernetesJobRequest Unit
run_request = record { name = "backup"; namespace = "ops"; spec = tt }

abbrev not_failed : Condition
not_failed = record { kind = job_failed; is_true = false }

abbrev done : Condition
done = record { kind = job_complete; is_true = true }

abbrev polls : List Poll
polls =
    (record { got = inr new_job; wake = tick })
    ∷ (record {
      got = inr (record { uid = "7f"; conditions = not_failed ∷ done ∷ [] });
      wake = context_done (node canceled nil);
    })
    ∷ []

await_kubernetes_job_iff_example :
    ((r : _)
      → (await_kubernetes_job one_job text (await_request run_request) polls ≡ some r)
        ↔ Ended one_job text (await_request run_request) polls r)
    × ((await_kubernetes_job one_job text (await_request run_request) polls ≡ none)
        ↔ All (Continues one_job text (await_request run_request)) polls)
await_kubernetes_job_iff_example =
    await_kubernetes_job_iff one_job text (await_request run_request) polls

run_kubernetes_job_reports_example :
    All
      (ReportsOnly one_job text (start_request run_request) "7f")
      (attempts one_job text (start_request run_request) none (((λ c. c), (λ c. c)) ∷ []))
    × SawFinished whole one_job text
        (λ o r. inr (record { uid = "7f" }))
        (λ o r. inr (record { status = "completed" }))
        run_request
        polls
        "completed"
unfolding run_kubernetes_job await_kubernetes_job start_kubernetes_job poll_once terminal_status
    await_activity
run_kubernetes_job_reports_example =
    run_kubernetes_job_reports whole one_job text (λ o r. inr (record { uid = "7f" }))
      (λ o r. inr (record { status = "completed" })) run_request one_job-IsLawful none
      (((λ c. c), (λ c. c)) ∷ []) polls (record { uid = "7f"; status = "completed" })
      (((λ c u e. e), (λ c u e. e)), tt) (Memᴰ.head refl) refl refl
