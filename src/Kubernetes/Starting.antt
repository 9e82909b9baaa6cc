-- ===== src/Kubernetes/Starting.antt =====
-- Attempts of `StartKubernetesJob` of examples/go/kubernetes/activity.go, retried in a cluster that
-- changes between them.
use temporal_mistakes.Base.{
  ◌≡◌, refl, ◌⊎◌, inl, inr, Option, some, Bool, true, false, String, List, [], ◌∷◌, All,
  if◌then◌else◌, arith,
}
use temporal_mistakes.Errors.{Err}
use temporal_mistakes.Kubernetes.Jobs.{Job, Jobs, IsLawful}
use temporal_mistakes.Kubernetes.Activities.{
  StartKubernetesJobRequest, StartKubernetesJobResponse, existing_job, after_create,
  start_kubernetes_job,
}

module _ (api : Jobs) (text : Err → String) (req : StartKubernetesJobRequest api.Spec) where
  abbrev identity : api.Cluster → Option String
  identity c = api.uid_of c req.namespace req.name

  -- What others do to the cluster during an attempt and after it.
  abbrev pub Others : Type 0
  Others = (api.Cluster → api.Cluster) × (api.Cluster → api.Cluster)

  abbrev pub attempts : api.Cluster → List Others → List (Err ⊎ StartKubernetesJobResponse)
  attempts c [] = []
  attempts c ((during, after) ∷ rest) =
      let (c', result) = start_kubernetes_job api text during c req in
      result ∷ attempts (after c') rest

  -- They leave a job under the name in its place.
  abbrev pub Leaves : (api.Cluster → api.Cluster) → Type 0
  Leaves others =
      (c : api.Cluster) (u : String) → identity c ≡ some u → identity (others c) ≡ some u

  abbrev pub Keeps : Others → Type 0
  Keeps (during, after) = Leaves during × Leaves after

  abbrev pub ReportsOnly : String → Err ⊎ StartKubernetesJobResponse → Type 0
  ReportsOnly u (inl err) = Unit
  ReportsOnly u (inr resp) = resp.uid ≡ u

  module _ (laws : IsLawful api) where
    -- What Get answers, when Create found the name taken.
    after_get-identity :
        (c : api.Cluster) (b : Bool) (g : Err ⊎ Job) (other : Err)
        (resp : StartKubernetesJobResponse)
        → ((j : Job) → g ≡ inr j → identity c ≡ some j.uid)
        → (if b then existing_job api text req.namespace req.name g else inl other) ≡ inr resp
        → identity c ≡ some resp.uid
    after_get-identity c true (inl err) other resp h e = ground arith
    after_get-identity c true (inr j) other resp h e = ground (arith, h j refl)
    after_get-identity c false g other resp h e = ground arith

    after_create-identity :
        (c : api.Cluster) (r : Err ⊎ Job) (resp : StartKubernetesJobResponse)
        → ((j : Job) → r ≡ inr j → identity c ≡ some j.uid)
        → after_create api text req c r ≡ inr resp
        → identity c ≡ some resp.uid
    after_create-identity c (inr j) resp h e = ground (arith, h j refl)
    after_create-identity c (inl err) resp h e =
        after_get-identity c (api.is_already_exists err) (api.get c req.namespace req.name) _ resp
          (λ j. laws.got c req.namespace req.name j) e

    -- A success reports the identity of the job that stands under the name.
    start_kubernetes_job-identity :
        (during : api.Cluster → api.Cluster) (c : api.Cluster) (resp : StartKubernetesJobResponse)
        → Leaves during
        → (start_kubernetes_job api text during c req).1 ≡ inr resp
        → identity (start_kubernetes_job api text during c req).0 ≡ some resp.uid
    unfolding start_kubernetes_job
    start_kubernetes_job-identity during c resp k e =
        after_create-identity _ _ resp
          (λ j h. k _ j.uid (laws.created c req.namespace req.name req.spec j h)) e

    start_kubernetes_job-kept :
        (during : api.Cluster → api.Cluster) (c : api.Cluster) (u : String)
        → Leaves during
        → identity c ≡ some u
        → identity (start_kubernetes_job api text during c req).0 ≡ some u
    unfolding start_kubernetes_job
    start_kubernetes_job-kept during c u k e =
        k _ u (laws.kept c req.namespace req.name req.spec u e)

    -- What the job's identity allows a result to report.
    reports :
        (c : api.Cluster) (r : Err ⊎ StartKubernetesJobResponse) (u : String)
        → ((resp : StartKubernetesJobResponse) → r ≡ inr resp → identity c ≡ some resp.uid)
        → identity c ≡ some u
        → ReportsOnly u r
    reports c (inl err) u h e = tt
    reports c (inr resp) u h e = ground (arith, h resp refl)

    attempts_known :
        (c : api.Cluster) (rest : List Others) (u : String)
        → All Keeps rest
        → identity c ≡ some u
        → All (ReportsOnly u) (attempts c rest)
    attempts_known c [] u k e = tt
    attempts_known c ((during, after) ∷ rest) u ((kd, ka), ks) e =
        let (c', r) = start_kubernetes_job api text during c req in
        let stays = start_kubernetes_job-kept during c u kd e in
        (
          reports c' r u (λ resp. start_kubernetes_job-identity during c resp kd) stays,
          attempts_known (after c') rest u ks (ka c' u stays),
        )

    from_first :
        (c : api.Cluster) (r : Err ⊎ StartKubernetesJobResponse)
        (others : api.Cluster → api.Cluster) (rest : List Others)
        → ((resp : StartKubernetesJobResponse) → r ≡ inr resp → identity c ≡ some resp.uid)
        → Leaves others
        → All Keeps rest
        → (u : String) × All (ReportsOnly u) (attempts (others c) rest)
        → (u : String) × All (ReportsOnly u) (r ∷ attempts (others c) rest)
    from_first c (inl err) others rest h k ks (u, reported) = (u, (tt, reported))
    from_first c (inr resp) others rest h k ks known =
        (resp.uid, (refl, attempts_known (others c) rest resp.uid ks (k c resp.uid (h resp refl))))

    -- However often the activity is retried and whatever others do at any time, short of removing
    -- the job, all the attempts that succeed report the same UID.
    pub start_kubernetes_job_stable :
        (c : api.Cluster) (rest : List Others)
        → All Keeps rest
        → (u : String) × All (ReportsOnly u) (attempts c rest)
    start_kubernetes_job_stable c [] k = ("", tt)
    start_kubernetes_job_stable c ((during, after) ∷ rest) ((kd, ka), ks) =
        let (c', r) = start_kubernetes_job api text during c req in
        from_first c' r after rest (λ resp. start_kubernetes_job-identity during c resp kd) ka ks
          (start_kubernetes_job_stable (after c') rest ks)
