-- ===== src/Kubernetes/Jobs.antt =====
-- What examples/go/kubernetes/activity.go uses of the Kubernetes client: the jobs of a cluster.
use temporal_mistakes.Base.{◌≡◌, Option, some, Bool, ◌⊎◌, inr, String, List}
use temporal_mistakes.Errors.{Err}

-- batchv1.JobConditionType
pub data ConditionType : Type 0 where
  job_complete job_failed : ConditionType
  other_condition : String → ConditionType

-- `is_true` is the test Status == ConditionTrue.
pub record Condition : Type 0 where
  pub kind : ConditionType
  pub is_true : Bool

-- The fields of *batchv1.Job that are read.
pub record Job : Type 0 where
  pub uid : String
  pub conditions : List Condition

-- Jobs(namespace).Create and Get; a name stands for a namespace and a name. `uid_of` is the identity
-- of the job that stands under a name, which no operation but these shows.
pub record Jobs : Type 1 where
  pub Cluster : Type 0
  pub Spec : Type 0
  pub create : Cluster → (namespace name : String) → Spec → Cluster × (Err ⊎ Job)
  pub get : Cluster → (namespace name : String) → Err ⊎ Job
  pub is_already_exists : Err → Bool
  pub uid_of : Cluster → (namespace name : String) → Option String

-- The documented behaviour. A create that fails may have had its effect.
pub record IsLawful (api : Jobs) : Type 0 where
  pub created :
      (c : api.Cluster) (namespace name : String) (spec : api.Spec) (j : Job)
      → (api.create c namespace name spec).1 ≡ inr j
      → api.uid_of (api.create c namespace name spec).0 namespace name ≡ some j.uid
  pub kept :
      (c : api.Cluster) (namespace name : String) (spec : api.Spec) (u : String)
      → api.uid_of c namespace name ≡ some u
      → api.uid_of (api.create c namespace name spec).0 namespace name ≡ some u
  pub got :
      (c : api.Cluster) (namespace name : String) (j : Job)
      → api.get c namespace name ≡ inr j
      → api.uid_of c namespace name ≡ some j.uid
