-- ===== src/Policy/Rules.antt =====
-- specs/activitypolicyinterceptor/README.md, requirements 8, 12, 13, 16 and 19, as a relation
-- between a scheduling call and a policy.
use temporal_mistakes.Base.{
  ℕ, ◌<◌, ◌≡◌, ◌⊎◌, Option, some, Bool, true, String, List, map, ℤ, pos, ◌≤ℤ◌,
}
use temporal_mistakes.Runtime.{Runtime}
use temporal_mistakes.Sdk.{RetryPolicy}
use temporal_mistakes.Policy.Config.{
  schedule_to_close_required, max_attempts_too_low, local_activity_start_to_close_too_long,
  timeouts_permit_retries,
}
use temporal_mistakes.Policy.Requirement.{required_time}
use temporal_mistakes.Policy.Evaluate.{Violation, evaluate_policies}

-- What a scheduling call shows to the policies.
pub record Call (rt : Runtime) : Type 0 where
  pub schedule_to_close : ℤ
  pub start_to_close : ℤ
  pub heartbeat : ℤ
  pub retry_policy : Option (RetryPolicy rt.Float)
  pub is_local : Bool
  pub required_retries : ℤ

abbrev pub evaluate : (rt : Runtime) → Call rt → List Violation
evaluate rt c =
    evaluate_policies rt c.schedule_to_close c.start_to_close c.heartbeat c.retry_policy c.is_local
      c.required_retries

abbrev pub policies_of : (rt : Runtime) → Call rt → List String
policies_of rt c = map (λ w. w.policy) (evaluate rt c)

-- The detection delay of requirement 16, where it is determinable.
pub data Detects {rt : Runtime} (c : Call rt) (detect : ℕ) : Type 0 where
  by_heartbeat : 0 < detect → c.heartbeat ≡ pos detect → Detects c detect
  by_start_to_close :
      c.heartbeat ≤ℤ pos 0 → 0 < detect → c.start_to_close ≡ pos detect → Detects c detect

-- The call violates the policy `q`.
pub data Violates (rt : Runtime) (c : Call rt) (q : String) : Type 0 where
  -- requirement 8
  no_schedule_to_close :
      q ≡ schedule_to_close_required → c.schedule_to_close ≤ℤ pos 0 → Violates rt c q
  -- requirements 12 and 13
  one_or_two_attempts :
      (p : RetryPolicy rt.Float)
      → q ≡ max_attempts_too_low
      → c.retry_policy ≡ some p
      → (p.maximum_attempts ≡ pos 1) ⊎ (p.maximum_attempts ≡ pos 2)
      → Violates rt c q
  -- requirement 19
  long_local_activity :
      q ≡ local_activity_start_to_close_too_long
      → c.is_local ≡ true
      → (c.start_to_close ≤ℤ pos 0) ⊎ (pos 10_000_000_000 ≤ℤ c.start_to_close)
      → Violates rt c q
  -- requirement 16: N * detection_delay + Σ retry_interval(n) > schedule_to_close
  no_room :
      (n detect budget : ℕ)
      → q ≡ timeouts_permit_retries
      → c.required_retries ≡ pos n
      → 0 < n
      → Detects c detect
      → c.schedule_to_close ≡ pos budget
      → 0 < budget
      → budget < required_time rt c.retry_policy detect n
      → Violates rt c q
