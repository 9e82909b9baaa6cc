-- ===== src/Policy/Retries.antt =====
-- What timeouts_permit_retries of examples/go/activitypolicyinterceptor/interceptor.go is for: the
-- retries of an activity that Temporal starts before its schedule-to-close timeout has passed.
use text.Mathlib.TextEquality.{eq_iff}
use temporal_mistakes.Base.{
  inl, inr, Bool-cases, ltb, ℕ, zero, suc, ◌+◌, ◌*◌, ◌≤◌, ◌<◌, ◌≡◌, refl, sym, ap, subst, ◌∙◌, ◌↔◌,
  Option, String, List, [], ◌∷◌, All, length, Memᴰ, pos, arith,
}
use temporal_mistakes.Runtime.{Runtime, IsLawful}
use temporal_mistakes.Sdk.{RetryPolicy, ActivityOptions, WorkflowExecution}
use temporal_mistakes.Policy.Config.{
  schedule_to_close_required, max_attempts_too_low, local_activity_start_to_close_too_long,
  timeouts_permit_retries, Options, error, severity_for, required_retries,
}
use temporal_mistakes.Policy.Requirement.{documented_interval, interval_sum, required_time}
use temporal_mistakes.Policy.Rules.{
  Call, policies_of, Detects, by_heartbeat, by_start_to_close, Violates, no_schedule_to_close,
  one_or_two_attempts, long_local_activity, no_room,
}
use temporal_mistakes.Policy.Evaluate.{Value}
use temporal_mistakes.Policy.Outbound.{forwarded, execute_activity}
use temporal_mistakes.Policy.Enforcement.{regular_call, execute_activity_rejects_iff}
use temporal_mistakes.Policy.Agreement.{InRange, evaluate_policies_iff}

module _ (rt : Runtime) (p : Option (RetryPolicy rt.Float)) where
  -- When the retry after these failures starts, from the start of the attempt before retry `k`: each
  -- attempt takes some time to fail, and the documented interval passes before the next one.
  unfoldable pub retry_start : (k : ℕ) → (failures : List ℕ) → ℕ
  retry_start k [] = 0
  retry_start k (d ∷ ds) = (d + documented_interval rt p k) + retry_start (suc k) ds

  -- `n` failures that take the whole delay.
  abbrev slowest : (n detect : ℕ) → List ℕ
  slowest zero detect = []
  slowest (suc n) detect = detect ∷ slowest n detect

  module _ (detect : ℕ) where
    abbrev pub InTime : ℕ → Type 0
    InTime d = d ≤ detect

    slowest-InTime : (n : ℕ) → All InTime (slowest n detect)
    slowest-InTime zero = tt
    slowest-InTime (suc n) = (omega arith, slowest-InTime n)

    length-slowest : (n : ℕ) → length (slowest n detect) ≡ n
    length-slowest zero = refl
    length-slowest (suc n) = ap suc (length-slowest n)

    retry_start-slowest :
        (n i : ℕ) → retry_start i (slowest n detect) ≡ n * detect + interval_sum rt p n i
    unfolding retry_start interval_sum
    retry_start-slowest zero i = omega arith
    retry_start-slowest (suc n) i = grind (arith, retry_start-slowest n (suc i))

    retry_start_bound :
        (i : ℕ) (ds : List ℕ)
        → All InTime ds
        → retry_start i ds ≤ length ds * detect + interval_sum rt p (length ds) i
    unfolding retry_start interval_sum
    retry_start_bound i [] h = omega arith
    retry_start_bound i (d ∷ ds) (h, hs) = grind (arith, h, retry_start_bound (suc i) ds hs)

room_of_Violates :
    (rt : Runtime) (c : Call rt)
    → Violates rt c timeouts_permit_retries
    → (n detect budget : ℕ) × (c.required_retries ≡ pos n)
      × Detects c detect
      × (c.schedule_to_close ≡ pos budget)
      × (budget < required_time rt c.retry_policy detect n)
room_of_Violates rt c (no_schedule_to_close e _) =
    absurd (ground (arith, (eq_iff timeouts_permit_retries schedule_to_close_required).1 e))
room_of_Violates rt c (one_or_two_attempts p e _ _) =
    absurd (ground (arith, (eq_iff timeouts_permit_retries max_attempts_too_low).1 e))
room_of_Violates rt c (long_local_activity e _ _) =
    absurd
      (ground (arith, (eq_iff timeouts_permit_retries local_activity_start_to_close_too_long).1 e))
room_of_Violates rt c (no_room n detect budget _ r _ d s _ o) = (n, detect, budget, r, d, s, o)

Detects-unique : {rt : Runtime} (c : Call rt) (d e : ℕ) → Detects c d → Detects c e → d ≡ e
Detects-unique c d e (by_heartbeat x h) (by_heartbeat y k) = ground arith
Detects-unique c d e (by_heartbeat x h) (by_start_to_close l y k) = absurd (ground arith)
Detects-unique c d e (by_start_to_close l x h) (by_heartbeat y k) = absurd (ground arith)
Detects-unique c d e (by_start_to_close l x h) (by_start_to_close m y k) = ground arith

module _ (rt : Runtime) (c : Call rt) (laws : IsLawful rt) (fits : InRange rt c) where
  -- The retry after `n` failures can start after the schedule-to-close timeout, each of them noticed
  -- within the detection delay.
  abbrev pub CanRunOut : (n detect budget : ℕ) → Type 0
  CanRunOut n detect budget =
      (failures : List ℕ) × (length failures ≡ n)
      × All (InTime rt c.retry_policy detect) failures
      × (budget < retry_start rt c.retry_policy 0 failures)

  -- For a call with a detection delay and a schedule-to-close timeout, evaluatePolicies reports
  -- timeouts_permit_retries exactly if as many failures as the required retries, each noticed within
  -- the detection delay, can keep the last of these retries from starting in time; as long as the
  -- retry arithmetic stays in range.
  pub evaluate_policies-CanRunOut :
      (n detect budget : ℕ)
      → c.required_retries ≡ pos n
      → 0 < n
      → Detects c detect
      → c.schedule_to_close ≡ pos budget
      → 0 < budget
      → Memᴰ timeouts_permit_retries (policies_of rt c) ↔ CanRunOut n detect budget
  evaluate_policies-CanRunOut n detect budget required some_retry detected scheduled limited = (
    λ m.
        let (n', detect', budget', r, d, s, over) =
          room_of_Violates rt c
            ((evaluate_policies_iff rt c laws fits timeouts_permit_retries).0 m) in
        let same_n : n' ≡ n = ground (arith, sym r ∙ required) in
        let same_budget : budget' ≡ budget = ground (arith, sym s ∙ scheduled) in
        let same_detect : detect' ≡ detect = Detects-unique c detect' detect d detected in
        let over₁ = subst (λ x. budget' < required_time rt c.retry_policy detect' x) same_n over in
        let over₂ = subst (λ x. budget' < required_time rt c.retry_policy x n) same_detect over₁ in
        let over₃ = subst (λ x. x < required_time rt c.retry_policy detect n) same_budget over₂ in
        (
          slowest rt c.retry_policy n detect,
          length-slowest rt c.retry_policy detect n,
          slowest-InTime rt c.retry_policy detect n,
          omega (arith, over₃, retry_start-slowest rt c.retry_policy detect n 0),
        ),
    λ (failures, same, noticed, late).
        let bound =
          subst
            (λ k.
              retry_start rt c.retry_policy 0 failures
              ≤ k * detect + interval_sum rt c.retry_policy k 0)
            same (retry_start_bound rt c.retry_policy detect 0 failures noticed) in
        let over : budget < required_time rt c.retry_policy detect n = omega (arith, late, bound) in
        (evaluate_policies_iff rt c laws fits timeouts_permit_retries).1
          (no_room n detect budget refl required some_retry detected scheduled limited over),
  )

module _ (rt : Runtime) (visit : List (String × Value) → List (String × Value)) (o : Options)
    (activity_type : String) (execution : WorkflowExecution) (laws : IsLawful rt) where
  -- A regular activity that is passed on while timeouts_permit_retries has the severity Error never
  -- loses a required retry to its schedule-to-close timeout: after as many failures, each noticed
  -- within the detection delay, the last retry still starts in time; as long as the retry arithmetic
  -- stays in range, and both timeouts are set.
  pub execute_activity-InTime :
      (given opts : ActivityOptions rt.Float) (n detect budget : ℕ) (failures : List ℕ)
      → InRange rt (regular_call rt o given)
      → severity_for o timeouts_permit_retries ≡ error
      → required_retries o ≡ pos n
      → 0 < n
      → Detects (regular_call rt o given) detect
      → (regular_call rt o given).schedule_to_close ≡ pos budget
      → 0 < budget
      → (execute_activity rt visit o activity_type execution given).1 ≡ forwarded opts
      → length failures ≡ n
      → All (InTime rt (regular_call rt o given).retry_policy detect) failures
      → retry_start rt (regular_call rt o given).retry_policy 0 failures ≤ budget
  execute_activity-InTime given opts n detect budget failures fits enforced required some_retry
        detected scheduled limited passed same noticed =
      let c = regular_call rt o given in
      let start = retry_start rt c.retry_policy 0 failures in
      elim (Bool-cases (ltb budget start)) [
        | inr e ↦ ground (arith, e)
        | inl e ↦
            let late : budget < start = ground (arith, e) in
            let reported =
              (evaluate_policies-CanRunOut rt c laws fits n detect budget required some_retry
                  detected scheduled limited).1
                (failures, same, noticed, late) in
            let violated =
              (evaluate_policies_iff rt c laws fits timeouts_permit_retries).0 reported in
            let (err, refused) =
              (execute_activity_rejects_iff rt visit o activity_type execution laws given fits).1
                (timeouts_permit_retries, violated, enforced) in
            absurd (ground (arith, sym refused ∙ passed))
      ]
