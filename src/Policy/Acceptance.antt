-- ===== src/Policy/Acceptance.antt =====
-- A sufficient condition on the options of a call for the policies of
-- examples/go/activitypolicyinterceptor/interceptor.go, whatever their severities.
use temporal_mistakes.Base.{
  subst, ℕ, zero, suc, ◌+◌, ◌*◌, ◌^◌, ◌≤◌, ◌<◌, ◌≡◌, refl, Option, none, some, Bool, false, ◌&&◌,
  String, List, [], ℤ, pos, leb_ℤ, ltb_ℤ, arith,
}
use temporal_mistakes.Runtime.{Runtime, IsLawful, IsExact}
use temporal_mistakes.Sdk.{RetryPolicy, ActivityOptions, WorkflowExecution}
use temporal_mistakes.Policy.Config.{Options, required_retries}
use temporal_mistakes.Policy.Timing.{detection_delay}
use temporal_mistakes.Policy.Interval.{documented_interval_bound}
use temporal_mistakes.Policy.Requirement.{
  documented_maximum, documented_interval, interval_sum, required_time,
}
use temporal_mistakes.Policy.Budget.{min_schedule_to_close_exact}
use temporal_mistakes.Policy.Evaluate.{
  Value, Violation, canonicalize, attempts_too_low, check_schedule_to_close, check_max_attempts,
  check_local_start_to_close, check_retries, no_room_for_retries, evaluate_policies,
}
use temporal_mistakes.Policy.Handle.{handle_violations, select_violations}
use temporal_mistakes.Policy.Outbound.{forwarded, settle, apply_default_heartbeat, execute_activity}

no_room-none : (a b c : Bool) → (a && b) && (c && false) ≡ false
no_room-none a b c = ground arith

not_less : (budget required : ℕ) → required ≤ budget → ltb_ℤ (pos budget) (pos required) ≡ false
not_less budget required h = ground arith

module _ (rt : Runtime) (p : Option (RetryPolicy rt.Float)) (m : ℕ) (laws : IsLawful rt)
    (exact : IsExact (pos m)) (longest : documented_maximum rt p ≡ m) where
  one_interval : (k : ℕ) → documented_interval rt p k ≤ m
  one_interval k =
      subst (λ x. documented_interval rt p k ≤ x) longest
        (documented_interval_bound rt laws p (rw longest exact) k)

  interval_sum_bound : (n k : ℕ) → interval_sum rt p n k ≤ n * m
  unfolding interval_sum
  interval_sum_bound zero k = omega arith
  interval_sum_bound (suc n) k = grind (arith, one_interval k, interval_sum_bound n (suc k))

  no_room_for_retries-enough :
      (budget d n : ℕ)
      → n * (d + m) ≤ budget
      → budget < 2 ^ 63
      → no_room_for_retries rt (pos budget) (pos d) p (pos n) ≡ false
  no_room_for_retries-enough budget d n h fits =
      let sum = interval_sum_bound n 0 in
      let room : required_time rt p d n ≤ budget = grind arith in
      rw
        (
          min_schedule_to_close_exact rt p laws (rw longest exact) d n (omega arith),
          not_less budget (required_time rt p d n) room,
        )
        (no_room-none (ltb_ℤ (pos 0) (pos n)) (ltb_ℤ (pos 0) (pos budget)) (ltb_ℤ (pos 0) (pos d)))

abbrev pub AttemptsAllowed : {F : Type 0} → Option (RetryPolicy F) → Type 0
AttemptsAllowed none = Unit
AttemptsAllowed (some p) = attempts_too_low p ≡ false

check_max_attempts-none :
    {F : Type 0} (p : Option (RetryPolicy F)) → AttemptsAllowed p → check_max_attempts p ≡ []
unfolding check_max_attempts
check_max_attempts-none none h = refl
check_max_attempts-none (some p) h = rw h refl

leb_zero : (budget : ℕ) → 0 < budget → leb_ℤ (pos budget) (pos 0) ≡ false
leb_zero budget h = ground arith

check_schedule_to_close-none : (budget : ℕ) → 0 < budget → check_schedule_to_close (pos budget) ≡ []
unfolding check_schedule_to_close
check_schedule_to_close-none budget h = rw (leb_zero budget h) refl

module _ (rt : Runtime) where
  -- What the policies see of a regular activity satisfies all of them.
  evaluate_policies-none :
      (budget detect n : ℕ) (start_to_close heartbeat : ℤ) (p : Option (RetryPolicy rt.Float))
      → 0 < budget
      → AttemptsAllowed p
      → detection_delay heartbeat start_to_close ≡ pos detect
      → no_room_for_retries rt (pos budget) (pos detect) p (pos n) ≡ false
      → evaluate_policies rt (pos budget) start_to_close heartbeat p false (pos n) ≡ []
  unfolding evaluate_policies check_local_start_to_close check_retries canonicalize
  evaluate_policies-none budget detect n start_to_close heartbeat p b a d r =
      rw (check_schedule_to_close-none budget b, check_max_attempts-none p a, d, r) refl

  module _ (visit : List (String × Value) → List (String × Value)) (o : Options)
      (activity_type : String) (execution : WorkflowExecution) where
    nothing_to_report :
        (opts : ActivityOptions rt.Float) (vs : List Violation)
        → vs ≡ []
        → ((handle_violations visit o activity_type execution vs).0 ≡ [])
          × (settle opts (handle_violations visit o activity_type execution vs).1 ≡ forwarded opts)
    unfolding handle_violations select_violations
    nothing_to_report opts vs e = rw e (refl, refl)

    pub execute_activity_accepts :
        (budget detect n m : ℕ) (given : ActivityOptions rt.Float)
        → IsLawful rt
        → 0 < budget
        → budget < 2 ^ 63
        → (apply_default_heartbeat given).schedule_to_close_timeout ≡ pos budget
        → AttemptsAllowed (apply_default_heartbeat given).retry_policy
        → detection_delay
            (apply_default_heartbeat given).heartbeat_timeout
            (apply_default_heartbeat given).start_to_close_timeout
          ≡ pos detect
        → IsExact (pos m)
        → documented_maximum rt (apply_default_heartbeat given).retry_policy ≡ m
        → required_retries o ≡ pos n
        → n * (detect + m) ≤ budget
        → ((execute_activity rt visit o activity_type execution given).0 ≡ [])
          × ((execute_activity rt visit o activity_type execution given).1
              ≡ forwarded (apply_default_heartbeat given))
    unfolding execute_activity
    execute_activity_accepts budget detect n m given laws b fits s a d exact longest required room =
        let opts = apply_default_heartbeat given in
        nothing_to_report opts _ (
          rw (s, required)
            (evaluate_policies-none budget detect n opts.start_to_close_timeout
              opts.heartbeat_timeout opts.retry_policy b a d
              (no_room_for_retries-enough rt opts.retry_policy m laws exact longest budget detect n
                room fits)))
