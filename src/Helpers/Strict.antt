-- ===== src/Helpers/Strict.antt =====
-- What the test environment of internal/testhelpers/testenv.go, and the helpers of
-- internal/testhelpers/options.go, let a workflow schedule.
use temporal_mistakes.Base.{◌≡◌, ap, ◌↔◌, String, List, All}
use temporal_mistakes.Errors.{Err}
use temporal_mistakes.Runtime.{Runtime, IsLawful}
use temporal_mistakes.Sdk.{ActivityOptions, LocalActivityOptions, WorkflowExecution}
use temporal_mistakes.Policy.Config.{error, lookup, severity_for}
use temporal_mistakes.Policy.Evaluate.{Value}
use temporal_mistakes.Policy.Rules.{
  Call, Violates, no_schedule_to_close, one_or_two_attempts, long_local_activity, no_room,
}
use temporal_mistakes.Policy.Agreement.{InRange}
use temporal_mistakes.Policy.Enforcement.{
  regular_call, local_call, IsRefused, execute_activity_rejects_iff,
  execute_local_activity_rejects_iff,
}
use temporal_mistakes.Policy.Outbound.{rejected, execute_activity, execute_local_activity}
use temporal_mistakes.Policy.Wiring.{ActivityPolicyInterceptor, new}
use temporal_mistakes.Helpers.{test_interceptors, zero_policy_options}

strict :
    (rt : Runtime) (c : Call rt) (q : String)
    → Violates rt c q
    → severity_for zero_policy_options q ≡ error
unfolding severity_for lookup
strict rt c q (no_schedule_to_close e _) = ap (severity_for zero_policy_options) e
strict rt c q (one_or_two_attempts p e _ _) = ap (severity_for zero_policy_options) e
strict rt c q (long_local_activity e _ _) = ap (severity_for zero_policy_options) e
strict rt c q (no_room n detect budget e _ _ _ _ _ _) = ap (severity_for zero_policy_options) e

module _ (rt : Runtime) (visit : List (String × Value) → List (String × Value))
    (activity_type : String) (execution : WorkflowExecution) (laws : IsLawful rt) where
  IsRefused-iff :
      (c : Call rt)
      → IsRefused rt visit zero_policy_options activity_type execution c
        ↔ ((q : String) × Violates rt c q)
  IsRefused-iff c = (λ t. (t.0, t.1), λ t. (t.0, t.1, strict rt c t.0 t.1))

  -- The calls that the interceptor refuses are those that violate a policy.
  abbrev pub RefusesViolations :
      ActivityOptions rt.Float → LocalActivityOptions rt.Float → ActivityPolicyInterceptor → Type 0
  RefusesViolations given local a =
      (((e : Err) × ((execute_activity rt visit a.opts activity_type execution given).1
            ≡ rejected e))
        ↔ ((q : String) × Violates rt (regular_call rt a.opts given) q))
      × (((e : Err) × ((execute_local_activity rt visit a.opts activity_type execution local).1
              ≡ rejected e))
          ↔ ((q : String) × Violates rt (local_call rt a.opts local) q))

  -- In a test environment every violation of the policies is refused, of regular and of local
  -- activities, and nothing else is; as long as the retry arithmetic of the calls stays in range.
  test_interceptors_refuse :
      (given : ActivityOptions rt.Float) (local : LocalActivityOptions rt.Float)
      → InRange rt (regular_call rt zero_policy_options given)
      → InRange rt (local_call rt zero_policy_options local)
      → All (RefusesViolations given local) test_interceptors
  unfolding test_interceptors new
  test_interceptors_refuse given local r s =
      let (f, g) =
        execute_activity_rejects_iff rt visit zero_policy_options activity_type execution laws given
          r in
      let (h, k) =
        execute_local_activity_rejects_iff rt visit zero_policy_options activity_type execution laws
          local s in
      (
        (
          (λ t. (IsRefused-iff _).0 (f t), λ t. g ((IsRefused-iff _).1 t)),
          (λ t. (IsRefused-iff _).0 (h t), λ t. k ((IsRefused-iff _).1 t)),
        ),
        tt,
      )
