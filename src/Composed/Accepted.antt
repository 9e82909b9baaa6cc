-- ===== src/Composed/Accepted.antt =====
-- The options with which the example workflows schedule their activities, through the outbound side
-- of examples/go/activitypolicyinterceptor/interceptor.go.
use temporal_mistakes.Base.{ℕ, ◌*◌, ◌+◌, ◌≤◌, ◌≡◌, refl, String, List, [], ◌∷◌, All, pos, arith}
use temporal_mistakes.Runtime.{Runtime, IsLawful}
use temporal_mistakes.Sdk.{hour, ActivityOptions, WorkflowExecution}
use temporal_mistakes.Policy.Config.{Options, required_retries}
use temporal_mistakes.Policy.Requirement.{set_or, documented_initial, documented_maximum}
use temporal_mistakes.Policy.Timing.{detection_delay}
use temporal_mistakes.Policy.Evaluate.{Value}
use temporal_mistakes.Policy.Outbound.{forwarded, apply_default_heartbeat, execute_activity}
use temporal_mistakes.Policy.Acceptance.{AttemptsAllowed, execute_activity_accepts}
use temporal_mistakes.Kubernetes.Workflow.{start_options, await_options}
use temporal_mistakes.Payments.Purchase.{purchase_options}
use temporal_mistakes.Examples.Cleanup.{activity_options}

-- Those of `PurchaseItem`, of the two activities of `RunKubernetesJob`, and of the activities of
-- src/not_using_disconnected_context_for_cleanup/workflow.go.
abbrev pub scheduled_options : (rt : Runtime) → List (ActivityOptions rt.Float)
scheduled_options rt =
    purchase_options rt ∷ start_options rt ∷ await_options rt ∷ activity_options ∷ []

module _ (rt : Runtime) (visit : List (String × Value) → List (String × Value)) (o : Options)
    (activity_type : String) (execution : WorkflowExecution) where
  -- The call is passed on as it is, and nothing is logged.
  abbrev pub PassesUnchanged : ActivityOptions rt.Float → Type 0
  PassesUnchanged opts =
      ((execute_activity rt visit o activity_type execution opts).0 ≡ [])
      × ((execute_activity rt visit o activity_type execution opts).1 ≡ forwarded opts)

  -- An hour leaves room for `n` retries that are detected after 30 seconds and wait at most `m`.
  an_hour_passes :
      (n m : ℕ) (opts : ActivityOptions rt.Float)
      → IsLawful rt
      → required_retries o ≡ pos n
      → m ≤ 100_000_000_000
      → n * (30_000_000_000 + m) ≤ 3_600_000_000_000
      → (apply_default_heartbeat opts).schedule_to_close_timeout ≡ hour
      → AttemptsAllowed (apply_default_heartbeat opts).retry_policy
      → detection_delay
          (apply_default_heartbeat opts).heartbeat_timeout
          (apply_default_heartbeat opts).start_to_close_timeout
        ≡ pos 30_000_000_000
      → documented_maximum rt (apply_default_heartbeat opts).retry_policy ≡ m
      → ((execute_activity rt visit o activity_type execution opts).0 ≡ [])
        × ((execute_activity rt visit o activity_type execution opts).1
            ≡ forwarded (apply_default_heartbeat opts))
  an_hour_passes n m opts laws required short room hourly allowed detected longest =
      execute_activity_accepts rt visit o activity_type execution 3_600_000_000_000 30_000_000_000 n
        m opts laws (omega arith) (omega arith) hourly allowed detected (omega arith) longest
        required room

  -- With at most 27 required retries, each of these calls is passed on as it is, and nothing is
  -- logged, whatever the severities of the policies.
  pub scheduled_options_pass :
      (n : ℕ)
      → IsLawful rt
      → required_retries o ≡ pos n
      → n ≤ 27
      → All PassesUnchanged (scheduled_options rt)
  unfolding apply_default_heartbeat detection_delay documented_maximum documented_initial set_or
  scheduled_options_pass n laws required few =
      let with_policy = an_hour_passes n 60_000_000_000 in
      (
        with_policy (purchase_options rt) laws required (omega arith) (omega arith) refl refl refl
            refl,
        (
          with_policy (start_options rt) laws required (omega arith) (omega arith) refl refl refl
              refl,
          (
            with_policy (await_options rt) laws required (omega arith) (omega arith) refl refl refl
                refl,
            (
              an_hour_passes n 100_000_000_000 activity_options laws required (omega arith)
                  (omega arith) refl tt refl refl,
              tt,
            ),
          ),
        ),
      )
