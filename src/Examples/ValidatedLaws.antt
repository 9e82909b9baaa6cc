-- ===== src/Examples/ValidatedLaws.antt =====
-- `MyWorkflow` of src/not_validating_replay_safety_before_deployments/workflow.go, executed and
-- replayed with the interceptor of examples/go/activitypolicyinterceptor/interceptor.go.
use temporal_mistakes.Base.{
  ◌≡◌, refl, ap, sym, ◌∙◌, Option, none, some, ◌⊎◌, inl, inr, String, List, [], ◌∷◌, pos, arith,
}
use temporal_mistakes.Errors.{Err}
use temporal_mistakes.Runtime.{Runtime, IsLawful as IsLawfulRuntime}
use temporal_mistakes.Sdk.{ActivityOptions, WorkflowExecution}
use temporal_mistakes.Policy.Config.{
  Options, lookup, warn, severity_for, required_retries, timeouts_permit_retries,
}
use temporal_mistakes.Policy.Timing.{detection_delay}
use temporal_mistakes.Policy.Interval.{documented_interval_doubling}
use temporal_mistakes.Policy.Requirement.{
  documented_initial, documented_coefficient, documented_maximum, interval_sum, required_time,
}
use temporal_mistakes.Policy.Evaluate.{Value}
use temporal_mistakes.Policy.Rules.{
  Violates, no_schedule_to_close, one_or_two_attempts, long_local_activity, no_room,
  by_start_to_close,
}
use temporal_mistakes.Policy.Agreement.{InRange}
use temporal_mistakes.Policy.Enforcement.{
  regular_call, IsRefused, execute_activity_rejects_iff, execute_activity-cases,
}
use temporal_mistakes.Policy.Outbound.{
  rejected, forwarded, apply_default_heartbeat, execute_activity, through, intercepted,
}
use temporal_mistakes.Helpers.{zero_policy_options, new_helper_config, activity_policy_options}
use temporal_mistakes.Helpers.Laws.{severity, configured, configured-severity_for}
use temporal_mistakes.Workflow.SideEffects.{
  Converter, IsFaithful, executing, replaying, SideEffects, IsLawful, side_effect,
}
use temporal_mistakes.Workflow.Replay.{side_effect-executing, side_effect-replaying}
use temporal_mistakes.Workflow.Activities.{await_activity-eq}
use temporal_mistakes.Examples.Short.{error_of}
use temporal_mistakes.Examples.Validated.{
  MyActivityRequest, activity_options, with_request_id, my_workflow,
}

abbrev pub with_warning : Options
with_warning = configured (severity timeouts_permit_retries warn ∷ [])

module _ (rt : Runtime) (laws : IsLawfulRuntime rt) where
  -- 2 retries take 30 seconds each to detect, and wait 1 and 2 seconds.
  required_time-defaults : required_time rt none 30_000_000_000 2 ≡ 63_000_000_000
  unfolding interval_sum documented_initial documented_coefficient documented_maximum
  required_time-defaults =
      let first =
        documented_interval_doubling rt laws none 0 refl (omega arith) (omega arith)
          (omega arith) in
      let second =
        documented_interval_doubling rt laws none 1 refl (omega arith) (omega arith)
          (omega arith) in
      rw (first, second) (omega arith)

  module _ (o : Options) (required : required_retries o ≡ pos 2) where
    activity-InRange : InRange rt (regular_call rt o activity_options)
    unfolding apply_default_heartbeat detection_delay documented_initial documented_maximum
    activity-InRange = record {
      exact = omega arith;
      fits = rw required (rw required_time-defaults (omega arith));
    }

    activity-Violates : Violates rt (regular_call rt o activity_options) timeouts_permit_retries
    unfolding apply_default_heartbeat
    activity-Violates =
        no_room 2 30_000_000_000 60_000_000_000 refl required (omega arith)
          (by_start_to_close (omega arith) (omega arith) refl) refl (omega arith)
          (rw required_time-defaults (omega arith))

    -- It is the only policy that the activity violates.
    Violates-activity :
        (q : String)
        → Violates rt (regular_call rt o activity_options) q
        → q ≡ timeouts_permit_retries
    unfolding apply_default_heartbeat
    Violates-activity q (no_schedule_to_close e h) = absurd (omega (arith, h))
    Violates-activity q (one_or_two_attempts p e h k) = absurd (ground (arith, h))
    Violates-activity q (long_local_activity e h k) = absurd (ground (arith, h))
    Violates-activity q (no_room n detect budget e _ _ _ _ _ _) = e

module _ (rt : Runtime) (laws : IsLawfulRuntime rt)
    (visit : List (String × Value) → List (String × Value)) (activity_type : String)
    (execution : WorkflowExecution) where
  refused_by_default :
      (e : Err) × ((execute_activity rt visit zero_policy_options activity_type execution
          activity_options).1
        ≡ rejected e)
  unfolding required_retries severity_for lookup
  refused_by_default =
      (execute_activity_rejects_iff rt visit zero_policy_options activity_type execution laws
          activity_options (activity-InRange rt laws zero_policy_options refl)).1
        (timeouts_permit_retries, activity-Violates rt laws zero_policy_options refl, refl)

  not-IsRefused :
      ¬ IsRefused rt visit with_warning activity_type execution
        (regular_call rt with_warning activity_options)
  unfolding required_retries activity_policy_options new_helper_config
  not-IsRefused (q, violates, enforced) =
      let named = Violates-activity rt laws with_warning refl q violates in
      let warned = (configured-severity_for timeouts_permit_retries warn [] [] tt).0 in
      absurd (ground (arith, sym warned ∙ ap (severity_for with_warning) (sym named) ∙ enforced))

  passed_with_warning :
      (execute_activity rt visit with_warning activity_type execution activity_options).1
      ≡ forwarded activity_options
  unfolding apply_default_heartbeat required_retries activity_policy_options new_helper_config
  passed_with_warning =
      elim (execute_activity-cases rt visit with_warning activity_type execution activity_options) [
        | inr e ↦ e
        | inl t ↦ absurd (
            not-IsRefused (
              (execute_activity_rejects_iff rt visit with_warning activity_type execution laws
                  activity_options (activity-InRange rt laws with_warning refl)).0
                t))
      ]

module _ {F Response Payload : Type 0} (sdk : SideEffects Payload)
    (texts : Converter Payload String)
    (activity : ActivityOptions F → MyActivityRequest → Err ⊎ Response) (laws : IsLawful sdk)
    (faithful : IsFaithful texts) (latest : Option Payload) (made later : String) where
  -- What the activity gives for the UUID.
  abbrev pub answered : Option Err
  answered = error_of (activity activity_options (record { request_id = made }))

  with_request_id-answered : with_request_id sdk texts activity (inr made) ≡ answered
  with_request_id-answered = ap error_of (await_activity-eq activity activity_options _)

  my_workflow_recorded :
      (my_workflow sdk texts activity (executing latest) made ≡ answered)
      × (my_workflow sdk texts activity
            (replaying (sdk.side_effect texts (executing latest) made))
            later
          ≡ answered)
  unfolding my_workflow
  my_workflow_recorded = (
    ap (with_request_id sdk texts activity)
          (side_effect-executing sdk texts laws faithful latest made)
        ∙ with_request_id-answered,
    ap (with_request_id sdk texts activity) (
          ap (λ p. side_effect sdk texts (replaying p) later) (laws.recorded texts latest made)
          ∙ side_effect-replaying sdk texts laws faithful made later)
        ∙ with_request_id-answered,
  )

module _ (rt : Runtime) (rt_laws : IsLawfulRuntime rt)
    (visit : List (String × Value) → List (String × Value)) (execution : WorkflowExecution)
    {Response Payload : Type 0} (sdk : SideEffects Payload) (texts : Converter Payload String)
    (activity : ActivityOptions rt.Float → MyActivityRequest → Err ⊎ Response) (laws : IsLawful sdk)
    (faithful : IsFaithful texts) where
  -- The activity as it is scheduled through the interceptor.
  abbrev pub under : Options → ActivityOptions rt.Float → MyActivityRequest → Err ⊎ Response
  under o = intercepted rt visit o "MyActivity" execution activity

  -- MyWorkflow requests its activity with the UUID made when it was executed, then and on every replay,
  -- whatever UUID would be made then, if timeouts_permit_retries is at Warn, as its test sets it; with
  -- the defaults it fails with one error, executed or replayed, and the activity is not scheduled.
  pub my_workflow_replayed :
      (latest : Option Payload) (made later : String)
      → let p = sdk.side_effect texts (executing latest) made in
        (my_workflow sdk texts (under with_warning) (executing latest) made
          ≡ answered sdk texts activity laws faithful latest made later)
        × (my_workflow sdk texts (under with_warning) (replaying p) later
            ≡ answered sdk texts activity laws faithful latest made later)
        × ((e : Err) × (my_workflow sdk texts (under zero_policy_options) (executing latest) made
              ≡ some e)
            × (my_workflow sdk texts (under zero_policy_options) (replaying p) later ≡ some e))
  unfolding intercepted
  my_workflow_replayed latest made later =
      let (run, again) =
        my_workflow_recorded sdk texts (under with_warning) laws faithful latest made later in
      let (strict_run, strict_again) =
        my_workflow_recorded sdk texts (under zero_policy_options) laws faithful latest made
          later in
      let request : MyActivityRequest = record { request_id = made } in
      let passed =
        ap (λ d. error_of (through rt visit with_warning "MyActivity" execution d activity request))
          (passed_with_warning rt rt_laws visit "MyActivity" execution) in
      let (e, refused) = refused_by_default rt rt_laws visit "MyActivity" execution in
      let failed =
        ap
          (λ d.
            error_of
              (through rt visit zero_policy_options "MyActivity" execution d activity request))
          refused in
      (run ∙ passed, again ∙ passed, (e, strict_run ∙ failed, strict_again ∙ failed))
