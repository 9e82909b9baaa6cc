-- ===== src/Policy/Detection.antt =====
-- From the outbound side of examples/go/activitypolicyinterceptor/interceptor.go over its inbound side
-- to the goroutine of internal/activityhelpers/heartbeat.go: how an activity whose options leave its
-- attempts open shows that its worker is alive.
use temporal_mistakes.Base.{
  ℕ, ◌+◌, ◌*◌, ◌/◌, ◌≤◌, ◌≡◌, ◌≢◌, refl, ap, sym, ◌∙◌, ◌⊎◌, inl, inr, some, false, String, List, [],
  ◌∷◌, pos, arith,
}
use temporal_mistakes.Runtime.{Runtime}
use temporal_mistakes.Sdk.{ActivityInfo, ActivityOptions, WorkflowExecution}
use temporal_mistakes.Activity.Heartbeat.{
  heartbeat_frequency, stopped, Beating, begin, Reach, WhenIdle,
}
use temporal_mistakes.Activity.HeartbeatLaws.{halved}
use temporal_mistakes.Activity.HeartbeatTiming.{heartbeats_timely}
use temporal_mistakes.Policy.Config.{Options}
use temporal_mistakes.Policy.Evaluate.{Value}
use temporal_mistakes.Policy.Outbound.{forwarded, execute_activity}
use temporal_mistakes.Policy.Enforcement.{execute_activity_forwards}
use temporal_mistakes.Policy.Inbound.{
  Completion, goroutine_started, activity_ran, canceled, execute_inbound,
}
use temporal_mistakes.Policy.InboundLaws.{execute_inbound_iff}

-- The goroutine runs around the activity, and as long as it has not stopped and runs whenever it can,
-- it has just begun or has recorded a heartbeat within the last half of the timeout.
pub record IsMonitored {F O : Type 0} (o : Options) (info : ActivityInfo F)
    (completion : Completion O) (timeout : ℕ) : Type 0 where
  pub frequency : ℕ
  pub runs :
      (execute_inbound o (some info) completion).0
      ≡ goroutine_started (pos frequency) ∷ activity_ran ∷ canceled ∷ []
  pub beats :
      (s : Beating)
      → Reach frequency WhenIdle (begin frequency) s
      → s.phase ≢ stopped
      → ((s.heartbeats ≡ []) × (s.now ≡ 0))
        ⊎ ((last : ℕ) × (rest : List ℕ) × (s.heartbeats ≡ last ∷ rest)
            × (2 * s.now ≤ 2 * last + timeout))

monitored :
    {F O : Type 0} (o : Options) (info : ActivityInfo F) (completion : Completion O) (timeout : ℕ)
    → o.auto_heartbeat ≢ some false
    → 2 ≤ timeout
    → info.heartbeat_timeout ≡ pos timeout
    → IsMonitored o info completion timeout
monitored o info completion timeout on long e =
    let same = (halved timeout long).0 in
    record {
      frequency = timeout / 2;
      runs =
          (execute_inbound_iff o info completion).0.1 on
          ∙ ap (λ f. goroutine_started f ∷ activity_ran ∷ canceled ∷ [])
              (ap heartbeat_frequency e ∙ same);
      beats = λ s r n. heartbeats_timely timeout (timeout / 2) s long same r n;
    }

module _ (rt : Runtime) (visit : List (String × Value) → List (String × Value)) (o : Options)
    (activity_type : String) (execution : WorkflowExecution) where
  -- A regular activity that is passed on without a start-to-close timeout has a heartbeat timeout, its
  -- own or 30 seconds. On a worker whose interceptor has heartbeats on, and which is told this timeout,
  -- the goroutine runs around the activity. Until it stops, which it does when its context is canceled,
  -- be it by the end of the activity or before, it has recorded within the last half of the timeout or
  -- has just begun, if it is scheduled whenever it can run. A timeout of a single nanosecond is left
  -- out.
  pub execute_activity-IsMonitored :
      {O : Type 0} (given opts : ActivityOptions rt.Float) (info : ActivityInfo rt.Float)
      (completion : Completion O) (own : ℕ)
      → (execute_activity rt visit o activity_type execution given).1 ≡ forwarded opts
      → given.start_to_close_timeout ≡ pos 0
      → given.heartbeat_timeout ≡ pos own
      → own ≢ 1
      → info.heartbeat_timeout ≡ opts.heartbeat_timeout
      → o.auto_heartbeat ≢ some false
      → (timeout : ℕ) × (opts.heartbeat_timeout ≡ pos timeout)
        × (((own ≡ 0) × (timeout ≡ 30_000_000_000)) ⊎ ((own ≢ 0) × (timeout ≡ own)))
        × IsMonitored o info completion timeout
  execute_activity-IsMonitored given opts info completion own passed open_ended set long told on =
      elim (execute_activity_forwards rt visit o activity_type execution given opts passed) [
        | inl (unset, _, e) ↦
            let timeout : opts.heartbeat_timeout ≡ pos 30_000_000_000 =
              ap (λ x. x.heartbeat_timeout) e in
            (
              30_000_000_000,
              timeout,
              inl (ground (arith, sym set ∙ unset), refl),
              monitored o info completion 30_000_000_000 on (omega arith) (told ∙ timeout),
            )
        | inr (some_set, e) ↦
            let timeout : opts.heartbeat_timeout ≡ pos own =
              ap (λ x. x.heartbeat_timeout) e ∙ set in
            let positive : own ≢ 0 = elim some_set [
              | inl beats ↦ λ z. beats (set ∙ ap pos z)
              | inr closed ↦ absurd (closed open_ended)
            ] in
            (
              own,
              timeout,
              inr (positive, refl),
              monitored o info completion own on (omega (arith, positive, long)) (told ∙ timeout),
            )
      ]
