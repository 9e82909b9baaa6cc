-- ===== src/Policy/Enforcement.antt =====
-- When `ExecuteActivity` and `ExecuteLocalActivity` of
-- examples/go/activitypolicyinterceptor/interceptor.go refuse a call, and what they forward.
use temporal_mistakes.Base.{
  ◌≡◌, refl, sym, ◌↔◌, ◌⊎◌, ◌≢◌, inl, inr, Option, none, some, Bool, true, false, String, List, pos,
  eqb_ℤ, any_of, Bool-cases, arith, if◌then◌else◌,
}
use temporal_mistakes.Errors.{Err}
use temporal_mistakes.Runtime.{Runtime, IsLawful}
use temporal_mistakes.Sdk.{ActivityOptions, LocalActivityOptions, WorkflowExecution}
use temporal_mistakes.Policy.Config.{Options, error, severity_for, required_retries}
use temporal_mistakes.Policy.Evaluate.{Value}
use temporal_mistakes.Policy.Handle.{build_policy_violation_error, handle_violations}
use temporal_mistakes.Policy.Rules.{Call, evaluate, policies_of, Violates}
use temporal_mistakes.Policy.Agreement.{InRange, evaluate_policies_iff}
use temporal_mistakes.Policy.Selection.{
  is_enforced, any_of-enforced_sound, any_of-enforced_complete, kept, handle_violations-error,
}
use temporal_mistakes.Policy.Outbound.{
  rejected, forwarded, settle, apply_default_heartbeat, execute_activity, execute_local_activity,
}

-- The call as the policies see it: after the default heartbeat, or with none on a local activity.
abbrev pub regular_call : (rt : Runtime) → Options → ActivityOptions rt.Float → Call rt
regular_call rt o given =
    let opts = apply_default_heartbeat given in
    record {
      schedule_to_close = opts.schedule_to_close_timeout;
      start_to_close = opts.start_to_close_timeout;
      heartbeat = opts.heartbeat_timeout;
      retry_policy = opts.retry_policy;
      is_local = false;
      required_retries = required_retries o;
    }

abbrev pub local_call : (rt : Runtime) → Options → LocalActivityOptions rt.Float → Call rt
local_call rt o opts = record {
  schedule_to_close = opts.schedule_to_close_timeout;
  start_to_close = opts.start_to_close_timeout;
  heartbeat = pos 0;
  retry_policy = opts.retry_policy;
  is_local = true;
  required_retries = required_retries o;
}

default_cases :
    {F : Type 0} (given opts : ActivityOptions F)
    → apply_default_heartbeat given ≡ opts
    → ((given.heartbeat_timeout ≡ pos 0)
        × (given.start_to_close_timeout ≡ pos 0)
        × (opts ≡ record given { heartbeat_timeout = pos 30_000_000_000 }))
      ⊎ (((given.heartbeat_timeout ≢ pos 0) ⊎ (given.start_to_close_timeout ≢ pos 0))
          × (opts ≡ given))
unfolding apply_default_heartbeat
default_cases given opts h = elim (Bool-cases (eqb_ℤ given.heartbeat_timeout (pos 0))) [
  | inl e ↦ elim (Bool-cases (eqb_ℤ given.start_to_close_timeout (pos 0))) [
    | inl f ↦ inl (ground arith, ground arith, sym (rw (e, f) at h))
    | inr f ↦ inr (inr (ground arith), sym (rw (e, f) at h))
  ]
  | inr e ↦ inr (inl (ground arith), sym (rw e at h))
]

settle_rejects :
    {O : Type 0} (b : Bool) (x : O) (err : Err)
    → ((e : Err) × (settle x (if b then some err else none) ≡ rejected e)) ↔ (b ≡ true)
settle_rejects true x err = (λ _. refl, λ _. (err, refl))
settle_rejects false x err = (λ t. cc (t.1), λ h. cc)

settle-cases :
    {O : Type 0} (x : O) (r : Option Err)
    → ((e : Err) × (settle x r ≡ rejected e)) ⊎ (settle x r ≡ forwarded x)
settle-cases x none = inr refl
settle-cases x (some e) = inl (e, refl)

settle_forwards : {O : Type 0} (o : Option Err) (x y : O) → settle x o ≡ forwarded y → x ≡ y
settle_forwards none x y h = cc
settle_forwards (some e) x y h = cc

module _ (rt : Runtime) (visit : List (String × Value) → List (String × Value)) (o : Options)
    (activity_type : String) (execution : WorkflowExecution) where
  -- Some policy that the call violates has the severity Error.
  abbrev pub IsRefused : Call rt → Type 0
  IsRefused c = (q : String) × Violates rt c q × (severity_for o q ≡ error)

  module _ (laws : IsLawful rt) where
    enforced_iff :
        (c : Call rt)
        → InRange rt c
        → (any_of (is_enforced o) (policies_of rt c) ≡ true) ↔ IsRefused c
    enforced_iff c r = (
      λ h.
          let (q, m, s) = any_of-enforced_sound o (policies_of rt c) h in
          (q, (evaluate_policies_iff rt c laws r q).0 m, s),
      λ t.
          any_of-enforced_complete o t.0 (policies_of rt c)
            ((evaluate_policies_iff rt c laws r t.0).1 t.1) t.2,
    )

    settled_iff :
        {O : Type 0} (c : Call rt) (x : O)
        → InRange rt c
        → ((e : Err) × (settle x
                (handle_violations visit o activity_type execution (evaluate rt c)).1
              ≡ rejected e))
          ↔ IsRefused c
    settled_iff c x r =
        rw (handle_violations-error visit o activity_type execution (evaluate rt c)) (
          let (f, g) = settle_rejects (any_of (is_enforced o) (policies_of rt c)) x (
            build_policy_violation_error visit o activity_type execution
              (kept visit o activity_type execution (evaluate rt c))) in
          (λ t. (enforced_iff c r).0 (f t), λ t. g ((enforced_iff c r).1 t)))

    -- A regular activity whose retry arithmetic stays in range, with the default heartbeat applied, is
    -- refused exactly when it then violates a policy whose severity is Error.
    pub execute_activity_rejects_iff :
        (given : ActivityOptions rt.Float)
        → InRange rt (regular_call rt o given)
        → ((e : Err) × ((execute_activity rt visit o activity_type execution given).1 ≡ rejected e))
          ↔ IsRefused (regular_call rt o given)
    unfolding execute_activity
    execute_activity_rejects_iff given =
        settled_iff (regular_call rt o given) (apply_default_heartbeat given)

    -- A local activity whose retry arithmetic stays in range is refused exactly when it violates a
    -- policy whose severity is Error.
    pub execute_local_activity_rejects_iff :
        (opts : LocalActivityOptions rt.Float)
        → InRange rt (local_call rt o opts)
        → ((e : Err) × ((execute_local_activity rt visit o activity_type execution opts).1
              ≡ rejected e))
          ↔ IsRefused (local_call rt o opts)
    unfolding execute_local_activity
    execute_local_activity_rejects_iff opts = settled_iff (local_call rt o opts) opts

  -- A call is refused, or passed on with the default heartbeat.
  pub execute_activity-cases :
      (given : ActivityOptions rt.Float)
      → ((e : Err) × ((execute_activity rt visit o activity_type execution given).1 ≡ rejected e))
        ⊎ ((execute_activity rt visit o activity_type execution given).1
            ≡ forwarded (apply_default_heartbeat given))
  unfolding execute_activity
  execute_activity-cases given = settle-cases (apply_default_heartbeat given) _

  -- A regular activity that is forwarded has the heartbeat timeout of 30 seconds if neither timeout
  -- was set, and its given options otherwise; all other options are as given.
  pub execute_activity_forwards :
      (given opts : ActivityOptions rt.Float)
      → (execute_activity rt visit o activity_type execution given).1 ≡ forwarded opts
      → ((given.heartbeat_timeout ≡ pos 0)
          × (given.start_to_close_timeout ≡ pos 0)
          × (opts ≡ record given { heartbeat_timeout = pos 30_000_000_000 }))
        ⊎ (((given.heartbeat_timeout ≢ pos 0) ⊎ (given.start_to_close_timeout ≢ pos 0))
            × (opts ≡ given))
  unfolding execute_activity
  execute_activity_forwards given opts h = default_cases given opts (
      settle_forwards
        (handle_violations visit o activity_type execution
          (evaluate rt (regular_call rt o given))).1
        (apply_default_heartbeat given) opts h)

  -- A local activity that is forwarded has its given options.
  execute_local_activity_forwards :
      (given opts : LocalActivityOptions rt.Float)
      → (execute_local_activity rt visit o activity_type execution given).1 ≡ forwarded opts
      → given ≡ opts
  unfolding execute_local_activity
  execute_local_activity_forwards given opts =
      settle_forwards
        (handle_violations visit o activity_type execution (evaluate rt (local_call rt o given))).1
        given opts
