-- ===== src/Policy/Outbound.antt =====
-- examples/go/activitypolicyinterceptor/interceptor.go: `workflowOutbound.ExecuteActivity` and
-- `ExecuteLocalActivity`.
use temporal_mistakes.Base.{
  ◌⊎◌, inl, Option, none, some, true, false, ◌&&◌, String, List, pos, eqb_ℤ, if◌then◌else◌,
}
use temporal_mistakes.Errors.{Err}
use temporal_mistakes.Runtime.{Runtime}
use temporal_mistakes.Sdk.{ActivityOptions, LocalActivityOptions, WorkflowExecution}
use temporal_mistakes.Policy.Config.{Options, default_heartbeat_timeout, required_retries}
use temporal_mistakes.Policy.Evaluate.{Value, evaluate_policies}
use temporal_mistakes.Policy.Handle.{Entry, handle_violations}

-- The scheduling call is refused by a future that holds the error, or passed to the next
-- interceptor with the options `O`.
pub data Outcome (O : Type 0) : Type 0 where
  rejected : Err → Outcome O
  forwarded : O → Outcome O

abbrev pub settle : {O : Type 0} → O → Option Err → Outcome O
settle opts (some e) = rejected e
settle opts none = forwarded opts

-- Requirements 9 to 11.
unfoldable pub apply_default_heartbeat : {F : Type 0} → ActivityOptions F → ActivityOptions F
apply_default_heartbeat opts =
    if eqb_ℤ opts.heartbeat_timeout (pos 0) && eqb_ℤ opts.start_to_close_timeout (pos 0)
    then record opts { heartbeat_timeout = default_heartbeat_timeout }
    else opts

module _ (rt : Runtime) (visit : List (String × Value) → List (String × Value)) (o : Options)
    (activity_type : String) (execution : WorkflowExecution) where
  unfoldable pub execute_activity :
      ActivityOptions rt.Float → List Entry × Outcome (ActivityOptions rt.Float)
  execute_activity given =
      let opts = apply_default_heartbeat given in
      let violations =
        evaluate_policies rt opts.schedule_to_close_timeout opts.start_to_close_timeout
          opts.heartbeat_timeout opts.retry_policy false (required_retries o) in
      let (logs, err) = handle_violations visit o activity_type execution violations in
      (logs, settle opts err)

  unfoldable pub execute_local_activity :
      LocalActivityOptions rt.Float → List Entry × Outcome (LocalActivityOptions rt.Float)
  execute_local_activity opts =
      let violations =
        evaluate_policies rt opts.schedule_to_close_timeout opts.start_to_close_timeout (pos 0)
          opts.retry_policy true (required_retries o) in
      let (logs, err) = handle_violations visit o activity_type execution violations in
      (logs, settle opts err)

  -- The future of the call: `run` is ExecuteActivity of the next interceptor with the Get of its
  -- future.
  abbrev pub through :
      {Req Resp : Type 0}
      → Outcome (ActivityOptions rt.Float)
      → (run : ActivityOptions rt.Float → Req → Err ⊎ Resp) → Req
      → Err ⊎ Resp
  through (rejected err) run req = inl err
  through (forwarded opts) run req = run opts req

  unfoldable pub intercepted :
      {Req Resp : Type 0}
      → (run : ActivityOptions rt.Float → Req → Err ⊎ Resp) → ActivityOptions rt.Float
      → Req
      → Err ⊎ Resp
  intercepted run opts req = through (execute_activity opts).1 run req

  -- The future of a local activity, whose `run` is ExecuteLocalActivity of the next interceptor.
  abbrev pub through_local :
      {Req Resp : Type 0}
      → Outcome (LocalActivityOptions rt.Float)
      → (run : LocalActivityOptions rt.Float → Req → Err ⊎ Resp) → Req
      → Err ⊎ Resp
  through_local (rejected err) run req = inl err
  through_local (forwarded opts) run req = run opts req

  unfoldable pub intercepted_local :
      {Req Resp : Type 0}
      → (run : LocalActivityOptions rt.Float → Req → Err ⊎ Resp) → LocalActivityOptions rt.Float
      → Req
      → Err ⊎ Resp
  intercepted_local run opts req = through_local (execute_local_activity opts).1 run req
