-- ===== src/Examples/Polling.antt =====
-- Loops that ask another system until it answers: src/writing_polling_loops_in_workflow_code/workflow.go
-- and src/assuming_activity_cancelation_means_workflow_cancelation/activity.go. What the calls of the
-- other system and of the context give in each round is listed.
use temporal_mistakes.Base.{
  Option, none, some, Bool, ◌⊎◌, inl, inr, String, List, [], ◌∷◌, if◌then◌else◌, loop,
}
use temporal_mistakes.Errors.{Err}

-- `WaitForStatusUpdate` over the statuses in the channel: the first one, `none` while it waits, and
-- those that are left.
unfoldable pub wait_for_status_update :
    {Status : Type 0} → List Status → Option Status × List Status
wait_for_status_update [] = (none, [])
wait_for_status_update (status ∷ statuses) = (some status, statuses)

-- What `checkExternalSystem` gives.
pub record Result : Type 0 where
  pub ready : Bool
  pub status : String

-- A round of `PollUntilReady`: the details of its heartbeats, and the result if it returns.
abbrev pub check_round : Err ⊎ Result → List String × Option (Err ⊎ Result)
check_round (inl err) = ([], some (inl err))
check_round (inr result) =
    if result.ready then ([], some (inr result)) else (result.status ∷ [], none)

-- `PollUntilReady` over its checks; the result is `none` while it goes on.
unfoldable pub poll_until_ready : List (Err ⊎ Result) → List String × Option (Err ⊎ Result)
poll_until_ready checks = loop check_round checks

-- What `isComplete` and ctx.Err give in a round of `ProcessOrderActivityBad`.
pub record OrderRound : Type 0 where
  pub is_complete : Bool
  pub context_err : Option Err

-- The calls that others see.
pub data OrderEffect : Type 0 where
  record_heartbeat : (order_id : String) → OrderEffect
  update_status : (order_id status : String) → OrderEffect

-- `is_context_canceled` is errors.Is(err, context.Canceled).
module _ (is_context_canceled : Err → Bool) (order_id : String) where
  -- The rest of a round after the heartbeat.
  abbrev pub check_context : Option Err → List OrderEffect × Option (Option Err)
  check_context none = (record_heartbeat order_id ∷ [], none)
  check_context (some err) =
      if is_context_canceled err
      then (record_heartbeat order_id ∷ update_status order_id "canceled" ∷ [], some (some err))
      else (record_heartbeat order_id ∷ [], some (some err))

  abbrev pub order_round : OrderRound → List OrderEffect × Option (Option Err)
  order_round r = if r.is_complete then ([], some none) else check_context r.context_err

  abbrev pub after_start : Option Err → List OrderRound → List OrderEffect × Option (Option Err)
  after_start (some err) rounds = ([], some (some err))
  after_start none rounds = loop order_round rounds

  -- `ProcessOrderActivityBad`, after `startProcessing`: its effects, and its error once it returns.
  unfoldable pub process_order_activity_bad :
      (start_err : Option Err) → List OrderRound → List OrderEffect × Option (Option Err)
  process_order_activity_bad start_err rounds = after_start start_err rounds
