-- ===== src/Examples/PollingTests.antt =====
-- The theorems about the polling loops at concrete runs.
use temporal_mistakes.Base.{
  ◌⊎◌, inr, ◌≡◌, ◌↔◌, none, some, Bool, true, false, List, [], ◌∷◌, ◌++◌, Until,
}
use temporal_mistakes.Errors.{Err, node, nil, other}
use temporal_mistakes.Examples.Polling.{
  Result, poll_until_ready, OrderRound, OrderEffect, record_heartbeat, update_status,
  process_order_activity_bad,
}
use temporal_mistakes.Examples.PollingLaws.{
  NotReady, Answers, statuses, poll_until_ready_iff, IsWorking, OrderEnds, heartbeats, last_effects,
  process_order_activity_bad_iff,
}

abbrev context_canceled : Err
context_canceled = node (other "context canceled") nil

abbrev every_error : Err → Bool
every_error err = true

-- The context is canceled in the second round.
abbrev rounds : List OrderRound
rounds =
    (record { is_complete = false; context_err = none })
    ∷ (record { is_complete = false; context_err = some context_canceled })
    ∷ []

abbrev canceled_effects : List OrderEffect
canceled_effects = record_heartbeat "7" ∷ record_heartbeat "7" ∷ update_status "7" "canceled" ∷ []

process_order_activity_bad_iff_example :
    (process_order_activity_bad every_error "7" none rounds
      ≡ (canceled_effects, some (some context_canceled)))
    ↔ ((h : Until IsWorking OrderEnds rounds (some context_canceled)) × (canceled_effects
          ≡ heartbeats every_error "7" h.before
            ++ last_effects every_error "7" (some context_canceled)))
process_order_activity_bad_iff_example =
    process_order_activity_bad_iff every_error "7" rounds canceled_effects (some context_canceled)

-- The second check finds the result ready.
abbrev ready : Result
ready = record { ready = true; status = "done" }

abbrev checks : List (Err ⊎ Result)
checks = inr (record { ready = false; status = "queued" }) ∷ inr ready ∷ []

poll_until_ready_iff_example :
    (poll_until_ready checks ≡ ("queued" ∷ [], some (inr ready)))
    ↔ ((h : Until NotReady Answers checks (inr ready)) × ("queued" ∷ [] ≡ statuses h.before))
poll_until_ready_iff_example = poll_until_ready_iff checks ("queued" ∷ []) (inr ready)
