-- ===== src/Policy/InboundLaws.antt =====
-- When `activityInbound.ExecuteActivity` of examples/go/activitypolicyinterceptor/interceptor.go runs
-- the heartbeat goroutine.
use temporal_mistakes.Base.{
  ◌≡◌, ◌≢◌, refl, ◌↔◌, Option, none, some, Bool, true, false, [], ◌∷◌, ℤ, arith,
}
use temporal_mistakes.Sdk.{ActivityInfo}
use temporal_mistakes.Activity.Heartbeat
use temporal_mistakes.Activity.Heartbeat.{heartbeat_frequency}
use temporal_mistakes.Policy.Config.{Options, auto_heartbeat}
use temporal_mistakes.Policy.Inbound.{
  Completion, goroutine_started, activity_ran, canceled, inbound_events, execute_inbound,
}

-- In an activity the goroutine runs with its frequency around the call, and is canceled however that
-- ends, exactly if AutoHeartbeat is not set to false; otherwise there is the call alone.
pub execute_inbound_iff :
    {F O : Type 0} (o : Options) (info : ActivityInfo F) (completion : Completion O)
    → (((execute_inbound o (some info) completion).0
          ≡ goroutine_started (heartbeat_frequency info.heartbeat_timeout)
            ∷ activity_ran
            ∷ canceled
            ∷ [])
        ↔ (o.auto_heartbeat ≢ some false))
      × (((execute_inbound o (some info) completion).0 ≡ activity_ran ∷ [])
          ↔ (o.auto_heartbeat ≡ some false))
      × ((execute_inbound o (some info) completion).1 ≡ completion)
unfolding execute_inbound auto_heartbeat Heartbeat.auto_heartbeat
execute_inbound_iff o info completion =
    let (whole, bare) = events_iff o.auto_heartbeat (heartbeat_frequency info.heartbeat_timeout) in
    (whole, bare, refl)
  where
    events_iff :
        (m : Option Bool) (f : ℤ)
        → ((inbound_events (elim m [ some b ↦ b | none ↦ true ]) (some f)
              ≡ goroutine_started f ∷ activity_ran ∷ canceled ∷ [])
            ↔ (m ≢ some false))
          × ((inbound_events (elim m [ some b ↦ b | none ↦ true ]) (some f) ≡ activity_ran ∷ [])
              ↔ (m ≡ some false))
    events_iff none f = ground arith
    events_iff (some true) f = ground arith
    events_iff (some false) f = ground arith
