-- ===== src/Policy/Inbound.antt =====
-- examples/go/activitypolicyinterceptor/interceptor.go: `activityInbound.ExecuteActivity`, which keeps
-- the heartbeat goroutine of internal/activityhelpers/heartbeat.go running while the activity does.
use temporal_mistakes.Base.{Option, none, some, true, false, List, [], ◌∷◌, ◌++◌, ℤ, Bool}
use temporal_mistakes.Errors.{Err}
use temporal_mistakes.Sdk.{ActivityInfo}
use temporal_mistakes.Activity.Heartbeat
use temporal_mistakes.Policy.Config.{Options, auto_heartbeat}

-- How the next interceptor's ExecuteActivity ends.
pub data Completion (O : Type 0) : Type 0 where
  returned : O → Option Err → Completion O
  panicked : Completion O

-- What happens, in order: the goroutine starts with its frequency, the activity runs, and the cancel
-- function is called.
pub data Event : Type 0 where
  goroutine_started : ℤ → Event
  activity_ran canceled : Event

abbrev start_events : Option ℤ → List Event
start_events none = []
start_events (some frequency) = goroutine_started frequency ∷ []

-- `none` is the cancel function that does nothing.
abbrev cancel_events : Option ℤ → List Event
cancel_events none = []
cancel_events (some frequency) = canceled ∷ []

-- The deferred cancel runs after a return and after a panic.
abbrev pub inbound_events : Bool → Option ℤ → List Event
inbound_events false started = activity_ran ∷ []
inbound_events true started = start_events started ++ (activity_ran ∷ cancel_events started)

unfoldable pub execute_inbound :
    {F O : Type 0} → Options → Option (ActivityInfo F) → Completion O → List Event × Completion O
execute_inbound o ctx completion =
    (inbound_events (auto_heartbeat o) (Heartbeat.auto_heartbeat ctx), completion)
