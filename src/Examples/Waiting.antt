-- ===== src/Examples/Waiting.antt =====
-- Workflows that wait: src/deadlocking_when_workflow_canceled/workflow.go,
-- src/not_using_continue_as_new/workflow.go and
-- src/not_draining_signals_before_completing_workflow/workflow.go. What a selector or a channel finds
-- is listed.
use temporal_mistakes.Base.{
  Option, none, some, Bool, false, not, ◌||◌, List, [], ◌∷◌, first, if◌then◌else◌,
}
use temporal_mistakes.Errors.{Err}

-- What a blocked workflow is woken by: the signal, the cancellation with the error of the context, or
-- both.
pub record Activation : Type 0 where
  pub signaled : Bool
  pub canceled : Option Err

-- The result of `Receive`, once it returns.
abbrev pub receive : Activation → Option (Option Err)
receive a = if a.signaled then some none else none

-- The result of `Select` and the return after it.
abbrev canceled_result : Option Err → Option (Option Err)
canceled_result none = none
canceled_result (some err) = some (some err)

abbrev pub select : Activation → Option (Option Err)
select a = if a.signaled then some a.canceled else canceled_result a.canceled

-- `none` is a workflow that still waits.
unfoldable pub my_workflow_v1 : List Activation → Option (Option Err)
my_workflow_v1 activations = first receive activations

unfoldable pub my_workflow_v2 : List Activation → Option (Option Err)
my_workflow_v2 activations = first select activations

-- A round of `SubscriptionWorkflow`: what HasPending finds, whether the timer fires in Select, and what
-- GetContinueAsNewSuggested gives then.
pub record Round : Type 0 where
  pub has_pending : Bool
  pub timer_fires : Bool
  pub continue_as_new_suggested : Bool

pub data Outcome (State : Type 0) : Type 0 where
  completed : Outcome State
  continued : State → Outcome State

-- `none` is a workflow that goes on after these rounds.
unfoldable pub subscription_loop :
    {State : Type 0} → (workflow_aged_out : Bool) → State → List Round → Option (Outcome State)
subscription_loop workflow_aged_out state [] = none
subscription_loop workflow_aged_out state (r ∷ rounds) =
    let aged_out = r.timer_fires || workflow_aged_out in
    let rest = subscription_loop aged_out state rounds in
    if not r.has_pending
    then some completed
    else if r.continue_as_new_suggested || aged_out
    then some (continued state)
    else rest

unfoldable pub subscription_workflow :
    {State : Type 0} → State → List Round → Option (Outcome State)
unfolding subscription_loop
subscription_workflow state rounds = subscription_loop false state rounds

-- The loop over ReceiveAsync, with the signals that are left in the channel.
unfoldable pub drain :
    {State Signal : Type 0}
    → (apply : State → Signal → State) → List Signal
    → State
    → List Signal × State
drain apply [] state = ([], state)
drain apply (signal ∷ signals) state = drain apply signals (apply state signal)

-- `DrainSignalsBeforeContinueAsNew`: the channel, and the state of the next run, if there is one.
unfoldable pub drain_signals_before_continue_as_new :
    {State Signal : Type 0}
    → (apply : State → Signal → State) → (continue_as_new_suggested : Bool) → List Signal
    → State
    → List Signal × Option State
unfolding drain
drain_signals_before_continue_as_new apply suggested signals state =
    let (left, next) = drain apply signals state in
    if suggested then (left, some next) else (signals, none)
