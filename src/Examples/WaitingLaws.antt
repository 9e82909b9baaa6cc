-- ===== src/Examples/WaitingLaws.antt =====
-- When the waiting workflows and activities of the examples end, and with what.
use temporal_mistakes.Base.{
  ◌≡◌, refl, ap, sym, ◌∙◌, ◌↔◌, Option, none, some, Bool-cases, Bool, true, false, not, ◌||◌, ◌⊎◌,
  inl, inr, List, [], ◌∷◌, All, first, Until, first-Until, first-none-All, or_else, arith,
  if◌then◌else◌,
}
use temporal_mistakes.Errors.{Err}
use temporal_mistakes.Examples.Waiting.{
  Activation, receive, select, my_workflow_v1, my_workflow_v2, Round, Outcome, completed, continued,
  subscription_loop, subscription_workflow,
}

-- The workflow is woken by the cancellation alone.
abbrev pub OnlyCanceled : Activation → Type 0
OnlyCanceled a = a.signaled ≡ false

-- Something happens.
abbrev pub IsQuiet : Activation → Type 0
IsQuiet a = (a.signaled ≡ false) × (a.canceled ≡ none)

receive-none : (a : Activation) → (receive a ≡ none) ↔ OnlyCanceled a
receive-none a = ground arith

select-none : (a : Activation) → (select a ≡ none) ↔ IsQuiet a
select-none a = ground arith

abbrev pub Wakes : Activation → Option Err → Type 0
Wakes a r = (¬ IsQuiet a) × (r ≡ a.canceled)

select-some : (a : Activation) (r : Option Err) → (select a ≡ some r) ↔ Wakes a r
select-some a r = ground arith

receive-some :
    (a : Activation) (r : Option Err) → (receive a ≡ some r) ↔ ((a.signaled ≡ true) × (r ≡ none))
receive-some a r = ground arith

-- The first version waits exactly as long as there is no signal, also if it is canceled. The second
-- waits exactly as long as nothing happens; the first time that something does, it returns the error
-- of the context, if it is canceled by then, and no error otherwise.
my_workflow_waits_iff :
    (activations : List Activation)
    → ((my_workflow_v1 activations ≡ none) ↔ All OnlyCanceled activations)
      × ((my_workflow_v2 activations ≡ none) ↔ All IsQuiet activations)
      × ((r : Option Err)
          → (my_workflow_v2 activations ≡ some r) ↔ Until IsQuiet Wakes activations r)
unfolding my_workflow_v1 my_workflow_v2
my_workflow_waits_iff activations = (
  first-none-All receive receive-none receive-some activations,
  first-none-All select select-none select-some activations,
  first-Until select select-none select-some activations,
)

-- A round ends the subscription: no branch is ready at its start, or the workflow continues as new.
pub data Stops {State : Type 0} (state : State) (r : Round) (o : Outcome State) : Type 0 where
  idle : r.has_pending ≡ false → o ≡ completed → Stops state r o
  renews :
      r.has_pending ≡ true
      → (r.continue_as_new_suggested ≡ true) ⊎ (r.timer_fires ≡ true)
      → o ≡ continued state
      → Stops state r o

abbrev pub GoesOn : Round → Type 0
GoesOn r = (r.has_pending ≡ true) × (r.continue_as_new_suggested ≡ false) × (r.timer_fires ≡ false)

module _ {State : Type 0} (state : State) where
  abbrev stop : Round → Option (Outcome State)
  stop r =
      if not r.has_pending
      then some completed
      else if r.continue_as_new_suggested || r.timer_fires
      then some (continued state)
      else none

  stop-none : (r : Round) → (stop r ≡ none) ↔ GoesOn r
  stop-none r = ground arith

  stop_sound :
      (p t c : Bool) (o : Outcome State)
      → stop (record { has_pending = p; timer_fires = t; continue_as_new_suggested = c }) ≡ some o
      → Stops state (record { has_pending = p; timer_fires = t; continue_as_new_suggested = c }) o
  stop_sound false t c o e = idle refl (ground arith)
  stop_sound true t true o e = renews refl (inl refl) (ground arith)
  stop_sound true true false o e = renews refl (inr refl) (ground arith)
  stop_sound true false false o e = absurd (ground arith)

  stop_complete : (r : Round) (o : Outcome State) → Stops state r o → stop r ≡ some o
  stop_complete r o (idle p e) = ground arith
  stop_complete r o (renews p (inl c) e) = ground arith
  stop_complete r o (renews p (inr t) e) = ground arith

  stop-some : (r : Round) (o : Outcome State) → (stop r ≡ some o) ↔ Stops state r o
  stop-some r o =
      (stop_sound r.has_pending r.timer_fires r.continue_as_new_suggested o, stop_complete r o)

  one_round :
      (p t c : Bool) (rest : Option (Outcome State))
      → (if not p
          then some completed
          else if c || (t || false)
          then some (continued state)
          else rest)
        ≡ or_else
            (if not p then some completed else if c || t then some (continued state) else none)
            rest
  one_round p t c rest = ground arith

  -- As long as the timer has not fired, the loop takes each round as it is.
  subscription_loop-first :
      (rounds : List Round) → subscription_loop false state rounds ≡ first stop rounds
  unfolding subscription_loop
  subscription_loop-first [] = refl
  subscription_loop-first (r ∷ rounds) = elim (Bool-cases r.timer_fires) [
    | inl e ↦ rw e (ground arith)
    | inr e ↦ rw e (
        one_round r.has_pending false r.continue_as_new_suggested
          (subscription_loop false state rounds)
        ∙ ap (or_else _) (subscription_loop-first rounds))
  ]

  -- The workflow ends in the first round that finds no branch ready, and then it completes, or in which
  -- continuing as new is suggested or the timer fires, and then it continues with its state; in
  -- particular it completes at once if no branch is ready when it starts.
  pub subscription_workflow_iff :
      (rounds : List Round) (o : Outcome State)
      → (subscription_workflow state rounds ≡ some o) ↔ Until GoesOn (Stops state) rounds o
  unfolding subscription_workflow
  subscription_workflow_iff rounds o =
      let (f, g) = first-Until stop stop-none stop-some rounds o in
      (λ e. f (sym (subscription_loop-first rounds) ∙ e), λ h. subscription_loop-first rounds ∙ g h)
