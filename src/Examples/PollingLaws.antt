-- ===== src/Examples/PollingLaws.antt =====
-- When the polling loops of the examples end, and what they have done by then.
use mathlib.Core.List.{append-nil}
use temporal_mistakes.Base.{
  ◌≡◌, refl, ap, sym, ◌∙◌, ◌↔◌, Option, none, some, Bool, true, false, Bool-cases, ◌⊎◌, inl, inr,
  String, List, [], ◌∷◌, ◌++◌, All, Until, emitted, loop_iff, arith, if◌then◌else◌,
}
use temporal_mistakes.Errors.{Err}
use temporal_mistakes.Examples.Polling.{
  Result, check_round, poll_until_ready, OrderRound, OrderEffect, record_heartbeat, update_status,
  check_context, order_round, process_order_activity_bad,
}

-- The check gives a status that is not ready.
abbrev pub NotReady : Err ⊎ Result → Type 0
NotReady (inl err) = ⊥
NotReady (inr result) = result.ready ≡ false

-- The check fails, or gives a status that is ready.
abbrev pub Answers : Err ⊎ Result → Err ⊎ Result → Type 0
Answers (inl err) r = r ≡ inl err
Answers (inr result) r = (result.ready ≡ true) × (r ≡ inr result)

abbrev pub statuses : List (Err ⊎ Result) → List String
statuses [] = []
statuses (inl err ∷ checks) = statuses checks
statuses (inr result ∷ checks) = result.status ∷ statuses checks

check_round-none : (c : Err ⊎ Result) → ((check_round c).1 ≡ none) ↔ NotReady c
check_round-none (inl err) = (λ e. absurd (ground arith), λ e. absurd e)
check_round-none (inr result) = ground arith

check_round-some : (c r : Err ⊎ Result) → ((check_round c).1 ≡ some r) ↔ Answers c r
check_round-some (inl err) r = (λ e. ground arith, λ e. ground arith)
check_round-some (inr result) r = ground arith

emitted-check_round :
    (before : List (Err ⊎ Result)) (last r : Err ⊎ Result)
    → All NotReady before
    → Answers last r
    → emitted check_round (before ++ last ∷ []) ≡ statuses before
emitted-check_round [] (inl err) r _ e = refl
emitted-check_round [] (inr result) r _ (e, k) = rw e refl
emitted-check_round (inl err ∷ before) last r (p, ps) e = absurd p
emitted-check_round (inr result ∷ before) last r (p, ps) e =
    rw p (ap (λ ss. result.status ∷ ss) (emitted-check_round before last r ps e))

-- PollUntilReady returns in the first round whose check fails or is ready, with what this check gives;
-- by then it has recorded a heartbeat with the status of every earlier check, in order.
pub poll_until_ready_iff :
    (checks : List (Err ⊎ Result)) (heartbeats : List String) (r : Err ⊎ Result)
    → (poll_until_ready checks ≡ (heartbeats, some r))
      ↔ ((h : Until NotReady Answers checks r) × (heartbeats ≡ statuses h.before))
unfolding poll_until_ready
poll_until_ready_iff checks heartbeats r =
    let (f, g) = loop_iff check_round check_round-none check_round-some checks heartbeats r in
    (
      λ e. let (h, k) = f e in (h, k ∙ emitted-check_round h.before h.last r h.passed h.ends),
      λ (h, k). g (h, k ∙ sym (emitted-check_round h.before h.last r h.passed h.ends)),
    )

-- The order is incomplete, and the context has no error.
abbrev pub IsWorking : OrderRound → Type 0
IsWorking r = (r.is_complete ≡ false) × (r.context_err ≡ none)

-- The order is complete, or else the context has the error.
abbrev pub OrderEnds : OrderRound → Option Err → Type 0
OrderEnds r result =
    ((r.is_complete ≡ true) × (result ≡ none))
    ⊎ ((r.is_complete ≡ false) × ((err : Err) × (r.context_err ≡ some err) × (result ≡ some err)))

module _ (is_context_canceled : Err → Bool) (order_id : String) where
  abbrev round : OrderRound → List OrderEffect × Option (Option Err)
  round r = order_round is_context_canceled order_id r

  -- What the last round does, by its result.
  abbrev pub last_effects : Option Err → List OrderEffect
  last_effects none = []
  last_effects (some err) =
      record_heartbeat order_id
      ∷ (if is_context_canceled err then update_status order_id "canceled" ∷ [] else [])

  abbrev pub heartbeats : List OrderRound → List OrderEffect
  heartbeats [] = []
  heartbeats (r ∷ rounds) = record_heartbeat order_id ∷ heartbeats rounds

  abbrev order : Bool → Option Err → OrderRound
  order c o = record { is_complete = c; context_err = o }

  -- A round that finds an error of the context.
  canceled_round :
      (err : Err)
      → check_context is_context_canceled order_id (some err)
        ≡ (last_effects (some err), some (some err))
  canceled_round err = elim (Bool-cases (is_context_canceled err)) [
    | inl e ↦ rw e refl
    | inr e ↦ rw e refl
  ]

  round-none_at :
      (c : Bool) (o : Option Err) → ((round (order c o)).1 ≡ none) ↔ IsWorking (order c o)
  round-none_at true o = ground arith
  round-none_at false none = (λ _. (refl, refl), λ _. refl)
  round-none_at false (some err) =
      let e = ap (λ r. r.1) (canceled_round err) in
      (λ k. absurd (ground (arith, sym e ∙ k)), λ k. absurd (ground (arith, k.1)))

  round-none : (r : OrderRound) → ((round r).1 ≡ none) ↔ IsWorking r
  round-none r = round-none_at r.is_complete r.context_err

  round-some_at :
      (c : Bool) (o y : Option Err) → ((round (order c o)).1 ≡ some y) ↔ OrderEnds (order c o) y
  round-some_at true o y = ground arith
  round-some_at false none y = ground arith
  round-some_at false (some err) y =
      let e = ap (λ r. r.1) (canceled_round err) in
      (λ k. inr (refl, (err, refl, ground (arith, sym e ∙ k))), λ k. e ∙ ground (arith, k))

  round-some : (r : OrderRound) (y : Option Err) → ((round r).1 ≡ some y) ↔ OrderEnds r y
  round-some r y = round-some_at r.is_complete r.context_err y

  round_waits : (r : OrderRound) → IsWorking r → (round r).0 ≡ record_heartbeat order_id ∷ []
  round_waits r (c, e) = rw (c, e) refl

  round_ends : (r : OrderRound) (y : Option Err) → OrderEnds r y → (round r).0 ≡ last_effects y
  round_ends r y (inl (c, e)) = rw (c, e) refl
  round_ends r y (inr (c, (err, k, e))) = rw (c, k, e) (ap (λ r. r.0) (canceled_round err))

  emitted-round :
      (before : List OrderRound) (last : OrderRound) (y : Option Err)
      → All IsWorking before
      → OrderEnds last y
      → emitted round (before ++ last ∷ []) ≡ heartbeats before ++ last_effects y
  emitted-round [] last y _ e = append-nil _ ∙ round_ends last y e
  emitted-round (r ∷ before) last y (p, ps) e =
      ap (λ fs. fs ++ emitted round (before ++ last ∷ [])) (round_waits r p)
      ∙ ap (λ fs. record_heartbeat order_id ∷ fs) (emitted-round before last y ps e)

  -- Once the order is started, the activity returns in the first round that finds it complete, without
  -- an error, or finds an error of the context, with this error; by then it has recorded a heartbeat in
  -- every earlier round, and has set the status to "canceled" exactly if that error is
  -- context.Canceled.
  pub process_order_activity_bad_iff :
      (rounds : List OrderRound) (es : List OrderEffect) (y : Option Err)
      → (process_order_activity_bad is_context_canceled order_id none rounds ≡ (es, some y))
        ↔ ((h : Until IsWorking OrderEnds rounds y) × (es ≡ heartbeats h.before ++ last_effects y))
  unfolding process_order_activity_bad
  process_order_activity_bad_iff rounds es y =
      let (f, g) = loop_iff round round-none round-some rounds es y in
      (
        λ e. let (h, k) = f e in (h, k ∙ emitted-round h.before h.last y h.passed h.ends),
        λ (h, k). g (h, k ∙ sym (emitted-round h.before h.last y h.passed h.ends)),
      )
