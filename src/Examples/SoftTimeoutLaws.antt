-- ===== src/Examples/SoftTimeoutLaws.antt =====
-- What src/assuming_workflow_timeouts_allow_graceful_cleanup/workflow.go leaves time for.
use temporal_mistakes.Base.{
  Option, none, some, true, false, ◌≡◌, ◌≢◌, refl, ◌↔◌, ◌⊎◌, inl, inr, Bool-cases, String, ℤ, pos,
  negsuc, ◌+ℤ◌, ◌-ℤ◌, ◌≤ℤ◌, ◌<ℤ◌, ltb_ℤ, arith,
}
use temporal_mistakes.Errors.{Err}
use temporal_mistakes.Sdk.{minute}
use temporal_mistakes.Examples.SoftTimeout.{
  WorkflowInfo, effective_timeout, timeout_too_small, Branch, Run, after_select, select_err,
  get_soft_timeout, with_timeout, soft_timeout, run_with_soft_timeout,
}

-- The run has a timer that leaves the padding of its timeout, and it compensates exactly if it ends
-- with an error, which is that of the branch.
abbrev pub EndsInTime : (timeout padding : ℤ) → Option Err → Run → Type 0
EndsInTime timeout padding err r =
    ((t : ℤ) × (r.timer ≡ some t) × (pos 0 <ℤ t) × (t +ℤ padding ≡ timeout))
    × ((r.compensated ≡ true) ↔ (r.result ≢ none))
    × (r.result ≡ err)

-- The run has no timer, does not compensate, and ends with the error.
abbrev pub Refuses : Err → Run → Type 0
Refuses err r = (r.timer ≡ none) × (r.compensated ≡ false) × (r.result ≡ some err)

leaves_minute :
    (t : ℤ) → ltb_ℤ minute t ≡ true → (pos 0 <ℤ (t -ℤ minute)) × ((t -ℤ minute) +ℤ minute ≡ t)
unfolding ◌+ℤ◌ ◌-ℤ◌
leaves_minute (pos n) h = ground arith
leaves_minute (negsuc n) h = absurd (ground arith)

after_select-EndsInTime :
    (t : ℤ) (err : Option Err)
    → ltb_ℤ minute t ≡ true
    → EndsInTime t minute err (after_select (t -ℤ minute) err)
after_select-EndsInTime t none h =
    let (p, q) = leaves_minute t h in
    ((_, refl, p, q), (λ e. absurd (ground arith), λ n. absurd (n refl)), refl)
after_select-EndsInTime t (some err) h =
    let (p, q) = leaves_minute t h in ((_, refl, p, q), (λ _ e. ground arith, λ _. refl), refl)

not_above : (t : ℤ) → ltb_ℤ minute t ≡ false → t ≤ℤ minute
not_above t h = ground arith

above : (t : ℤ) → ltb_ℤ minute t ≡ true → minute <ℤ t
above t h = ground arith

module _ (show_duration : ℤ → String) (context_err deadline_exceeded : Err) where
  -- If the timeout is above a minute, the timer leaves exactly a minute of it, and the workflow
  -- compensates exactly if it ends with an error, which is that of the selected branch. Otherwise it
  -- ends at once with the error for a timeout that is too small.
  pub run_with_soft_timeout_compensates :
      (info : WorkflowInfo) (branch : Branch)
      → ((effective_timeout info ≤ℤ minute)
          × Refuses
              (timeout_too_small show_duration minute)
              (run_with_soft_timeout show_duration context_err deadline_exceeded info branch))
        ⊎ ((minute <ℤ effective_timeout info)
            × EndsInTime
                (effective_timeout info)
                minute
                (select_err show_duration context_err deadline_exceeded branch)
                (run_with_soft_timeout show_duration context_err deadline_exceeded info branch))
  unfolding run_with_soft_timeout get_soft_timeout
  run_with_soft_timeout_compensates info branch = at (effective_timeout info)
    where
      at :
          (t : ℤ)
          → ((t ≤ℤ minute)
              × Refuses (timeout_too_small show_duration minute) (
                  with_timeout show_duration context_err deadline_exceeded
                    (soft_timeout show_duration t minute)
                    branch))
            ⊎ ((minute <ℤ t)
                × EndsInTime t minute
                    (select_err show_duration context_err deadline_exceeded branch)
                    (with_timeout show_duration context_err deadline_exceeded
                      (soft_timeout show_duration t minute)
                      branch))
      at t = elim (Bool-cases (ltb_ℤ minute t)) [
        | inl e ↦ rw e (inr (above t e, after_select-EndsInTime t _ e))
        | inr e ↦ rw e (inl (not_above t e, (refl, refl, refl)))
      ]
