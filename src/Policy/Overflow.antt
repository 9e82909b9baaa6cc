-- ===== src/Policy/Overflow.antt =====
-- Where the 64-bit sum of `minScheduleToClose` wraps.
use temporal_mistakes.Base.{
  ℕ, ◌^◌, ◌≤◌, ◌<◌, ◌≡◌, true, refl, pos, ◌<ℤ◌, wrap64_negative, subst₂, arith, Memᴰ, sym, subst,
}
use temporal_mistakes.Runtime.{Runtime, IsLawful, IsExact}
use temporal_mistakes.Policy.Config.{timeouts_permit_retries}
use temporal_mistakes.Policy.Timing.{min_schedule_to_close}
use temporal_mistakes.Policy.Requirement.{documented_maximum, required_time}
use temporal_mistakes.Policy.Budget.{min_schedule_to_close_wraps}
use temporal_mistakes.Policy.Rules.{Call, policies_of, Detects, Violates, no_room}
use temporal_mistakes.Policy.Agreement.{
  blocked_of_mem, delay, blocked, delay_of_Detects, no_room_for_retries_iff,
}

module _ (rt : Runtime) (c : Call rt) (laws : IsLawful rt) where
  wrapped_negative :
      (d n : ℕ)
      → IsExact (pos (documented_maximum rt c.retry_policy))
      → 2 ^ 63 ≤ required_time rt c.retry_policy d n
      → required_time rt c.retry_policy d n < 2 ^ 64
      → min_schedule_to_close rt (pos d) c.retry_policy (pos n) <ℤ pos 0
  wrapped_negative d n exact h k =
      subst (λ x. x <ℤ pos 0) (sym (min_schedule_to_close_wraps rt c.retry_policy laws exact d n))
        (wrap64_negative (required_time rt c.retry_policy d n) h k)

  -- With a wrapped sum the test of the policy fails.
  not-blocked :
      (d n : ℕ)
      → delay rt c ≡ pos d
      → c.required_retries ≡ pos n
      → min_schedule_to_close rt (pos d) c.retry_policy (pos n) <ℤ pos 0
      → ¬ (blocked rt c ≡ true)
  not-blocked d n ed en below b =
      let (_, ps, _, over) =
        (no_room_for_retries_iff rt c.schedule_to_close (delay rt c) c.required_retries
            c.retry_policy).0
          b in
      let over' =
        subst₂ (λ x y. c.schedule_to_close <ℤ min_schedule_to_close rt x c.retry_policy y) ed en
          over in
      absurd (omega arith)

  -- A call whose required time lies from 2 ^ 63 to 2 ^ 64 - 1 nanoseconds violates
  -- `timeouts_permit_retries` by the specification, if its budget is positive and fits an int64, and
  -- is not reported: the sum has wrapped to a negative duration.
  pub overflow_unreported :
      (d n budget : ℕ)
      → IsExact (pos (documented_maximum rt c.retry_policy))
      → Detects c d
      → c.required_retries ≡ pos n
      → 0 < n
      → c.schedule_to_close ≡ pos budget
      → 0 < budget
      → budget < 2 ^ 63
      → 2 ^ 63 ≤ required_time rt c.retry_policy d n
      → required_time rt c.retry_policy d n < 2 ^ 64
      → Violates rt c timeouts_permit_retries × (¬ Memᴰ timeouts_permit_retries (policies_of rt c))
  overflow_unreported d n budget exact detects en pn es ps fit h k = (
    no_room n d budget refl en pn detects es ps (omega arith),
    λ m.
        not-blocked d n (delay_of_Detects rt c detects).0 en (wrapped_negative d n exact h k)
          (blocked_of_mem rt c m),
  )
