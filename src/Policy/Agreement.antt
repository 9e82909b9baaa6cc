-- ===== src/Policy/Agreement.antt =====
-- `evaluatePolicies` of examples/go/activitypolicyinterceptor/interceptor.go against the rules of
-- the specification.
use mathlib.Core.List.Memᴰ
use text.Mathlib.TextEquality.{eq_iff}
use temporal_mistakes.Base.{
  ℕ, ◌^◌, ◌<◌, ◌≡◌, ◌≢◌, refl, sym, subst, subst₂, ◌↔◌, ◌⊎◌, inl, inr, Option, none, some, Bool,
  true, false, String, List, ◌++◌, Memᴰ, ℤ, pos, pos_part, ◌≤ℤ◌, ◌<ℤ◌, arith, ◌&&◌, ltb_ℤ,
}
use temporal_mistakes.Runtime.{Runtime, IsLawful, IsExact}
use temporal_mistakes.Sdk.{RetryPolicy}
use temporal_mistakes.Policy.Config.{
  schedule_to_close_required, max_attempts_too_low, local_activity_start_to_close_too_long,
  timeouts_permit_retries, local_activity_max_start_to_close,
}
use temporal_mistakes.Policy.Timing.{detection_delay, min_schedule_to_close}
use temporal_mistakes.Policy.Requirement.{documented_maximum, required_time}
use temporal_mistakes.Policy.Budget.{min_schedule_to_close_exact}
use temporal_mistakes.Policy.Evaluate.{
  schedule_to_close_missing, local_too_long, no_room_for_retries,
}
use temporal_mistakes.Policy.Report.{name_when, low_attempts, evaluate_policies-names}
use temporal_mistakes.Policy.Rules.{
  Call, policies_of, Detects, by_heartbeat, by_start_to_close, Violates, no_schedule_to_close,
  one_or_two_attempts, long_local_activity, no_room,
}

-- Membership in the list of names under four tests.
abbrev pub Named : String → Bool → String → Type 0
Named q b p = (b ≡ true) × (q ≡ p)

mem-name_when : (q p : String) (b : Bool) → Memᴰ q (name_when b p) → Named q b p
mem-name_when q p true m = (refl, Memᴰ.eq_of_singleton m)
mem-name_when q p false m = absurd (Memᴰ.not-nil m)

name_when-mem : (q p : String) (b : Bool) → Named q b p → Memᴰ q (name_when b p)
name_when-mem q p b (h, e) = rw h (Memᴰ.head e)

few_attempts : (x : ℤ) → (ltb_ℤ (pos 0) x && ltb_ℤ x (pos 3)) ≡ true → (x ≡ pos 1) ⊎ (x ≡ pos 2)
few_attempts x h = ground arith

low_attempts_sound :
    {F : Type 0} (o : Option (RetryPolicy F))
    → low_attempts o ≡ true
    → (p : RetryPolicy F) × (o ≡ some p)
      × ((p.maximum_attempts ≡ pos 1) ⊎ (p.maximum_attempts ≡ pos 2))
low_attempts_sound none h = cc
low_attempts_sound (some p) h = (p, refl, few_attempts p.maximum_attempts h)

low_attempts_complete :
    {F : Type 0} (o : Option (RetryPolicy F)) (p : RetryPolicy F)
    → o ≡ some p
    → (p.maximum_attempts ≡ pos 1) ⊎ (p.maximum_attempts ≡ pos 2)
    → low_attempts o ≡ true
low_attempts_complete o p e (inl h) = rw (e, h)
low_attempts_complete o p e (inr h) = rw (e, h)

local_too_long_iff :
    (l : Bool) (s : ℤ)
    → (local_too_long l s ≡ true)
      ↔ ((l ≡ true) × ((s ≤ℤ pos 0) ⊎ (local_activity_max_start_to_close ≤ℤ s)))
local_too_long_iff l s = ground arith

pos_of_lt : (z : ℤ) → pos 0 <ℤ z → z ≡ pos (pos_part z)
pos_of_lt z h = ground arith

-- Membership in four names, each under its own test.
module _ (q p₁ p₂ p₃ p₄ : String) (a b c d : Bool) where
  abbrev pub Among : Type 0
  Among = Named q a p₁ ⊎ (Named q b p₂ ⊎ (Named q c p₃ ⊎ Named q d p₄))

  abbrev names : List String
  names = name_when a p₁ ++ (name_when b p₂ ++ (name_when c p₃ ++ name_when d p₄))

  Among_of_mem : Memᴰ q names → Among
  Among_of_mem m = elim (Memᴰ.append_cases (name_when a p₁) m) [
    | inl x ↦ inl (mem-name_when q p₁ a x)
    | inr y ↦ inr (elim (Memᴰ.append_cases (name_when b p₂) y) [
      | inl x ↦ inl (mem-name_when q p₂ b x)
      | inr z ↦ inr (elim (Memᴰ.append_cases (name_when c p₃) z) [
        | inl x ↦ inl (mem-name_when q p₃ c x)
        | inr x ↦ inr (mem-name_when q p₄ d x)
      ])
    ])
  ]

  mem_of_Among : Among → Memᴰ q names
  mem_of_Among (inl x) = Memᴰ.append_left _ (name_when-mem q p₁ a x)
  mem_of_Among (inr (inl x)) =
      Memᴰ.append_right (name_when a p₁) (Memᴰ.append_left _ (name_when-mem q p₂ b x))
  mem_of_Among (inr (inr (inl x))) =
      Memᴰ.append_right (name_when a p₁)
        (Memᴰ.append_right (name_when b p₂) (Memᴰ.append_left _ (name_when-mem q p₃ c x)))
  mem_of_Among (inr (inr (inr x))) = Memᴰ.append_right (name_when a p₁) (
      Memᴰ.append_right (name_when b p₂)
        (Memᴰ.append_right (name_when c p₃) (name_when-mem q p₄ d x)))

detection_delay-cases :
    (h s : ℤ)
    → pos 0 <ℤ detection_delay h s
    → let d = pos_part (detection_delay h s) in
      (0 < d) × ((h ≡ pos d) ⊎ ((h ≤ℤ pos 0) × (s ≡ pos d)))
unfolding detection_delay
detection_delay-cases h s p = ground arith

over_budget : (s x : ℤ) (m : ℕ) → pos 0 <ℤ s → s <ℤ x → x ≡ pos m → pos_part s < m
over_budget s x m p h e = ground arith

within_budget : (s x : ℤ) (b m : ℕ) → s ≡ pos b → x ≡ pos m → b < m → s <ℤ x
within_budget s x b m e f h = ground arith

pos_of_eq : (x : ℤ) (d : ℕ) → x ≡ pos d → 0 < d → pos 0 <ℤ x
pos_of_eq x d e h = ground arith

-- What the fourth test says, in numbers.
module _ (rt : Runtime) where
  pub no_room_for_retries_iff :
      (s delay n : ℤ) (p : Option (RetryPolicy rt.Float))
      → (no_room_for_retries rt s delay p n ≡ true) ↔ (
          (pos 0 <ℤ n)
          × (pos 0 <ℤ s)
          × (pos 0 <ℤ delay)
          × (s <ℤ min_schedule_to_close rt delay p n))
  no_room_for_retries_iff s delay n p = ground arith

timeouts_permit_retries-ne :
    (timeouts_permit_retries ≢ schedule_to_close_required)
    × (timeouts_permit_retries ≢ max_attempts_too_low)
    × (timeouts_permit_retries ≢ local_activity_start_to_close_too_long)
timeouts_permit_retries-ne = (
  ground (arith, eq_iff timeouts_permit_retries schedule_to_close_required),
  ground (arith, eq_iff timeouts_permit_retries max_attempts_too_low),
  ground (arith, eq_iff timeouts_permit_retries local_activity_start_to_close_too_long),
)

module _ (rt : Runtime) (c : Call rt) where
  abbrev pub delay : ℤ
  delay = detection_delay c.heartbeat c.start_to_close

  Detects-of_pos : pos 0 <ℤ delay → Detects c (pos_part delay)
  Detects-of_pos h =
      let (p, e) = detection_delay-cases c.heartbeat c.start_to_close h in
      elim e [ inl e ↦ by_heartbeat p e | inr (u, e) ↦ by_start_to_close u p e ]

  pub delay_of_Detects : {d : ℕ} → Detects c d → (delay ≡ pos d) × (0 < d)
  unfolding detection_delay
  delay_of_Detects (by_heartbeat h e) = (ground arith, h)
  delay_of_Detects (by_start_to_close u h e) = (ground arith, h)

  -- The tests, in the order of the specification.
  abbrev pub blocked : Bool
  blocked = no_room_for_retries rt c.schedule_to_close delay c.retry_policy c.required_retries

  abbrev pub HasTest : String → Type 0
  HasTest q =
      Among q schedule_to_close_required max_attempts_too_low local_activity_start_to_close_too_long
        timeouts_permit_retries (schedule_to_close_missing c.schedule_to_close)
        (low_attempts c.retry_policy) (local_too_long c.is_local c.start_to_close) blocked

  HasTest-of_mem : (q : String) → Memᴰ q (policies_of rt c) → HasTest q
  HasTest-of_mem q m = Among_of_mem q _ _ _ _ _ _ _ _ (
      subst (λ l. Memᴰ q l)
        (evaluate_policies-names rt c.schedule_to_close c.start_to_close c.heartbeat c.retry_policy
          c.is_local c.required_retries)
        m)

  -- The retries policy is reported only under its own test.
  pub blocked_of_mem : Memᴰ timeouts_permit_retries (policies_of rt c) → blocked ≡ true
  blocked_of_mem m = elim (HasTest-of_mem timeouts_permit_retries m) [
    | inl (_, e) ↦ absurd (timeouts_permit_retries-ne.0 e)
    | inr (inl (_, e)) ↦ absurd (timeouts_permit_retries-ne.1 e)
    | inr (inr (inl (_, e))) ↦ absurd (timeouts_permit_retries-ne.2 e)
    | inr (inr (inr (h, _))) ↦ h
  ]

  mem_of_HasTest : (q : String) → HasTest q → Memᴰ q (policies_of rt c)
  mem_of_HasTest q t =
      subst (λ l. Memᴰ q l)
        (sym (
          evaluate_policies-names rt c.schedule_to_close c.start_to_close c.heartbeat c.retry_policy
            c.is_local c.required_retries))
        (mem_of_Among q _ _ _ _ _ _ _ _ t)

  -- The arithmetic of the fourth policy stays within its exact range: the bound on the retry
  -- intervals is representable, and the required time fits an int64.
  pub record InRange : Type 0 where
    pub exact : IsExact (pos (documented_maximum rt c.retry_policy))
    pub fits :
        required_time rt c.retry_policy (pos_part delay) (pos_part c.required_retries) < 2 ^ 63

  module _ (laws : IsLawful rt) (r : InRange) where
    budget :
        (d n : ℕ)
        → delay ≡ pos d
        → c.required_retries ≡ pos n
        → min_schedule_to_close rt delay c.retry_policy c.required_retries
          ≡ pos (required_time rt c.retry_policy d n)
    budget d n e f =
        let small : required_time rt c.retry_policy d n < 2 ^ 63 =
          subst₂ (λ a b. required_time rt c.retry_policy (pos_part a) (pos_part b) < 2 ^ 63) e f
            r.fits in
        rw (e, f) (min_schedule_to_close_exact rt c.retry_policy laws r.exact d n small)

    Violates-of_test : (q : String) → HasTest q → Violates rt c q
    Violates-of_test q (inl (h, e)) = no_schedule_to_close e (ground arith)
    Violates-of_test q (inr (inl (h, e))) =
        let (p, f, g) = low_attempts_sound c.retry_policy h in one_or_two_attempts p e f g
    Violates-of_test q (inr (inr (inl (h, e)))) =
        let (l, s) = (local_too_long_iff c.is_local c.start_to_close).0 h in
        long_local_activity e l s
    Violates-of_test q (inr (inr (inr (h, e)))) =
        let (hn, hs, hd, over) =
          (no_room_for_retries_iff rt c.schedule_to_close delay c.required_retries c.retry_policy).0
            h in
        let n = pos_part c.required_retries in
        let en = pos_of_lt c.required_retries hn in
        let es = pos_of_lt c.schedule_to_close hs in
        let room = budget (pos_part delay) n (pos_of_lt delay hd) en in
        no_room n (pos_part delay) (pos_part c.schedule_to_close) e en (omega arith)
          (Detects-of_pos hd) es (omega arith) (over_budget c.schedule_to_close _ _ hs over room)

    test_of_Violates : (q : String) → Violates rt c q → HasTest q
    test_of_Violates q (no_schedule_to_close e h) = inl (ground arith, e)
    test_of_Violates q (one_or_two_attempts p e f g) =
        inr (inl (low_attempts_complete c.retry_policy p f g, e))
    test_of_Violates q (long_local_activity e l s) =
        inr (inr (inl ((local_too_long_iff c.is_local c.start_to_close).1 (l, s), e)))
    test_of_Violates q (no_room n d s e hn pn detects hs ps over) =
        let (ed, pd) = delay_of_Detects detects in
        let room = budget d n ed hn in
        let blocks =
          (no_room_for_retries_iff rt c.schedule_to_close delay c.required_retries c.retry_policy).1
            (
              pos_of_eq _ n hn pn,
              pos_of_eq _ s hs ps,
              pos_of_eq delay d ed pd,
              within_budget c.schedule_to_close _ s _ hs room over,
            ) in
        inr (inr (inr (blocks, e)))

    -- `evaluatePolicies` reports exactly the policies that the specification says are violated, when
    -- the arithmetic stays in range.
    pub evaluate_policies_iff : (q : String) → Memᴰ q (policies_of rt c) ↔ Violates rt c q
    evaluate_policies_iff q =
        (λ m. Violates-of_test q (HasTest-of_mem q m), λ v. mem_of_HasTest q (test_of_Violates q v))
