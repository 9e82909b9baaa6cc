-- ===== src/Policy/Interval.antt =====
-- What `retryInterval` gives: the interval of requirement 16 of the specification.
use Prim.Native.Nat.{min}
use temporal_mistakes.Base.{
  ℕ, zero, suc, ◌*◌, ◌^◌, ◌≤◌, ◌<◌, ◌≡◌, refl, ap, ◌∙◌, Option, none, some, true, inl, inr, ℤ, pos,
  negsuc, pos_part, ◌≤ℤ◌, ◌*ℤ◌, ltb_ℤ, eqb_ℤ, ltb, wrap64, mul64, wrap64_of_IsInt64, Bool-cases,
  if◌then◌else◌, arith,
}
use temporal_mistakes.Base.Int.{suc-minus-one}
use temporal_mistakes.Runtime.{Runtime, IsLawful, IsExact, max_exact}
use temporal_mistakes.Sdk.{RetryPolicy}
use temporal_mistakes.Policy.Timing.{
  initial_of, backoff_of, configured_max_of, max_interval_of, cap_interval, retry_interval,
}
use temporal_mistakes.Policy.Requirement.{
  set_or, documented_initial, documented_coefficient, documented_maximum, at_most,
  documented_interval,
}

-- A positive field is what it is, and another one unset.
set_or-eq : (z : ℤ) (n : ℕ) → (if ltb_ℤ (pos 0) z then z else pos n) ≡ pos (set_or (pos_part z) n)
unfolding set_or
set_or-eq (pos zero) n = refl
set_or-eq (pos (suc m)) n = ground arith
set_or-eq (negsuc m) n = ground arith

set_or-pos : (m n : ℕ) → 0 < n → 0 < set_or m n
unfolding set_or
set_or-pos zero n h = h
set_or-pos (suc m) n h = omega arith

-- An unset maximum is read as 0, and a maximum of 0 as unset.
maximum-eq :
    (z otherwise : ℤ) (n : ℕ)
    → (n ≤ max_exact → otherwise ≡ pos n)
    → set_or (pos_part z) n ≤ max_exact
    → let configured = if ltb_ℤ (pos 0) z then z else pos 0 in
      (if eqb_ℤ configured (pos 0) then otherwise else configured) ≡ pos (set_or (pos_part z) n)
unfolding set_or
maximum-eq (pos zero) otherwise n h small = h small
maximum-eq (pos (suc m)) otherwise n h small = ground arith
maximum-eq (negsuc m) otherwise n h small = ground (arith, h small)

pub of_nonneg : (z : ℤ) → pos 0 ≤ℤ z → z ≡ pos (pos_part z)
of_nonneg z h = ground arith

part_bound : (z : ℤ) (d : ℕ) → z ≤ℤ pos d → pos_part z ≤ d
part_bound z d h = ground arith

pos-*ℤ : (m r : ℕ) → pos m *ℤ pos r ≡ pos (m * r)
unfolding ◌*ℤ◌
pos-*ℤ m r = ground arith

pub mul64_wrap : (m r : ℕ) → mul64 (pos m) (pos r) ≡ wrap64 (pos (m * r))
unfolding mul64
mul64_wrap m r = ap wrap64 (pos-*ℤ m r)

mul64_exact : (m r : ℕ) → m * r ≤ max_exact → mul64 (pos m) (pos r) ≡ pos (m * r)
mul64_exact m r h = mul64_wrap m r ∙ wrap64_of_IsInt64 (pos (m * r)) (omega arith)

module _ (rt : Runtime) where
  open rt use {Float, of_int, times, pow, gtb, truncate}

  documented_initial-pos : (p : Option (RetryPolicy Float)) → 0 < documented_initial rt p
  unfolding documented_initial
  documented_initial-pos none = omega arith
  documented_initial-pos (some p) =
      set_or-pos (pos_part p.initial_interval) 1_000_000_000 (omega arith)

  initial-documented :
      (p : Option (RetryPolicy Float)) → initial_of rt p ≡ pos (documented_initial rt p)
  unfolding initial_of documented_initial
  initial-documented none = refl
  initial-documented (some p) = set_or-eq p.initial_interval 1_000_000_000

  backoff-documented :
      (p : Option (RetryPolicy Float)) → backoff_of rt p ≡ documented_coefficient rt p
  unfolding backoff_of documented_coefficient
  backoff-documented none = refl
  backoff-documented (some p) = refl

  -- A maximum that is exactly representable has not wrapped.
  maximum-documented :
      (p : Option (RetryPolicy Float))
      → IsExact (pos (documented_maximum rt p))
      → max_interval_of rt p ≡ pos (documented_maximum rt p)
  unfolding max_interval_of configured_max_of documented_maximum
  maximum-documented none exact =
      ap (mul64 (pos 100)) (initial-documented none)
      ∙ mul64_exact 100 (documented_initial rt none) (omega (arith, exact))
  maximum-documented (some p) exact =
      let a = documented_initial rt (some p) in
      maximum-eq p.maximum_interval _ (100 * a)
        (λ small. ap (mul64 (pos 100)) (initial-documented (some p)) ∙ mul64_exact 100 a small)
        (omega (arith, exact))

  module _ (laws : IsLawful rt) where
    documented_coefficient-pos :
        (p : Option (RetryPolicy Float)) → gtb (documented_coefficient rt p) (of_int (pos 0)) ≡ true
    unfolding documented_coefficient
    documented_coefficient-pos none = laws.two_positive
    documented_coefficient-pos (some p) =
        elim (Bool-cases (gtb p.backoff_coefficient (of_int (pos 0)))) [
          | inl e ↦ rw e e
          | inr e ↦ rw e laws.two_positive
        ]

    module _ (a : ℕ) (b : Float) (d k : ℕ) (some_time : 0 < a)
        (grows : gtb b (of_int (pos 0)) ≡ true) (exact : IsExact (pos d)) where
      abbrev scaled : Float
      scaled = times (of_int (pos a)) (pow b (of_int (pos k)))

      cap_interval-eq : cap_interval rt scaled (pos d) ≡ pos (at_most rt d scaled)
      unfolding cap_interval at_most
      cap_interval-eq = elim (Bool-cases (gtb scaled (of_int (pos d)))) [
        | inl e ↦ rw e refl
        | inr e ↦ rw e (
            of_nonneg _
              (laws.scaled_within (pos a) b (pos k) (pos d) (omega (arith, some_time)) grows exact
                e).0)
      ]

      at_most_bound : at_most rt d scaled ≤ d
      unfolding at_most
      at_most_bound = elim (Bool-cases (gtb scaled (of_int (pos d)))) [
        | inl e ↦ rw e (omega arith)
        | inr e ↦ rw e (
            let within =
              laws.scaled_within (pos a) b (pos k) (pos d) (omega (arith, some_time)) grows exact
                e in
            part_bound _ d within.1)
      ]

    module _ (p : Option (RetryPolicy Float))
        (exact : IsExact (pos (documented_maximum rt p))) where
      -- With an exactly representable maximum, `retryInterval` gives the documented interval, whatever
      -- the coefficient and the retry.
      pub retry_interval-documented :
          (k : ℕ) → retry_interval rt (pos (suc k)) p ≡ pos (documented_interval rt p k)
      unfolding retry_interval documented_interval
      retry_interval-documented k =
          let a = documented_initial rt p in
          let b = documented_coefficient rt p in
          let d = documented_maximum rt p in
          rw (initial-documented p, backoff-documented p, maximum-documented p exact)
            (ap (λ e. cap_interval rt (times (of_int (pos a)) (pow b (of_int e))) (pos d))
                (suc-minus-one k)
              ∙ cap_interval-eq a b d k (documented_initial-pos p) (documented_coefficient-pos p)
                  exact)

      -- It does not exceed the maximum.
      pub documented_interval_bound : (k : ℕ) → documented_interval rt p k ≤ documented_maximum rt p
      unfolding documented_interval
      documented_interval_bound k =
          at_most_bound (documented_initial rt p) (documented_coefficient rt p)
            (documented_maximum rt p) k (documented_initial-pos p) (documented_coefficient-pos p)
            exact

    at_most_doubling :
        (a d k : ℕ)
        → a ≤ max_exact
        → d ≤ max_exact
        → k ≤ 1023
        → at_most rt d (times (of_int (pos a)) (pow (of_int (pos 2)) (of_int (pos k))))
          ≡ min d (a * 2 ^ k)
    unfolding at_most
    at_most_doubling a d k small room finite =
        rw (laws.doubling_above a k d small room finite) (elim (Bool-cases (ltb d (a * 2 ^ k))) [
          | inl more ↦ rw more (ground arith)
          | inr fits ↦ rw (fits, laws.doubling_exact a k (ground arith) finite) (ground arith)
        ])

    -- With the coefficient 2 and an exactly representable initial interval and maximum, the interval
    -- doubles up to the maximum.
    pub documented_interval_doubling :
        (p : Option (RetryPolicy Float)) (k : ℕ)
        → documented_coefficient rt p ≡ of_int (pos 2)
        → documented_initial rt p ≤ max_exact
        → documented_maximum rt p ≤ max_exact
        → k ≤ 1023
        → documented_interval rt p k
          ≡ min (documented_maximum rt p) (documented_initial rt p * 2 ^ k)
    unfolding documented_interval
    documented_interval_doubling p k doubles small room finite =
        ap
          (λ b.
            at_most rt (documented_maximum rt p)
              (times (of_int (pos (documented_initial rt p))) (pow b (of_int (pos k)))))
          doubles
        ∙ at_most_doubling (documented_initial rt p) (documented_maximum rt p) k small room finite
