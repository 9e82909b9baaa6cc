-- ===== src/Activity/RetryAfterLaws.antt =====
-- What `ParseRetryAfter` of internal/activityhelpers/http.go gives.
use temporal_mistakes.Base.{
  ℕ, zero, suc, ◌+◌, ◌-◌, ◌*◌, ◌^◌, ◌≤◌, ◌<◌, ◌≡◌, refl, sym, ap, subst, ◌∙◌, inl, inr, Option,
  none, some, true, false, List, [], ◌∷◌, ◌++◌, map, All, length, leb, ◌&&◌, ℤ, pos, ◌≤ℤ◌,
  mul64_pos, Bool-cases, if◌then◌else◌, arith,
}
use native.Mathlib.Nat.{pow-suc}
use temporal_mistakes.Activity.RetryAfter.{
  is_space, trim_left, trim_right, trim_space, max_uint32, is_digit, parse_digits, parse_uint,
  seconds_or, parse_date, parse_trimmed, parse_retry_after,
}

-- Digits as numbers, their text, and their value by place.
abbrev pub IsDigits : List ℕ → Type 0
IsDigits = All (λ d. d < 10)

abbrev pub show_digits : List ℕ → List ℕ
show_digits = map (λ d. b'0' + d)

abbrev pub place_value : List ℕ → ℕ
place_value [] = 0
place_value (d ∷ ds) = d * 10 ^ length ds + place_value ds

abbrev pub IsBlank : List ℕ → Type 0
IsBlank = All (λ c. is_space c ≡ true)

parse_digits-digit :
    (n d : ℕ) (s : List ℕ)
    → d < 10
    → parse_digits n ((b'0' + d) ∷ s)
      ≡ (if leb (n * 10 + d) max_uint32 then parse_digits (n * 10 + d) s else none)
unfolding parse_digits is_digit
parse_digits-digit n d s h =
    let e : b'0' + d - b'0' ≡ d = omega arith in
    let t : (leb b'0' (b'0' + d) && leb (b'0' + d) b'9') ≡ true = ground arith in rw (e, t)

regroup : (n d v k : ℕ) → (n * 10 + d) * 10 ^ k + v ≡ n * 10 ^ suc k + (d * 10 ^ k + v)
regroup n d v k = rw pow-suc (omega arith)

ten-pow-pos : (k : ℕ) → 0 < 10 ^ k
ten-pow-pos zero = omega arith
ten-pow-pos (suc k) = omega (arith, ten-pow-pos k)

still_above : (v p r m : ℕ) → 0 < p → leb v m ≡ false → leb (v * p + r) m ≡ false
still_above v p r m h e = grind arith

parse_digits-nil :
    (n : ℕ)
    → n ≤ max_uint32
    → parse_digits n [] ≡ (if leb (n * 1 + 0) max_uint32 then some (n * 1 + 0) else none)
unfolding parse_digits
parse_digits-nil n k = ground arith

parse_digits-show :
    (n : ℕ) (ds : List ℕ)
    → IsDigits ds
    → n ≤ max_uint32
    → parse_digits n (show_digits ds) ≡ (
        if leb (n * 10 ^ length ds + place_value ds) max_uint32
        then some (n * 10 ^ length ds + place_value ds)
        else none)
parse_digits-show n [] h k = parse_digits-nil n k
parse_digits-show n (d ∷ ds) (p, h) k =
    rw (parse_digits-digit n d (show_digits ds) p, ← regroup n d (place_value ds) (length ds))
      (elim (Bool-cases (leb (n * 10 + d) max_uint32)) [
        | inl e ↦ rw e (parse_digits-show (n * 10 + d) ds h (ground arith))
        | inr e ↦ rw (
          e,
          still_above (n * 10 + d) (10 ^ length ds) (place_value ds) max_uint32
              (ten-pow-pos (length ds)) e,
        )
      ])

abbrev IsInk : List ℕ → Type 0
IsInk = All (λ c. is_space c ≡ false)

digit-ink : (d : ℕ) → d < 10 → is_space (b'0' + d) ≡ false
unfolding is_space
digit-ink d h = ground arith

show_digits-IsInk : (ds : List ℕ) → IsDigits ds → IsInk (show_digits ds)
show_digits-IsInk [] h = tt
show_digits-IsInk (d ∷ ds) (p, h) = (digit-ink d p, show_digits-IsInk ds h)

trim_left-blank : (l s : List ℕ) → IsBlank l → trim_left (l ++ s) ≡ trim_left s
unfolding trim_left
trim_left-blank [] s h = refl
trim_left-blank (c ∷ l) s (p, h) = rw p (trim_left-blank l s h)

trim_left-ink : (c : ℕ) (s : List ℕ) → is_space c ≡ false → trim_left (c ∷ s) ≡ c ∷ s
unfolding trim_left
trim_left-ink c s h = rw h

trim_right-blank : (r : List ℕ) → IsBlank r → trim_right r ≡ []
unfolding trim_right
trim_right-blank [] h = refl
trim_right-blank (c ∷ r) (p, h) = rw (p, trim_right-blank r h)

trim_right-append : (s r : List ℕ) → IsInk s → IsBlank r → trim_right (s ++ r) ≡ s
unfolding trim_right
trim_right-append [] r h k = trim_right-blank r k
trim_right-append (c ∷ s) r (p, h) k = rw (p, trim_right-append s r h k)

trim_space-around :
    (l s r : List ℕ) (c : ℕ)
    → IsBlank l
    → IsInk (c ∷ s)
    → IsBlank r
    → trim_space (l ++ ((c ∷ s) ++ r)) ≡ c ∷ s
unfolding trim_space
trim_space-around l s r c hl hs hr =
    ap trim_right (trim_left-blank l ((c ∷ s) ++ r) hl ∙ trim_left-ink c (s ++ r) hs.0)
    ∙ trim_right-append (c ∷ s) r hs hr

parse_uint-show :
    (d : ℕ) (ds : List ℕ)
    → IsDigits (d ∷ ds)
    → parse_uint (show_digits (d ∷ ds))
      ≡ (if leb (place_value (d ∷ ds)) max_uint32 then some (place_value (d ∷ ds)) else none)
unfolding parse_uint
parse_uint-show d ds h = parse_digits-show 0 (d ∷ ds) h (omega arith) ∙ ap in_range (omega arith)
  where
    in_range : ℕ → Option ℕ
    in_range v = if leb v max_uint32 then some v else none

parse_digits-le :
    (n : ℕ) (s : List ℕ) (m : ℕ) → n ≤ max_uint32 → parse_digits n s ≡ some m → m ≤ max_uint32
unfolding parse_digits
parse_digits-le n [] m h e = ground arith
parse_digits-le n (c ∷ s) m h e = ground (arith, parse_digits-le (n * 10 + (c - b'0')) s m)

module _ {Time : Type 0} (parse_time : List ℕ → Option Time) (sub : Time → Time → ℤ) where
  seconds_or-if :
      (v : ℕ) (date : ℤ)
      → seconds_or parse_time sub (if leb v max_uint32 then some v else none) date
        ≡ (if leb v max_uint32 then pos (v * 1_000_000_000) else date)
  seconds_or-if v date = elim (Bool-cases (leb v max_uint32)) [
    | inl e ↦ rw e (mul64_pos v 1_000_000_000 (ground arith))
    | inr e ↦ rw e
  ]

  seconds_or-nonneg :
      (o : Option ℕ) (date : ℤ)
      → ((m : ℕ) → o ≡ some m → m ≤ max_uint32)
      → pos 0 ≤ℤ date
      → pos 0 ≤ℤ seconds_or parse_time sub o date
  seconds_or-nonneg none date h k = k
  seconds_or-nonneg (some m) date h k =
      subst (λ z. pos 0 ≤ℤ z) (sym (mul64_pos m 1_000_000_000 (omega (arith, h m refl))))
        (omega arith)

module _ {Time : Type 0} (parse_time : List ℕ → Option Time) (sub : Time → Time → ℤ) where
  parse_trimmed-digits :
      (d : ℕ) (ds : List ℕ) (now : Time)
      → IsDigits (d ∷ ds)
      → parse_trimmed parse_time sub (show_digits (d ∷ ds)) now ≡ (
          if leb (place_value (d ∷ ds)) max_uint32
          then pos (place_value (d ∷ ds) * 1_000_000_000)
          else parse_date parse_time sub (show_digits (d ∷ ds)) now)
  unfolding parse_trimmed
  parse_trimmed-digits d ds now h =
      ap (λ o. seconds_or parse_time sub o (parse_date parse_time sub (show_digits (d ∷ ds)) now))
        (parse_uint-show d ds h)
      ∙ seconds_or-if parse_time sub (place_value (d ∷ ds)) _

  -- A number of seconds in decimal, with any white space around it, is that many seconds if it is
  -- below 2 ^ 32; a larger one is read as a date.
  pub parse_retry_after-digits :
      (left right : List ℕ) (d : ℕ) (ds : List ℕ) (now : Time)
      → IsBlank left
      → IsDigits (d ∷ ds)
      → IsBlank right
      → parse_retry_after parse_time sub (left ++ (show_digits (d ∷ ds) ++ right)) now ≡ (
          if leb (place_value (d ∷ ds)) max_uint32
          then pos (place_value (d ∷ ds) * 1_000_000_000)
          else parse_date parse_time sub (show_digits (d ∷ ds)) now)
  unfolding parse_retry_after
  parse_retry_after-digits left right d ds now hl h hr =
      ap (λ s. parse_trimmed parse_time sub s now)
        (trim_space-around left (show_digits ds) right (b'0' + d) hl (show_digits-IsInk (d ∷ ds) h)
          hr)
      ∙ parse_trimmed-digits d ds now h

  parse_date-nonneg : (s : List ℕ) (now : Time) → pos 0 ≤ℤ parse_date parse_time sub s now
  unfolding parse_date
  parse_date-nonneg s now = ground arith

  parse_trimmed-nonneg : (s : List ℕ) (now : Time) → pos 0 ≤ℤ parse_trimmed parse_time sub s now
  unfolding parse_trimmed parse_uint
  parse_trimmed-nonneg [] now = omega arith
  parse_trimmed-nonneg (c ∷ s) now =
      seconds_or-nonneg parse_time sub (parse_uint (c ∷ s)) _
        (λ m. parse_digits-le 0 (c ∷ s) m (omega arith)) (parse_date-nonneg (c ∷ s) now)

  -- No header gives a negative delay.
  parse_retry_after-nonneg :
      (value : List ℕ) (now : Time) → pos 0 ≤ℤ parse_retry_after parse_time sub value now
  unfolding parse_retry_after
  parse_retry_after-nonneg value now = parse_trimmed-nonneg (trim_space value) now
