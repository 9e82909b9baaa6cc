-- ===== src/Runtime.antt =====
-- What the program takes from Go's runtime and cannot be computed here: `float64` with the
-- operations that internal/activityhelpers/retry.go and
-- examples/go/activitypolicyinterceptor/interceptor.go apply to it, and the texts of `%s` and `%d`.
use temporal_mistakes.Base.{
  ℕ, ◌+◌, ◌*◌, ◌^◌, ◌≤◌, ◌≡◌, refl, Bool, true, false, String, ℤ, pos, pos_part, neg_part, ◌≤ℤ◌,
  ◌<ℤ◌, ltb, ◌==◌, if◌then◌else◌, arith,
}

pub record Runtime : Type 1 where
  pub Float : Type 0
  -- float64(n) of an integer
  pub of_int : ℤ → Float
  -- x * y
  pub times : Float → Float → Float
  -- math.Pow(x, y)
  pub pow : Float → Float → Float
  -- math.Max(x, y)
  pub larger : Float → Float → Float
  -- x > y
  pub gtb : Float → Float → Bool
  -- x == y
  pub same : Float → Float → Bool
  -- time.Duration(x): towards zero, and what the machine gives outside int64
  pub truncate : Float → ℤ
  -- `%s` of a time.Duration
  pub show_duration : ℤ → String
  -- `%d` of an int
  pub show_int : ℤ → String

-- The integers from 0 that `float64` represents exactly.
abbrev pub max_exact : ℕ
max_exact = 2 ^ 53

abbrev pub IsExact : ℤ → Type 0
IsExact d = (pos 0 ≤ℤ d) × (d ≤ℤ pos max_exact)

-- The laws of IEEE 754 doubles that the proofs use.
pub record IsLawful (rt : Runtime) : Type 0 where
  -- A product of positive numbers that does not exceed an exact bound is truncated to an integer
  -- between 0 and that bound.
  pub scaled_within :
      (a : ℤ) (b : rt.Float) (e d : ℤ)
      → pos 0 <ℤ a
      → rt.gtb b (rt.of_int (pos 0)) ≡ true
      → IsExact d
      → rt.gtb (rt.times (rt.of_int a) (rt.pow b (rt.of_int e))) (rt.of_int d) ≡ false
      → (pos 0 ≤ℤ rt.truncate (rt.times (rt.of_int a) (rt.pow b (rt.of_int e))))
        × (rt.truncate (rt.times (rt.of_int a) (rt.pow b (rt.of_int e))) ≤ℤ d)
  -- 2.0 is positive.
  pub two_positive : rt.gtb (rt.of_int (pos 2)) (rt.of_int (pos 0)) ≡ true
  -- Scaling an exact integer by a finite power of two is exact, up to an exact bound.
  pub doubling_above :
      (a e d : ℕ)
      → a ≤ max_exact
      → d ≤ max_exact
      → e ≤ 1023
      → rt.gtb
          (rt.times (rt.of_int (pos a)) (rt.pow (rt.of_int (pos 2)) (rt.of_int (pos e))))
          (rt.of_int (pos d))
        ≡ ltb d (a * 2 ^ e)
  pub doubling_exact :
      (a e : ℕ)
      → a * 2 ^ e ≤ max_exact
      → e ≤ 1023
      → rt.truncate (rt.times (rt.of_int (pos a)) (rt.pow (rt.of_int (pos 2)) (rt.of_int (pos e))))
        ≡ pos (a * 2 ^ e)

-- Whole numbers meet the laws.
abbrev pub whole : Runtime
whole = record {
  Float = ℕ;
  of_int = pos_part;
  times = ◌*◌;
  pow = ◌^◌;
  larger = λ x y. if ltb x y then y else x;
  gtb = λ x y. ltb y x;
  same = ◌==◌;
  truncate = pos;
  show_duration = λ d. "d";
  show_int = λ n. "n";
}

whole-scaled :
    (a : ℤ) (b : ℕ) (e d : ℤ)
    → IsExact d
    → ltb (pos_part d) (pos_part a * b ^ pos_part e) ≡ false
    → pos_part a * b ^ pos_part e + neg_part d ≤ pos_part d + 0
whole-scaled a b e d x h = ground arith

pub whole-IsLawful : IsLawful whole
whole-IsLawful = record {
  scaled_within = λ a b e d p q x h. (omega arith, whole-scaled a b e d x h);
  two_positive = refl;
  doubling_above = λ a e d p q f. refl;
  doubling_exact = λ a e h f. refl;
}
