-- ===== src/Base/First.antt =====
-- The first result that a partial function gives along a list.
use mathlib.Core.Path.{◌≡◌, refl, ap, ◌∙◌}
use mathlib.Core.Logic.{◌↔◌, inl, inr}
use mathlib.Core.Option.{Option, none, some}
use mathlib.Core.List.{List, [], ◌∷◌, ◌++◌}
use native.Mathlib.Omega.{arith}
use temporal_mistakes.Base.Tests.{Option-cases}
use temporal_mistakes.Base.Lists.{All, All-map}

abbrev pub or_else {ℓ} : {B : Type ℓ} → Option B → Option B → Option B
or_else (some b) rest = some b
or_else none rest = rest

module _ {A B : Type 0} (f : A → Option B) where
  abbrev pub first : List A → Option B
  first [] = none
  first (x ∷ xs) = or_else (f x) (first xs)

  -- `y` is what `f` gives at the first element where it gives anything.
  pub record IsFirst (xs : List A) (y : B) : Type 0 where
    pub before : List A
    pub hit : A
    pub after : List A
    pub split : xs ≡ before ++ hit ∷ after
    pub missed : All (λ x. f x ≡ none) before
    pub found : f hit ≡ some y

  first-append :
      (before : List A) (hit : A) (after : List A) (y : B)
      → All (λ x. f x ≡ none) before
      → f hit ≡ some y
      → first (before ++ hit ∷ after) ≡ some y
  first-append [] hit after y m e = rw e refl
  first-append (x ∷ before) hit after y (e, m) h = rw e (first-append before hit after y m h)

  later : (x : A) (xs : List A) (y : B) → f x ≡ none → IsFirst xs y → IsFirst (x ∷ xs) y
  later x xs y e h = record {
    before = x ∷ h.before;
    hit = h.hit;
    after = h.after;
    split = ap (λ ys. x ∷ ys) h.split;
    missed = (e, h.missed);
    found = h.found;
  }

  pub first-IsFirst : (xs : List A) (y : B) → first xs ≡ some y → IsFirst xs y
  first-IsFirst [] y e = absurd (ground arith)
  first-IsFirst (x ∷ xs) y e = elim (Option-cases (f x)) [
    | inl miss ↦ later x xs y miss (first-IsFirst xs y (ground (arith, miss)))
    | inr (z, hit) ↦ record {
      before = [];
      hit = x;
      after = xs;
      split = refl;
      missed = tt;
      found = ground (arith, hit);
    }
  ]

  pub IsFirst-first : (xs : List A) (y : B) → IsFirst xs y → first xs ≡ some y
  IsFirst-first xs y h = ap first h.split ∙ first-append h.before h.hit h.after y h.missed h.found

  pub first_iff : (xs : List A) (y : B) → (first xs ≡ some y) ↔ IsFirst xs y
  first_iff xs y = (first-IsFirst xs y, IsFirst-first xs y)

  pub first-none_iff : (xs : List A) → (first xs ≡ none) ↔ All (λ x. f x ≡ none) xs
  first-none_iff [] = (λ _. tt, λ _. refl)
  first-none_iff (x ∷ xs) =
      let (missing, none_of) = first-none_iff xs in
      elim (Option-cases (f x)) [
        | inl miss ↦ (λ e. (miss, missing (ground (arith, miss))), λ m. rw miss (none_of m.1))
        | inr (z, hit) ↦ (λ e. absurd (ground (arith, hit)), λ m. absurd (ground (arith, hit, m.0)))
      ]

-- `y` stands for the first element that ends the list, before which all others pass.
pub record Until {A B : Type 0} (Passes : A → Type 0) (Ends : A → B → Type 0) (xs : List A) (y : B)
    : Type 0 where
  pub before : List A
  pub last : A
  pub after : List A
  pub split : xs ≡ before ++ last ∷ after
  pub passed : All Passes before
  pub ends : Ends last y

module _ {A B : Type 0} {Passes : A → Type 0} {Ends : A → B → Type 0} (f : A → Option B)
    (passes : (x : A) → (f x ≡ none) ↔ Passes x)
    (ends : (x : A) (y : B) → (f x ≡ some y) ↔ Ends x y) where
  -- Along a list, a function that decides both finds where the list ends, or that all pass.
  pub first-Until : (xs : List A) (y : B) → (first f xs ≡ some y) ↔ Until Passes Ends xs y
  first-Until xs y = (
    λ e.
        let hit = first-IsFirst f xs y e in
        record {
          before = hit.before;
          last = hit.hit;
          after = hit.after;
          split = hit.split;
          passed = All-map (λ x. (passes x).0) hit.before hit.missed;
          ends = (ends hit.hit y).0 hit.found;
        },
    λ h. IsFirst-first f xs y (record {
      before = h.before;
      hit = h.last;
      after = h.after;
      split = h.split;
      missed = All-map (λ x. (passes x).1) h.before h.passed;
      found = (ends h.last y).1 h.ends;
    }),
  )

  pub first-none-All : (xs : List A) → (first f xs ≡ none) ↔ All Passes xs
  first-none-All xs = (
    λ e. All-map (λ x. (passes x).0) xs ((first-none_iff f xs).0 e),
    λ h. (first-none_iff f xs).1 (All-map (λ x. (passes x).1) xs h),
  )
