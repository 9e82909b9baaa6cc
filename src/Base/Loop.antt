-- ===== src/Base/Loop.antt =====
-- Loops that emit something in each round until one gives a result.
use mathlib.Core.Path.{◌≡◌, refl, sym, ap, ◌∙◌}
use mathlib.Core.Logic.{◌↔◌}
use mathlib.Core.Option.{Option, none, some}
use mathlib.Core.List.{List, [], ◌∷◌, ◌++◌, append-nil}
use native.Mathlib.Omega.{arith}
use temporal_mistakes.Base.Lists.{All, All-map}
use temporal_mistakes.Base.First.{first, or_else, Until, first-Until}

abbrev pub before_rest {ℓ} :
    {E B : Type ℓ} → List E × Option B → List E × Option B → List E × Option B
before_rest (es, some b) rest = (es, some b)
before_rest (es, none) rest = (es ++ rest.0, rest.1)

module _ {A B E : Type 0} (step : A → List E × Option B) where
  -- What the rounds emit until the first that gives a result, and that result.
  abbrev pub loop : List A → List E × Option B
  loop [] = ([], none)
  loop (x ∷ xs) = before_rest (step x) (loop xs)

  -- What all the rounds emit.
  abbrev pub emitted : List A → List E
  emitted [] = []
  emitted (x ∷ xs) = (step x).0 ++ emitted xs

  before_rest-result : (r rest : List E × Option B) → (before_rest r rest).1 ≡ or_else r.1 rest.1
  before_rest-result (es, some b) rest = refl
  before_rest-result (es, none) rest = refl

  loop-first : (xs : List A) → (loop xs).1 ≡ first (λ x. (step x).1) xs
  loop-first [] = refl
  loop-first (x ∷ xs) =
      before_rest-result (step x) (loop xs) ∙ ap (or_else (step x).1) (loop-first xs)

  before_rest_stops :
      (r rest : List E × Option B) (y : B) → r.1 ≡ some y → before_rest r rest ≡ (r.0 ++ [], some y)
  before_rest_stops (es, some b) rest y e = λ i. (sym (append-nil es) i, e i)
  before_rest_stops (es, none) rest y e = absurd (ground arith)

  before_rest_passes :
      (r rest : List E × Option B) → r.1 ≡ none → before_rest r rest ≡ (r.0 ++ rest.0, rest.1)
  before_rest_passes (es, some b) rest e = absurd (ground arith)
  before_rest_passes (es, none) rest e = refl

  loop_ends :
      (before : List A) (last : A) (after : List A) (y : B)
      → All (λ x. (step x).1 ≡ none) before
      → (step last).1 ≡ some y
      → loop (before ++ last ∷ after) ≡ (emitted (before ++ last ∷ []), some y)
  loop_ends [] last after y _ e = before_rest_stops (step last) (loop after) y e
  loop_ends (x ∷ before) last after y (p, ps) e =
      before_rest_passes (step x) _ p
      ∙ ap (λ r. ((step x).0 ++ r.0, r.1)) (loop_ends before last after y ps e)

module _ {A B E : Type 0} {Passes : A → Type 0} {Ends : A → B → Type 0}
    (step : A → List E × Option B) (passes : (x : A) → ((step x).1 ≡ none) ↔ Passes x)
    (ends : (x : A) (y : B) → ((step x).1 ≡ some y) ↔ Ends x y) where
  Until-loop :
      (xs : List A) (y : B) (h : Until Passes Ends xs y)
      → loop step xs ≡ (emitted step (h.before ++ h.last ∷ []), some y)
  Until-loop xs y h =
      ap (loop step) h.split
      ∙ loop_ends step h.before h.last h.after y (All-map (λ x. (passes x).1) h.before h.passed)
          ((ends h.last y).1 h.ends)

  -- A loop gives a result exactly where the first round ends it, and has emitted by then what the
  -- rounds up to this one emit.
  pub loop_iff :
      (xs : List A) (es : List E) (y : B)
      → (loop step xs ≡ (es, some y))
        ↔ ((h : Until Passes Ends xs y) × (es ≡ emitted step (h.before ++ h.last ∷ [])))
  loop_iff xs es y = (
    λ e.
        let h =
          (first-Until (λ x. (step x).1) passes ends xs y).0
            (sym (loop-first step xs) ∙ ap (λ r. r.1) e) in
        (h, ap (λ r. r.0) (sym e ∙ Until-loop xs y h)),
    λ (h, e). Until-loop xs y h ∙ ap (λ fs. (fs, some y)) (sym e),
  )
