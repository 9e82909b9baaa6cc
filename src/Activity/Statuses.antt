-- ===== src/Activity/Statuses.antt =====
-- How `HTTPResponseError` of internal/activityhelpers/http.go classifies every status code.
use temporal_mistakes.Base.{
  ℕ, ◌≤◌, ◌<◌, ◌≡◌, ◌≢◌, refl, sym, ◌∙◌, ◌↔◌, ◌⊎◌, inl, inr, Option, none, some, Bool, true, false,
  String, List, ℤ, pos, Bool-cases, arith, ltb, leb, ◌&&◌,
}
use temporal_mistakes.Errors.{Err, node, application}
use temporal_mistakes.Runtime.{Runtime}
use temporal_mistakes.Sdk.{ActivityInfo}
use temporal_mistakes.Activity.Http.{Response, is_rejected, response_delay, http_response_error}

-- A client error with a registered name, other than 408, 425 and 429.
abbrev pub IsRejection : ℕ → Type 0
IsRejection s =
    ((400 ≤ s)
      × (s ≤ 431)
      × (s ≢ 408)
      × (s ≢ 419)
      × (s ≢ 420)
      × (s ≢ 425)
      × (s ≢ 427)
      × (s ≢ 429)
      × (s ≢ 430))
    ⊎ (s ≡ 451)

is_rejected_iff : (s : ℕ) → (is_rejected s ≡ true) ↔ IsRejection s
unfolding is_rejected
is_rejected_iff s = ground arith

abbrev pub IsSuccess : ℕ → Type 0
IsSuccess s = (200 ≤ s) × (s < 400)

-- The retryability of an outcome's application error, and its delay.
abbrev pub verdict_of_error : Err → Option Bool
verdict_of_error (node (application a) es) = some a.non_retryable
verdict_of_error (node _ es) = none

abbrev pub verdict : Option Err → Option Bool
verdict none = none
verdict (some e) = verdict_of_error e

abbrev delay_of_error : Err → ℤ
delay_of_error (node (application a) es) = a.next_retry_delay
delay_of_error (node _ es) = pos 0

abbrev pub delay_of : Option Err → ℤ
delay_of none = pos 0
delay_of (some e) = delay_of_error e

IsSuccess-iff : (s : ℕ) → ((leb 200 s && ltb s 400) ≡ true) ↔ IsSuccess s
IsSuccess-iff s = ground arith

not_success : (s : ℕ) → ¬ IsSuccess s → (leb 200 s && ltb s 400) ≡ false
not_success s h = ground arith

rejection-not_success : (s : ℕ) → IsRejection s → (leb 200 s && ltb s 400) ≡ false
rejection-not_success s h = ground arith

not_rejected : (s : ℕ) → ¬ IsRejection s → is_rejected s ≡ false
not_rejected s h = elim (Bool-cases (is_rejected s)) [
  | inl e ↦ absurd (h ((is_rejected_iff s).0 e))
  | inr e ↦ e
]

three_cases : (s : ℕ) → IsSuccess s ⊎ (IsRejection s ⊎ ((¬ IsSuccess s) × (¬ IsRejection s)))
three_cases s = elim (Bool-cases (leb 200 s && ltb s 400)) [
  | inl e ↦ inl ((IsSuccess-iff s).0 e)
  | inr e ↦ elim (Bool-cases (is_rejected s)) [
    | inl k ↦ inr (inl ((is_rejected_iff s).0 k))
    | inr k ↦ inr (inr (disjoint e ((IsSuccess-iff s).1), disjoint k ((is_rejected_iff s).1)))
  ]
]
  where
    disjoint : {P : Type 0} {b : Bool} → b ≡ false → (P → b ≡ true) → ¬ P
    disjoint e f p = ground (arith, f p)

IsSuccess-not-IsRejection : (s : ℕ) → IsSuccess s → ¬ IsRejection s
IsSuccess-not-IsRejection s h k = ground arith

verdict-none : (o : Option Err) {b : Bool} → o ≡ none → verdict o ≡ some b → ⊥
verdict-none none e k = ground arith
verdict-none (some x) e k = ground arith

verdict-one : (o : Option Err) → verdict o ≡ some true → verdict o ≡ some false → ⊥
verdict-one o e k = ground (arith, sym e ∙ k)

-- Three exclusive cases with three different outcomes are told apart by the outcome.
told_apart :
    {S R : Type 0} (o : Option Err)
    → S ⊎ (R ⊎ ((¬ S) × (¬ R)))
    → (S → ¬ R)
    → (S → o ≡ none)
    → (R → verdict o ≡ some true)
    → (¬ S → ¬ R → verdict o ≡ some false)
    → ((o ≡ none) ↔ S)
      × ((verdict o ≡ some true) ↔ R)
      × ((verdict o ≡ some false) ↔ ((¬ S) × (¬ R)))
told_apart o (inl x) d a b c = (
  (λ _. x, a),
  (λ e. absurd (verdict-none o (a x) e), b),
  (λ e. absurd (verdict-none o (a x) e), λ n. c n.0 n.1),
)
told_apart o (inr (inl x)) d a b c = (
  (λ e. absurd (verdict-none o e (b x)), a),
  (λ _. x, b),
  (λ e. absurd (verdict-one o (b x) e), λ n. c n.0 n.1),
)
told_apart o (inr (inr n)) d a b c = (
  (λ e. absurd (verdict-none o e (c n.0 n.1)), a),
  (λ e. absurd (verdict-one o e (c n.0 n.1)), b),
  (λ _. n, λ k. c k.0 k.1),
)

module _ (rt : Runtime) (status_text : ℕ → String) (trimmed_text : List ℕ → String) {Time : Type 0}
    (parse_time : List ℕ → Option Time) (sub : Time → Time → ℤ)
    (ctx : Option (ActivityInfo rt.Float)) (r : Response) (now : Time) where
  abbrev pub outcome : Option Err
  outcome = http_response_error rt status_text trimmed_text parse_time sub ctx r now

  outcome-success : IsSuccess r.status_code → outcome ≡ none
  unfolding http_response_error
  outcome-success h = rw ((IsSuccess-iff r.status_code).1 h)

  outcome-rejection : IsRejection r.status_code → verdict outcome ≡ some true
  unfolding http_response_error
  outcome-rejection h =
      rw (rejection-not_success r.status_code h, (is_rejected_iff r.status_code).1 h)

  pub outcome-retry :
      ¬ IsSuccess r.status_code
      → ¬ IsRejection r.status_code
      → (verdict outcome ≡ some false)
        × (delay_of outcome ≡ response_delay rt parse_time sub ctx r now)
  unfolding http_response_error
  outcome-retry h k = rw (not_success r.status_code h, not_rejected r.status_code k) (refl, refl)

  -- What `http_response_error` decides: no error for 2xx and 3xx, a non-retryable one for the
  -- rejections, and a retryable one for every other status code.
  pub http_response_error_classifies :
      ((outcome ≡ none) ↔ IsSuccess r.status_code)
      × ((verdict outcome ≡ some true) ↔ IsRejection r.status_code)
      × ((verdict outcome ≡ some false)
          ↔ ((¬ IsSuccess r.status_code) × (¬ IsRejection r.status_code)))
  http_response_error_classifies =
      told_apart outcome (three_cases r.status_code) (IsSuccess-not-IsRejection r.status_code)
        outcome-success outcome-rejection (λ h k. (outcome-retry h k).0)
