-- ===== src/Payments/AttemptsLaws.antt =====
-- What the attempts of one `ChargePayment` of examples/go/payments/activity.go charge together.
use temporal_mistakes.Base.{
  ◌≡◌, ◌≢◌, refl, sym, ap, ◌∙◌, subst, ◌⊎◌, inl, inr, some, String, List, [], ◌∷◌, All, Memᴰ, arith,
}
use temporal_mistakes.Errors.{Err}
use temporal_mistakes.Runtime.{Runtime}
use temporal_mistakes.Sdk.{ActivityInfo}
use temporal_mistakes.Activity.Http.{Response}
use temporal_mistakes.Activity.Idempotency.{get_idempotency_token}
use temporal_mistakes.Activity.Statuses.{IsSuccess}
use temporal_mistakes.Activity.Transport.{
  transport_result, do_request, Request, get, default_idempotency_header,
}
use temporal_mistakes.Payments.Charge.{
  ChargePaymentRequest, Services, build_charge_request, charge_payment,
}
use temporal_mistakes.Payments.ChargeLaws.{charge_payment_succeeds_iff}
use temporal_mistakes.Payments.Attempts.{
  PaymentService, IsIdempotent, IsAccepted, in_state, sent_by, state_after, charge_attempts,
}
use temporal_mistakes.Payments.AttemptKeys.{HasNoHeader, IsSameActivity, built-key, sent-key}

abbrev pub IsFailure : {A : Type 0} → Err ⊎ A → Type 0
IsFailure (inl err) = Unit
IsFailure (inr x) = ⊥

module _ (rt : Runtime) {Time Client Content : Type 0} (via : Services Time Client Content)
    (service : PaymentService Content) (idempotent : IsIdempotent via.canonical service)
    (bare : (body : Content) → HasNoHeader (via.new_request body))
    (distinct : via.canonical default_idempotency_header ≢ via.canonical "Content-Type")
    (first : ActivityInfo rt.Float) where
  abbrev token : String
  token = get_idempotency_token via.digest (some first)

  -- At most one charge, under the token, which no charge had before.
  abbrev AddsOne : (before after : service.State) → Type 0
  AddsOne before after =
      (service.ledger after ≡ service.ledger before)
      ⊎ ((service.ledger after ≡ token ∷ service.ledger before)
          × (¬ Memᴰ token (service.ledger before)))

  attempt-AddsOne :
      (s : service.State) (info : ActivityInfo rt.Float) (now : Time) (b : Err ⊎ Request Content)
      → IsSameActivity first (info, now)
      → ((built : Request Content)
          → b ≡ inr built
          → get via.canonical built.header default_idempotency_header ≡ "")
      → AddsOne s (state_after rt via service info s b)
  attempt-AddsOne s info now (inl err) same unset = inl refl
  attempt-AddsOne s info now (inr built) same unset =
      let key = sent-key rt via service first s info now built same (unset built refl) in
      subst
        (λ t.
          (service.ledger (service.handle s (sent_by rt via service s info built)).0
            ≡ service.ledger s)
          ⊎ ((service.ledger (service.handle s (sent_by rt via service s info built)).0
                ≡ t ∷ service.ledger s)
              × (¬ Memᴰ t (service.ledger s))))
        key (idempotent s (sent_by rt via service s info built)).0

  -- The cases of a result, with the equation.
  result_cases : {A : Type 0} (r : Err ⊎ A) → IsFailure r ⊎ ((x : A) × (r ≡ inr x))
  result_cases (inl err) = inl tt
  result_cases (inr x) = inr (x, refl)

  received :
      (send : Client → Request Content → Err ⊎ Response) (r : Err ⊎ Response) (resp : Response)
      → transport_result via.canonical via.error_text via.url_text via.default_client send r
        ≡ inr resp
      → r ≡ inr resp
  unfolding transport_result
  received send (inl err) resp e = absurd (ground arith)
  received send (inr x) resp e = e

  accepted-token :
      (s : service.State) (info : ActivityInfo rt.Float) (now : Time) (built : Request Content)
      (resp : Response)
      → IsSameActivity first (info, now)
      → get via.canonical built.header default_idempotency_header ≡ ""
      → IsSuccess resp.status_code
      → (service.handle s (sent_by rt via service s info built)).1 ≡ inr resp
      → Memᴰ token (service.ledger (service.handle s (sent_by rt via service s info built)).0)
  accepted-token s info now built resp same unset ok got =
      elim (idempotent s (sent_by rt via service s info built)).1 [
        | inl refused ↦ absurd (refused (subst IsAccepted (sym got) ok))
        | inr m ↦
            subst
              (λ t.
                Memᴰ t (service.ledger (service.handle s (sent_by rt via service s info built)).0))
              (sent-key rt via service first s info now built same unset) m
      ]

  attempt_succeeds :
      (req : ChargePaymentRequest) (s : service.State) (info : ActivityInfo rt.Float) (now : Time)
      → IsSameActivity first (info, now)
      → IsFailure (charge_payment rt (in_state rt via service s) (some info) now req)
        ⊎ Memᴰ token
            (service.ledger (state_after rt via service info s (build_charge_request rt via req)))
  unfolding do_request build_charge_request
  attempt_succeeds req s info now same =
      elim (result_cases (charge_payment rt (in_state rt via service s) (some info) now req)) [
        | inl f ↦ inl f
        | inr (out, e) ↦
            let (built, resp, b, x, ok, d) =
              (charge_payment_succeeds_iff rt (in_state rt via service s) (some info) now out req).0
                e in
            inr (
              subst (λ r. Memᴰ token (service.ledger (state_after rt via service info s r))) (sym b)
                (accepted-token s info now built resp same
                  (built-key rt via bare distinct (via.marshal req) built b) ok
                  (received (in_state rt via service s).send _ resp x)))
      ]

  -- The invariant of the attempts: the ledger is that of the start, or has one charge more.
  abbrev HasCharged : List String → service.State → Type 0
  HasCharged before s = service.ledger s ≡ token ∷ before

  HasCharged-AddsOne :
      (before : List String) (s after : service.State)
      → HasCharged before s
      → AddsOne s after
      → HasCharged before after
  HasCharged-AddsOne before s after h (inl e) = e ∙ h
  HasCharged-AddsOne before s after h (inr (e, n)) =
      absurd (n (subst (Memᴰ token) (sym h) (Memᴰ.head refl)))

  step-AddsOne :
      (req : ChargePaymentRequest) (s : service.State) (info : ActivityInfo rt.Float) (now : Time)
      → IsSameActivity first (info, now)
      → AddsOne s (state_after rt via service info s (build_charge_request rt via req))
  unfolding build_charge_request
  step-AddsOne req s info now same =
      attempt-AddsOne s info now (build_charge_request rt via req) same
        (λ built e. built-key rt via bare distinct (via.marshal req) built e)

  attempts-HasCharged :
      (req : ChargePaymentRequest) (attempts : List (ActivityInfo rt.Float × Time))
      (before : List String) (s : service.State)
      → All (IsSameActivity first) attempts
      → HasCharged before s
      → HasCharged before (charge_attempts rt via service req attempts s).0
  unfolding charge_attempts
  attempts-HasCharged req [] before s same h = h
  attempts-HasCharged req ((info, now) ∷ attempts) before s (now_same, same) h =
      attempts-HasCharged req attempts before _ same
        (HasCharged-AddsOne before s _ h (step-AddsOne req s info now now_same))

  -- However many attempts an activity execution takes, whatever they answer and whichever answers
  -- are lost, they make at most one charge together, and exactly one if an attempt succeeds: at an
  -- idempotent service that has not charged under the execution's token before, if new requests
  -- have no header and the names of the two headers differ.
  pub charge_attempts_once :
      (req : ChargePaymentRequest) (attempts : List (ActivityInfo rt.Float × Time))
      (s : service.State)
      → All (IsSameActivity first) attempts
      → (¬ Memᴰ token (service.ledger s))
      → ((service.ledger (charge_attempts rt via service req attempts s).0 ≡ service.ledger s)
          × All IsFailure (charge_attempts rt via service req attempts s).1)
        ⊎ (service.ledger (charge_attempts rt via service req attempts s).0
            ≡ token ∷ service.ledger s)
  unfolding charge_attempts
  charge_attempts_once req [] s same new = inl (refl, tt)
  charge_attempts_once req ((info, now) ∷ attempts) s (now_same, same) new =
      let after = state_after rt via service info s (build_charge_request rt via req) in
      elim (step-AddsOne req s info now now_same) [
        | inr (e, n) ↦ inr (attempts-HasCharged req attempts (service.ledger s) after same e)
        | inl e ↦ elim (attempt_succeeds req s info now now_same) [
          | inr m ↦ absurd (new (subst (Memᴰ token) e m))
          | inl f ↦
              elim (charge_attempts_once req attempts after same
                (λ m. new (subst (Memᴰ token) e m))) [
                  | inl (l, fs) ↦ inl (l ∙ e, (f, fs))
                  | inr l ↦ inr (l ∙ ap (λ ks. token ∷ ks) e)
                ]
        ]
      ]
