-- ===== src/ErrorMapper/GrpcLaws.antt =====
-- What examples/go/errormapperinterceptor/grpcerrormapper/mapper.go makes of gRPC statuses.
use temporal_mistakes.Base.{
  ℕ, ◌≡◌, ◌≢◌, refl, sym, ap, subst, ◌∙◌, ◌↔◌, ◌⊎◌, inl, inr, Option, none, some, true, false,
  String, List, [], ◌∷◌, ◌++◌, All, ◌≤◌, ℤ, pos, ltb_ℤ, ◌<ℤ◌, ◌≤ℤ◌, ◌==◌, Bool-cases, if◌then◌else◌,
  arith,
}
use temporal_mistakes.Errors.{
  Err, Status, StatusDetail, retry_info, other_detail, application_error,
}
use temporal_mistakes.Activity.Statuses.{verdict, delay_of}
use temporal_mistakes.ErrorMapper.ChainLaws.{IsClaim}
use temporal_mistakes.Base.Tests.{decided}
use temporal_mistakes.ErrorMapper.DefaultLaws.{application-IsNative}
use temporal_mistakes.ErrorMapper.Grpc.{
  is_non_retryable_code, first_retry_delay, retry_delay_from_status, status_error, map_status,
  map_grpc_error,
}

-- The detail does not ask for a positive delay.
abbrev pub AsksNothing : StatusDetail → Type 0
AsksNothing (retry_info (some d)) = d ≤ℤ pos 0
AsksNothing (retry_info none) = Unit
AsksNothing other_detail = Unit

-- The first positive delay of the details.
abbrev pub IsFirstDelay : List StatusDetail → ℤ → Type 0
IsFirstDelay ds d =
    (before after : List StatusDetail) × (ds ≡ before ++ (retry_info (some d) ∷ after))
    × All AsksNothing before
    × (pos 0 <ℤ d)

abbrev pub DelayFound : List StatusDetail → ℤ → Type 0
DelayFound ds d = IsFirstDelay ds d ⊎ (All AsksNothing ds × (d ≡ pos 0))

skip_detail :
    (x : StatusDetail) (ds : List StatusDetail) (d : ℤ)
    → AsksNothing x
    → DelayFound ds d
    → DelayFound (x ∷ ds) d
skip_detail x ds d h (inl (before, after, p, all, k)) =
    inl (x ∷ before, after, ap (λ l. x ∷ l) p, (h, all), k)
skip_detail x ds d h (inr (all, e)) = inr ((h, all), e)

choose_delay :
    (got rest : ℤ) (ds : List StatusDetail)
    → DelayFound ds rest
    → DelayFound (retry_info (some got) ∷ ds) (if ltb_ℤ (pos 0) got then got else rest)
choose_delay got rest ds h = elim (Bool-cases (ltb_ℤ (pos 0) got)) [
  | inl e ↦ rw e (inl ([], ds, refl, tt, positive got e))
  | inr e ↦ rw e (skip_detail (retry_info (some got)) ds rest (not_positive got e) h)
]
  where
    positive : (d : ℤ) → ltb_ℤ (pos 0) d ≡ true → pos 0 <ℤ d
    positive d e = ground arith

    not_positive : (d : ℤ) → ltb_ℤ (pos 0) d ≡ false → d ≤ℤ pos 0
    not_positive d e = ground arith

first_retry_delay-found : (ds : List StatusDetail) → DelayFound ds (first_retry_delay ds)
unfolding first_retry_delay
first_retry_delay-found [] = inr (tt, refl)
first_retry_delay-found (other_detail ∷ ds) =
    skip_detail other_detail ds _ tt (first_retry_delay-found ds)
first_retry_delay-found (retry_info none ∷ ds) =
    skip_detail (retry_info none) ds _ tt (first_retry_delay-found ds)
first_retry_delay-found (retry_info (some got) ∷ ds) =
    choose_delay got (first_retry_delay ds) ds (first_retry_delay-found ds)

found_nonneg :
    (ds : List StatusDetail) (d : ℤ) → DelayFound ds d → (if ltb_ℤ (pos 0) d then d else pos 0) ≡ d
found_nonneg ds d (inl (before, after, p, all, k)) = ground arith
found_nonneg ds d (inr (all, e)) = rw e

-- Codes whose semantics let no retry succeed: InvalidArgument (3), NotFound, AlreadyExists,
-- PermissionDenied (5 to 7), FailedPrecondition (9), OutOfRange, Unimplemented (11, 12) and
-- Unauthenticated (16).
abbrev pub IsClientError : ℕ → Type 0
IsClientError c = (c ≡ 3) ⊎ (((5 ≤ c) × (c ≤ 7)) ⊎ ((c ≡ 9) ⊎ (((11 ≤ c) × (c ≤ 12)) ⊎ (c ≡ 16))))

is_non_retryable_code_iff : (c : ℕ) → (is_non_retryable_code c ≡ true) ↔ IsClientError c
unfolding is_non_retryable_code
is_non_retryable_code_iff c = ground arith

nonzero : (n : ℕ) → n ≢ 0 → (n == 0) ≡ false
nonzero n h = ground arith

module _ (from_error : Err → Option Status) (code_string : ℕ → String) (err : Err) where
  map_status_claims :
      (o : Option Status)
      → ((map_status from_error code_string o err).1 ≡ true)
        ↔ ((st : Status) × (o ≡ some st) × (st.code ≢ 0))
  unfolding map_status
  map_status_claims none = (λ e. absurd (ground arith), λ (st, e, h). absurd (ground arith))
  map_status_claims (some st) = elim (Bool-cases (st.code == 0)) [
    | inl e ↦ rw e (λ k. absurd (ground arith), λ (x, p, h). absurd (h (same_code x st p e)))
    | inr e ↦ rw e (λ _. (st, refl, λ z. ground arith), λ _. refl)
  ]
    where
      code_of : Option Status → ℕ
      code_of none = 0
      code_of (some s) = s.code

      same_code : (x s : Status) → some s ≡ some x → (s.code == 0) ≡ true → x.code ≡ 0
      same_code x s p e = ground (arith, ap code_of p)

  -- The mapper claims exactly the errors that carry a status whose code is not OK.
  map_grpc_error_claims :
      ((map_grpc_error from_error code_string err).1 ≡ true)
      ↔ ((st : Status) × (from_error err ≡ some st) × (st.code ≢ 0))
  unfolding map_grpc_error
  map_grpc_error_claims = map_status_claims (from_error err)

  map_status-claimed :
      (st : Status)
      → st.code ≢ 0
      → map_status from_error code_string (some st) err
        ≡ (some (application_error (status_error from_error code_string st) err), true)
  unfolding map_status
  map_status-claimed st h = rw (nonzero st.code h)

  -- What it makes of such a status: an application error around the original one, non-retryable
  -- exactly for the client errors, whose delay is the first positive one among the details, or 0.
  pub map_grpc_error_result :
      (st : Status)
      → from_error err ≡ some st
      → st.code ≢ 0
      → ((verdict (map_grpc_error from_error code_string err).0 ≡ some true)
          ↔ IsClientError st.code)
        × DelayFound st.details (delay_of (map_grpc_error from_error code_string err).0)
  unfolding map_grpc_error retry_delay_from_status status_error
  map_grpc_error_result st e h =
      let answered =
        ap (λ o. map_status from_error code_string o err) e ∙ map_status-claimed st h in
      let found = first_retry_delay-found st.details in
      subst
        (λ r.
          ((verdict r.0 ≡ some true) ↔ IsClientError st.code)
          × DelayFound st.details (delay_of r.0))
        (sym answered)
        (
          (decided (is_non_retryable_code st.code) (is_non_retryable_code_iff st.code)).0,
          subst (DelayFound st.details) (sym (found_nonneg st.details _ found)) found,
        )

  status-ClaimsNative : (o : Option Status) → IsClaim (map_status from_error code_string o err)
  unfolding map_status
  status-ClaimsNative none = inl refl
  status-ClaimsNative (some st) = elim (Bool-cases (st.code == 0)) [
    | inl e ↦ rw e (inl refl)
    | inr e ↦ rw e (inr (_, refl, application-IsNative _ err))
  ]

  mapper-ClaimsNative : IsClaim (map_grpc_error from_error code_string err)
  unfolding map_grpc_error
  mapper-ClaimsNative = status-ClaimsNative (from_error err)
