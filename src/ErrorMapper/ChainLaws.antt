-- ===== src/ErrorMapper/ChainLaws.antt =====
-- What the chain of mappers of examples/go/errormapperinterceptor/interceptor.go guarantees.
use temporal_mistakes.Base.{
  ◌≡◌, refl, sym, ap, subst, ◌∙◌, ◌↔◌, ◌⊎◌, inl, inr, Option, none, some, Bool, true, false, ◌||◌,
  List, [], ◌∷◌, ◌++◌, All, Bool-cases, arith,
}
use temporal_mistakes.Errors.{Err, matches, is_application, is_canceled, is_timeout, is_terminated}
use temporal_mistakes.ErrorMapper.Chain.{
  ErrorMapper, map_error, Options, is_native_temporal_error, rewrite_error, execute_activity,
}

-- The error is, or wraps, one of the four native types.
abbrev pub IsNative : Err → Type 0
IsNative e =
    (matches is_application e ≡ true)
    ⊎ ((matches is_canceled e ≡ true)
        ⊎ ((matches is_timeout e ≡ true) ⊎ (matches is_terminated e ≡ true)))

IsNative-iff : (e : Err) → (is_native_temporal_error e ≡ true) ↔ IsNative e
unfolding is_native_temporal_error
IsNative-iff e =
    any_of_four (matches is_application e) (matches is_canceled e) (matches is_timeout e)
      (matches is_terminated e)
  where
    any_of_four :
        (a b c d : Bool)
        → ((a || (b || (c || d))) ≡ true) ↔ ((a ≡ true) ⊎ ((b ≡ true) ⊎ ((c ≡ true) ⊎ (d ≡ true))))
    any_of_four a b c d = ground arith

not_native : (e : Err) → ¬ IsNative e → is_native_temporal_error e ≡ false
not_native e h = elim (Bool-cases (is_native_temporal_error e)) [
  | inl k ↦ absurd (h ((IsNative-iff e).0 k))
  | inr k ↦ k
]

-- The mappers before `m` decline the error, and `m` answers `mapped` for it.
abbrev pub IsFirstClaim : List ErrorMapper → Err → Option Err → Type 0
IsFirstClaim ms err mapped =
    (before : List ErrorMapper) × (m : ErrorMapper) × (after : List ErrorMapper) × (ms
      ≡ before ++ (m ∷ after))
    × All (λ b. (map_error b err).1 ≡ false) before
    × (map_error m err ≡ (mapped, true))

abbrev pub AllDecline : List ErrorMapper → Err → Type 0
AllDecline ms err = All (λ m. (map_error m err).1 ≡ false) ms

after_decline :
    (m : ErrorMapper) (ms : List ErrorMapper) (err : Err) (mapped : Option Err)
    → (map_error m err).1 ≡ false
    → IsFirstClaim ms err mapped ⊎ (AllDecline ms err × (mapped ≡ some err))
    → IsFirstClaim (m ∷ ms) err mapped ⊎ (AllDecline (m ∷ ms) err × (mapped ≡ some err))
after_decline m ms err mapped e (inl (before, k, after, p, all, c)) =
    inl (m ∷ before, k, after, ap (λ l. m ∷ l) p, (e, all), c)
after_decline m ms err mapped e (inr (all, p)) = inr ((e, all), p)

rewrite_error-cases :
    (ms : List ErrorMapper) (err : Err)
    → IsFirstClaim ms err (rewrite_error ms err)
      ⊎ (AllDecline ms err × (rewrite_error ms err ≡ some err))
unfolding rewrite_error
rewrite_error-cases [] err = inr (tt, refl)
rewrite_error-cases (m ∷ ms) err = elim (Bool-cases ((map_error m err).1)) [
  | inl e ↦ inl ([], m, ms, refl, tt, λ i. (sym (claimed e) i, e i))
  | inr e ↦
      subst (λ r. IsFirstClaim (m ∷ ms) err r ⊎ (AllDecline (m ∷ ms) err × (r ≡ some err)))
        (sym (declined e)) (after_decline m ms err _ e (rewrite_error-cases ms err))
]
  where
    claimed : (map_error m err).1 ≡ true → rewrite_error (m ∷ ms) err ≡ (map_error m err).0
    claimed e = rw e

    declined : (map_error m err).1 ≡ false → rewrite_error (m ∷ ms) err ≡ rewrite_error ms err
    declined e = rw e

module _ {Output : Type 0} (o : Options) (out : Output) (err : Err) where
  -- An error that is or wraps a native one is returned unchanged, whatever the mappers are.
  pub execute_activity-native : IsNative err → execute_activity o (out, some err) ≡ (out, some err)
  unfolding execute_activity
  execute_activity-native h = rw ((IsNative-iff err).1 h)

  pub execute_activity-rewrites :
      ¬ IsNative err → execute_activity o (out, some err) ≡ (out, rewrite_error o.mappers err)
  unfolding execute_activity
  execute_activity-rewrites h = rw (not_native err h)

  -- Any other error is replaced by what the first mapper that claims it answers, and is returned
  -- unchanged exactly if all decline; the output stays.
  pub execute_activity-IsFirstClaim :
      ¬ IsNative err
      → ((mapped : Option Err) × IsFirstClaim o.mappers err mapped
          × (execute_activity o (out, some err) ≡ (out, mapped)))
        ⊎ (AllDecline o.mappers err × (execute_activity o (out, some err) ≡ (out, some err)))
  unfolding execute_activity
  execute_activity-IsFirstClaim h =
      rw (not_native err h) (elim (rewrite_error-cases o.mappers err) [
        | inl c ↦ inl (rewrite_error o.mappers err, c, refl)
        | inr (all, p) ↦ inr (all, ap (λ e. (out, e)) p)
      ])

-- A mapper's answer declines, or is or wraps a native error.
abbrev pub IsClaim : Option Err × Bool → Type 0
IsClaim r = (r.1 ≡ false) ⊎ ((claimed : Err) × (r ≡ (some claimed, true)) × IsNative claimed)

abbrev pub ClaimsNative : ErrorMapper → Type 0
ClaimsNative m = (e : Err) → IsClaim (map_error m e)

rewrite_error-shape :
    (ms : List ErrorMapper) (err : Err)
    → All ClaimsNative ms
    → ((claimed : Err) × (rewrite_error ms err ≡ some claimed) × IsNative claimed)
      ⊎ (rewrite_error ms err ≡ some err)
unfolding rewrite_error
rewrite_error-shape [] err h = inr refl
rewrite_error-shape (m ∷ ms) err (p, h) = elim (p err) [
  | inl e ↦ rw e (rewrite_error-shape ms err h)
  | inr (claimed, e, n) ↦ inl (claimed, rw (ap (λ r. r.1) e) (ap (λ r. r.0) e), n)
]

module _ {Output : Type 0} (o : Options) where
  settled :
      (x y : Output × Option Err)
      → execute_activity o x ≡ y
      → execute_activity o y ≡ y
      → execute_activity o (execute_activity o x) ≡ execute_activity o x
  settled x y p q = ap (execute_activity o) p ∙ q ∙ sym p

  -- If every mapper declines an error or answers with one that is, or wraps, a native error, then a
  -- second interceptor with the same mappers changes no result of the first.
  pub execute_activity-twice :
      (result : Output × Option Err)
      → All ClaimsNative o.mappers
      → execute_activity o (execute_activity o result) ≡ execute_activity o result
  unfolding execute_activity
  execute_activity-twice (out, none) h = refl
  execute_activity-twice (out, some err) h = elim (Bool-cases (is_native_temporal_error err)) [
    | inl e ↦
        let same = execute_activity-native o out err ((IsNative-iff err).0 e) in
        settled (out, some err) (out, some err) same same
    | inr e ↦
        let first =
          execute_activity-rewrites o out err
            (λ n. absurd (ground (arith, (IsNative-iff err).1 n))) in
        elim (rewrite_error-shape o.mappers err h) [
          | inl (claimed, p, n) ↦
              settled (out, some err) (out, some claimed) (first ∙ ap (λ r. (out, r)) p)
                (execute_activity-native o out claimed n)
          | inr p ↦
              let same = first ∙ ap (λ r. (out, r)) p in
              settled (out, some err) (out, some err) same same
        ]
  ]
