-- ===== src/ErrorMapper/DefaultLaws.antt =====
-- How the default mappers of examples/go/errormapperinterceptor/interceptor.go classify errors.
use temporal_mistakes.Base.{
  ◌≡◌, refl, sym, ap, ◌∙◌, ◌↔◌, ◌⊎◌, inl, inr, Option, none, some, Bool, true, false, String, All,
  if◌then◌else◌, arith,
}
use temporal_mistakes.Errors.{
  Err, Layer, node, nil, cons, application, dns, url, layer, errors_as, matches, application_error,
  ApplicationError, is_json_unmarshal_type, is_json_syntax, is_dns, is_url,
}
use temporal_mistakes.Errors.Search.{errors_as-layer, first_some-none}
use temporal_mistakes.Activity.Statuses.{verdict}
use temporal_mistakes.Activity.Transport.{is_dns_not_found, found_missing}
use temporal_mistakes.Activity.TransportLaws.{IsMissingHost, is_dns_not_found_iff}
use temporal_mistakes.ErrorMapper.Chain.{map_error, rewrite_error, execute_activity}
use temporal_mistakes.ErrorMapper.ChainLaws.{
  IsNative, IsClaim, ClaimsNative, execute_activity-rewrites,
}
use temporal_mistakes.ErrorMapper.Defaults.{
  json_syntax_case, json_cases, map_json, net_case, map_net, url_case, map_url, default_mappers,
}

abbrev is_some : Option Err → Bool
is_some (some _) = true
is_some none = false

-- The verdict of the default mappers, from what the four searches find.
abbrev expected : (unmarshal syntax dns_found url_found missing : Bool) → Option Bool
expected true s d u m = some true
expected false true d u m = some true
expected false false true u m = some m
expected false false false true m = some false
expected false false false false m = none

module _ (text : Err → String) where
  abbrev defaults_on : (a b c : Option Err × Bool) → Err → Option Err
  defaults_on a b c err = if a.1 then a.0 else if b.1 then b.0 else if c.1 then c.0 else some err

  plain_verdict : (err : Err) → ¬ IsNative err → verdict (some err) ≡ none
  unfolding errors_as
  plain_verdict (node (application a) es) h = absurd (h (inl refl))
  plain_verdict (node _ es) h = refl

  chosen :
      (u s d w : Option Err) (err : Err)
      → ((x : Err) → d ≡ some x → is_dns (layer x) ≡ true)
      → ((x : Err) → w ≡ some x → is_url (layer x) ≡ true)
      → verdict (some err) ≡ none
      → verdict (defaults_on (json_cases text u s) (net_case text d err) (url_case text w err) err)
        ≡ expected (is_some u) (is_some s) (is_some d) (is_some w) (found_missing d)
  unfolding json_cases json_syntax_case net_case url_case
  chosen (some _) s d w err hd hw h = refl
  chosen none (some _) d w err hd hw h = refl
  chosen none none (some (node (dns _) es)) w err hd hw h = refl
  chosen none none none (some (node (url _) es)) err hd hw h = refl
  chosen none none none none err hd hw h = h
  chosen none none (some (node _ es)) w err hd hw h = absurd (ground (arith, hd _ refl))
  chosen none none none (some (node _ es)) err hd hw h = absurd (ground (arith, hw _ refl))

  rewrite_error-defaults :
      (err : Err)
      → ¬ IsNative err
      → verdict (rewrite_error (default_mappers text) err)
        ≡ expected
            (matches is_json_unmarshal_type err)
            (matches is_json_syntax err)
            (matches is_dns err)
            (matches is_url err)
            (is_dns_not_found err)
  unfolding default_mappers rewrite_error map_error map_json map_net map_url is_dns_not_found
  rewrite_error-defaults err h =
      chosen (errors_as is_json_unmarshal_type err) (errors_as is_json_syntax err)
        (errors_as is_dns err) (errors_as is_url err) err (λ x. errors_as-layer is_dns err x)
        (λ x. errors_as-layer is_url err x) (plain_verdict err h)

classified :
    (u s d w m : Bool)
    → ((m ≡ true) → (d ≡ true))
    → ((expected u s d w m ≡ some true) ↔ ((u ≡ true) ⊎ ((s ≡ true) ⊎ (m ≡ true))))
      × ((expected u s d w m ≡ none) ↔ ((u ≡ false) × (s ≡ false) × (d ≡ false) × (w ≡ false)))
classified u s d w m k = ground arith

missing_found : (o : Option Err) → found_missing o ≡ true → is_some o ≡ true
missing_found none h = h
missing_found (some x) h = refl

module _ (text : Err → String) {Output : Type 0} (out : Output) (err : Err) where
  abbrev mapped : Option Err
  mapped = (execute_activity (record { mappers = default_mappers text }) (out, some err)).1

  mapped-verdict :
      ¬ IsNative err
      → verdict mapped
        ≡ expected
            (matches is_json_unmarshal_type err)
            (matches is_json_syntax err)
            (matches is_dns err)
            (matches is_url err)
            (is_dns_not_found err)
  mapped-verdict h =
      ap (λ r. verdict r.1)
        (execute_activity-rewrites (record { mappers = default_mappers text }) out err h)
      ∙ rewrite_error-defaults text err h

  -- For an error that is not native, the default mappers answer a non-retryable application error
  -- exactly if its tree has a JSON type mismatch, a JSON syntax error or, first among its DNS
  -- errors, a host that does not exist; and no application error exactly if its tree has no JSON,
  -- DNS or URL error.
  execute_activity-defaults :
      ¬ IsNative err
      → ((verdict mapped ≡ some true) ↔ (
          (matches is_json_unmarshal_type err ≡ true)
          ⊎ ((matches is_json_syntax err ≡ true) ⊎ IsMissingHost err)))
        × ((verdict mapped ≡ none) ↔ (
            (matches is_json_unmarshal_type err ≡ false)
            × (matches is_json_syntax err ≡ false)
            × (matches is_dns err ≡ false)
            × (matches is_url err ≡ false)))
  unfolding is_dns_not_found
  execute_activity-defaults h =
      let same = mapped-verdict h in
      let missing = is_dns_not_found_iff err in
      let c =
        classified (matches is_json_unmarshal_type err) (matches is_json_syntax err)
          (matches is_dns err) (matches is_url err) (is_dns_not_found err)
          (missing_found (errors_as is_dns err)) in
      (
        (
          λ e. map_third missing.0 (c.0.0 (sym same ∙ e)),
          λ x. same ∙ c.0.1 (map_third missing.1 x),
        ),
        (λ e. c.1.0 (sym same ∙ e), λ x. same ∙ c.1.1 x),
      )
    where
      map_third : {A B C D : Type 0} → (C → D) → A ⊎ (B ⊎ C) → A ⊎ (B ⊎ D)
      map_third f (inl a) = inl a
      map_third f (inr (inl b)) = inr (inl b)
      map_third f (inr (inr c)) = inr (inr (f c))

-- A JSON error is reported the same whatever other error wraps it: the wrapper is neither in the
-- message nor in the causes of the result.
pub map_json-wrapped :
    (text : Err → String) (l : Layer) (err : Err)
    → is_json_unmarshal_type l ≡ false
    → is_json_syntax l ≡ false
    → map_json text (node l (cons err nil)) ≡ map_json text err
unfolding map_json errors_as
map_json-wrapped text l err h k = rw (
  h,
  k,
  first_some-none (errors_as is_json_unmarshal_type err),
  first_some-none (errors_as is_json_syntax err),
)

pub application-IsNative :
    (a : ApplicationError) (cause : Err) → IsNative (application_error a cause)
unfolding errors_as
application-IsNative a cause = inl refl

module _ (text : Err → String) where
  json_cases-ClaimsNative : (u s : Option Err) → IsClaim (json_cases text u s)
  unfolding json_cases json_syntax_case
  json_cases-ClaimsNative (some e) s = inr (_, refl, application-IsNative _ _)
  json_cases-ClaimsNative none (some e) = inr (_, refl, application-IsNative _ _)
  json_cases-ClaimsNative none none = inl refl

  net_case-ClaimsNative : (o : Option Err) (e : Err) → IsClaim (net_case text o e)
  unfolding net_case
  net_case-ClaimsNative (some (node (dns d) es)) e = inr (_, refl, application-IsNative _ _)
  net_case-ClaimsNative (some (node _ es)) e = inl refl
  net_case-ClaimsNative none e = inl refl

  url_case-ClaimsNative : (o : Option Err) (e : Err) → IsClaim (url_case text o e)
  unfolding url_case
  url_case-ClaimsNative (some (node (url d) es)) e = inr (_, refl, application-IsNative _ _)
  url_case-ClaimsNative (some (node _ es)) e = inl refl
  url_case-ClaimsNative none e = inl refl

  default_mappers-ClaimsNative : All ClaimsNative (default_mappers text)
  unfolding default_mappers map_error map_json map_net map_url
  default_mappers-ClaimsNative = (
    λ e. json_cases-ClaimsNative _ _,
    (λ e. net_case-ClaimsNative _ e, (λ e. url_case-ClaimsNative _ e, tt)),
  )
