-- ===== src/Activity/TransportLaws.antt =====
-- How the client of internal/activityhelpers/http.go classifies failures.
use temporal_mistakes.Base.{
  ◌≡◌, ◌≢◌, refl, ◌↔◌, Option, none, some, Bool, true, false, String, arith,
}
use temporal_mistakes.Errors.{
  Err, node, dns, Layer, UrlError, DnsError, Errs, errors_as, is_url, is_dns, matches, layer,
}
use temporal_mistakes.Errors.Search.{
  errors_as-layer, is_url-inv, SkipsApplication, errors_as-application_error,
}
use temporal_mistakes.Base.Tests.{decided}
use temporal_mistakes.Activity.Statuses.{verdict_of_error}
use temporal_mistakes.Activity.Transport.{
  found_url, found_missing, as_url, is_dns_not_found, classify_found, classify_http_transport_error,
}

-- The first *net.DNSError of the tree of `e`, if there is one, reports that the host does not exist.
abbrev pub IsMissingHost : Err → Type 0
IsMissingHost e =
    (d : DnsError) × (es : Errs) × (errors_as is_dns e ≡ some (node (dns d) es))
    × (d.is_not_found ≡ true)

found_missing_iff :
    (o : Option Err)
    → (found_missing o ≡ true)
      ↔ ((d : DnsError) × (es : Errs) × (o ≡ some (node (dns d) es)) × (d.is_not_found ≡ true))
found_missing_iff none = (λ e. absurd (ground arith), λ (d, es, e, k). absurd (ground arith))
found_missing_iff (some (node (dns d) es)) = (λ e. (d, es, refl, e), λ (d, es, e, k). ground arith)
found_missing_iff (some (node _ es)) =
    (λ e. absurd (ground arith), λ (d, es, e, k). absurd (ground arith))

pub is_dns_not_found_iff : (e : Err) → (is_dns_not_found e ≡ true) ↔ IsMissingHost e
unfolding is_dns_not_found
is_dns_not_found_iff e = found_missing_iff (errors_as is_dns e)

found_url-url :
    (o : Option Err)
    → ((x : Err) → o ≡ some x → is_url (layer x) ≡ true)
    → (found_url o ≢ none) ↔ ((elim o [ some _ ↦ true | none ↦ false ]) ≡ true)
found_url-url none h = (λ n. absurd (n refl), λ e. absurd (ground arith))
found_url-url (some (node l es)) h =
    let (u, e) = is_url-inv l (h (node l es) refl) in rw e (λ _. refl, λ _ k. ground arith)

non_retryable_iff :
    (text : Err → String) (url_text : UrlError → String) (o : Option UrlError) (e : Err)
    → ((classify_found text url_text o e).non_retryable ≡ true)
      ↔ ((o ≢ none) × (is_dns_not_found e ≡ true))
unfolding classify_found
non_retryable_iff text url_text none e = (λ k. absurd (ground arith), λ h. absurd (h.0 refl))
non_retryable_iff text url_text (some u) e = ground arith

module _ (text : Err → String) (url_text : UrlError → String) (err : Err) where
  -- A transport failure is final exactly when its tree has a *url.Error, and the first
  -- *net.DNSError in it reports that the host does not exist; it is retryable otherwise.
  classify_http_transport_error_iff :
      ((verdict_of_error (classify_http_transport_error text url_text err) ≡ some true)
        ↔ ((matches is_url err ≡ true) × IsMissingHost err))
      × ((verdict_of_error (classify_http_transport_error text url_text err) ≡ some false)
          ↔ (¬ ((matches is_url err ≡ true) × IsMissingHost err)))
  unfolding classify_http_transport_error as_url
  classify_http_transport_error_iff =
      let t = non_retryable_iff text url_text (as_url err) err in
      let u = found_url-url (errors_as is_url err) (λ x. errors_as-layer is_url err x) in
      let d = is_dns_not_found_iff err in
      decided (classify_found text url_text (as_url err) err).non_retryable
        (λ e. (u.0 (t.0 e).0, d.0 (t.0 e).1), λ h. t.1 (u.1 h.0, d.1 h.1))

  -- The original error stays reachable: whatever type other than *temporal.ApplicationError is
  -- searched for, errors.As finds in the result what it finds in the original.
  classify_http_transport_error-errors_as :
      (p : Layer → Bool)
      → SkipsApplication p
      → errors_as p (classify_http_transport_error text url_text err) ≡ errors_as p err
  unfolding classify_http_transport_error
  classify_http_transport_error-errors_as p h = errors_as-application_error p _ err h
