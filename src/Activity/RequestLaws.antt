-- ===== src/Activity/RequestLaws.antt =====
-- The headers that `httpClient.Do` of internal/activityhelpers/http.go sends.
use text.Mathlib.Text.{◌==◌ as str_eq}
use text.Mathlib.TextEquality.{eq_iff}
use temporal_mistakes.Base.{
  ℕ, ◌≡◌, ◌≢◌, refl, sym, ap, ◌∙◌, ◌↔◌, ◌⊎◌, inl, inr, some, String, List, [], ◌∷◌, Bool-cases,
  if◌then◌else◌,
}
use temporal_mistakes.Base.Text.{str_eq-other, str_eq-same}
use temporal_mistakes.Errors.{Err, UrlError}
use temporal_mistakes.Sdk.{ActivityInfo}
use temporal_mistakes.Activity.Idempotency.{
  get_idempotency_token, get_idempotency_token_iff, preimage, HasPlainIds,
}
use temporal_mistakes.Activity.Transport.{
  Header, lookup, remove, get, set, populate, header_name, Request, HttpClient, prepare, do_request,
}

lookup-remove :
    (h : Header) (key other : String) → key ≢ other → lookup (remove h other) key ≡ lookup h key
unfolding lookup remove
lookup-remove [] key other n = refl
lookup-remove ((name, value) ∷ h) key other n = elim (Bool-cases (str_eq name other)) [
  | inl e ↦
      rw (e, str_eq-other name key (λ k. n (sym k ∙ (eq_iff name other).0 e)))
        (lookup-remove h key other n)
  | inr e ↦ rw (e, lookup-remove h key other n)
]

module _ (canonical : String → String) where
  get-set :
      (h : Header) (key value : String) → get canonical (set canonical h key value) key ≡ value
  unfolding get set lookup
  get-set h key value = rw (str_eq-same (canonical key))

  pub get-set_other :
      (h : Header) (key other value : String)
      → canonical key ≢ canonical other
      → get canonical (set canonical h other value) key ≡ get canonical h key
  unfolding get set lookup
  get-set_other h key other value n =
      rw (str_eq-other _ _ (λ e. n (sym e))) (lookup-remove h (canonical key) (canonical other) n)

  get-populate :
      (token name : String) (h : Header)
      → get canonical (populate canonical token name h) name
        ≡ (if str_eq (get canonical h name) "" then token else get canonical h name)
  unfolding populate
  get-populate token name h = elim (Bool-cases (str_eq (get canonical h name) "")) [
    | inl e ↦ elim (Bool-cases (str_eq token "")) [
      | inl k ↦ rw (e, k) ((eq_iff _ _).0 e ∙ sym ((eq_iff token "").0 k))
      | inr k ↦ rw (e, k) (get-set h name token)
    ]
    | inr e ↦ rw e
  ]

  get-populate_other :
      (token name key : String) (h : Header)
      → canonical key ≢ canonical name
      → get canonical (populate canonical token name h) key ≡ get canonical h key
  unfolding populate
  get-populate_other token name key h n = elim (Bool-cases (str_eq (get canonical h name) "")) [
    | inl e ↦ elim (Bool-cases (str_eq token "")) [
      | inl k ↦ rw (e, k)
      | inr k ↦ rw (e, k) (get-set_other h key name token n)
    ]
    | inr e ↦ rw e
  ]

module _ (canonical : String → String) (text : Err → String) (url_text : UrlError → String)
    {Client Content Response : Type 0} (default_client : Client)
    (send : Client → Request Content → Err ⊎ Response) (c : HttpClient Client) where
  abbrev pub sent : (token : String) → Request Content → Request Content
  sent token req = (do_request canonical text url_text default_client send c token req).0

  -- The request carries, under the configured name, the caller's own value if that is not empty and
  -- the token otherwise.
  pub do_request_key :
      (token : String) (req : Request Content)
      → get canonical (sent token req).header (header_name c.idempotency_header) ≡ (
          if str_eq (get canonical req.header (header_name c.idempotency_header)) ""
          then token
          else get canonical req.header (header_name c.idempotency_header))
  unfolding do_request prepare
  do_request_key token req = get-populate canonical token _ req.header

  -- Every other header, and the rest of the request, stays as it is.
  do_request_rest :
      (token : String) (req : Request Content) (key : String)
      → canonical key ≢ canonical (header_name c.idempotency_header)
      → (get canonical (sent token req).header key ≡ get canonical req.header key)
        × ((sent token req).content ≡ req.content)
  unfolding do_request prepare
  do_request_rest token req key n = (get-populate_other canonical token _ key req.header n, refl)

  -- If the caller sets no key of its own, no identifier holds a null byte and the digests of the two
  -- encodings do not collide, requests of two activity attempts carry the same key exactly when both
  -- belong to the same execution of the same activity.
  pub do_request_key_iff :
      (digest : List ℕ → String) {F : Type 0} (a b : ActivityInfo F) (req : Request Content)
      → get canonical req.header (header_name c.idempotency_header) ≡ ""
      → HasPlainIds a
      → HasPlainIds b
      → (digest (preimage a) ≡ digest (preimage b) → preimage a ≡ preimage b)
      → (get canonical
            (sent (get_idempotency_token digest (some a)) req).header
            (header_name c.idempotency_header)
          ≡ get canonical
              (sent (get_idempotency_token digest (some b)) req).header
              (header_name c.idempotency_header))
        ↔ ((a.workflow_id ≡ b.workflow_id)
            × (a.run_id ≡ b.run_id)
            × (a.activity_id ≡ b.activity_id))
  do_request_key_iff digest a b req e h k n =
      let same = get_idempotency_token_iff digest a b h k n in
      let key : (token : String)
          → get canonical (sent token req).header (header_name c.idempotency_header) ≡ token =
        λ token. do_request_key token req ∙ ap (λ v. if str_eq v "" then token else v) e in
      (λ p. same.0 (sym (key _) ∙ p ∙ key _), λ ids. key _ ∙ same.1 ids ∙ sym (key _))
