-- ===== src/Workflow/Replay.antt =====
-- What a workflow gets from internal/workflowhelpers when it runs and when it is replayed.
use text.Mathlib.Text.{◌==◌ as str_eq}
use text.Mathlib.TextEquality.{eq_iff}
use temporal_mistakes.Base.{
  ◌≡◌, refl, ap, sym, subst₂, ◌∙◌, Option, none, Bool, true, ◌&&◌, ◌⊎◌, inl, inr, String, arith,
}
use temporal_mistakes.Errors.{Err}
use temporal_mistakes.Workflow.SideEffects.{
  Converter, IsFaithful, executing, replaying, SideEffects, IsLawful, side_effect,
  mutable_side_effect,
}
use temporal_mistakes.Workflow.Values.{
  parsed, new_ulid, LookupEnvResult, looked_up, same_bool, same_result, side_effect_id,
  lookup_result, lookup_env,
}

module _ {Payload A : Type 0} (sdk : SideEffects Payload) (conv : Converter Payload A)
    (laws : IsLawful sdk) (faithful : IsFaithful conv) where
  pub side_effect-executing :
      (latest : Option Payload) (v : A) → side_effect sdk conv (executing latest) v ≡ inr v
  unfolding side_effect
  side_effect-executing latest v = ap conv.decode (laws.recorded conv latest v) ∙ faithful v

  pub side_effect-replaying : (v w : A) → side_effect sdk conv (replaying (conv.encode v)) w ≡ inr v
  unfolding side_effect
  side_effect-replaying v w = ap conv.decode (laws.replayed conv (conv.encode v) w) ∙ faithful v

both : (p q : Bool) → (p && q) ≡ true → (p ≡ true) × (q ≡ true)
both p q h = (ground arith, ground arith)

same_bool_sound : (p q : Bool) → same_bool p q ≡ true → p ≡ q
same_bool_sound p q h = ground arith

-- `==` of the struct decides equality.
same_result-eq : (a b : LookupEnvResult) → same_result a b ≡ true → a ≡ b
same_result-eq a b e =
    let (value, found) = both (str_eq a.value b.value) (same_bool a.found b.found) e in
    subst₂ (λ s t. a ≡ record { value = s; found = t }) ((eq_iff a.value b.value).0 value)
      (same_bool_sound a.found b.found found) refl

module _ {Payload : Type 0} (sdk : SideEffects Payload) (laws : IsLawful sdk) where
  -- A new ULID is the one made when the call is executed, whatever was recorded before, and the same
  -- on every replay of that call, whatever would be made then; if the data converter is faithful on
  -- texts and a ULID is read back from its text.
  new_ulid_recorded :
      {Ulid : Type 0} (texts : Converter Payload String) (show : Ulid → String)
      (parse : String → Err ⊎ Ulid)
      → IsFaithful texts
      → ((u : Ulid) → parse (show u) ≡ inr u)
      → (latest : Option Payload) (made later : Ulid)
      → (new_ulid sdk texts show parse (executing latest) made ≡ inr made)
        × (new_ulid sdk texts show parse
              (replaying (sdk.side_effect texts (executing latest) (show made)))
              later
            ≡ inr made)
  unfolding new_ulid
  new_ulid_recorded texts show parse faithful read latest made later = (
    ap (parsed sdk texts show parse)
          (side_effect-executing sdk texts laws faithful latest (show made))
        ∙ read made,
    ap (parsed sdk texts show parse) (
          ap (λ p. side_effect sdk texts (replaying p) (show later))
            (laws.recorded texts latest (show made))
          ∙ side_effect-replaying sdk texts laws faithful (show made) (show later))
        ∙ read made,
  )

  module _ (results : Converter Payload LookupEnvResult) (faithful : IsFaithful results) where
    -- The payload of a lookup decodes to the lookup, whether it is new or an equal older one.
    recorded_lookup :
        (latest : Option Payload) (id : String) (v : LookupEnvResult)
        → results.decode (sdk.mutable_side_effect results (executing latest) id v same_result)
          ≡ inr v
    recorded_lookup latest id v = elim (laws.mutable_recorded results latest id v same_result) [
      | inl new ↦ ap results.decode new ∙ faithful v
      | inr (p, w, stands, reads, equal, kept) ↦
          ap results.decode kept ∙ reads ∙ ap inr (sym (same_result-eq v w equal))
    ]

    -- A lookup gives the variable as it is in the environment when the call is executed, whatever was
    -- recorded before, and the same on every replay, whatever the environment is then; if the data
    -- converter is faithful on lookups.
    pub lookup_env_recorded :
        (latest : Option Payload) (env later : String → Option String) (key : String)
        → let p =
            sdk.mutable_side_effect results
              (executing latest)
              (side_effect_id sdk results key)
              (looked_up (env key))
              same_result in
          (lookup_env sdk results (executing latest) env key
            ≡ (none, ((looked_up (env key)).value, (looked_up (env key)).found)))
          × (lookup_env sdk results (replaying p) later key
              ≡ (none, ((looked_up (env key)).value, (looked_up (env key)).found)))
    unfolding lookup_env mutable_side_effect
    lookup_env_recorded latest env later key =
        let id = side_effect_id sdk results key in
        let v = looked_up (env key) in
        (
          ap (lookup_result sdk results) (recorded_lookup latest id v),
          ap (λ p. lookup_result sdk results (results.decode p))
                (laws.mutable_replayed results _ id (looked_up (later key)) same_result)
              ∙ ap (lookup_result sdk results) (recorded_lookup latest id v),
        )
