-- ===== src/Workflow/History.antt =====
-- A history that meets the laws of the SDK's side effects, for tests.
use temporal_mistakes.Base.{
  ◌≡◌, refl, Option, none, some, Bool, true, false, Bool-cases, ◌⊎◌, inl, inr, String,
  if◌then◌else◌,
}
use temporal_mistakes.Errors.{Err}
use temporal_mistakes.Workflow.SideEffects.{
  Converter, IsFaithful, Run, executing, replaying, SideEffects, IsLawful,
}

module _ {Payload : Type 0} where
  abbrev is_executed : Run Payload → Bool
  is_executed (executing latest) = true
  is_executed (replaying p) = false

  abbrev take : {A : Type 0} → Converter Payload A → Run Payload → A → Payload
  take conv (executing latest) v = conv.encode v
  take conv (replaying p) v = p

  abbrev keep_equal :
      {A : Type 0} → Converter Payload A → Payload → Err ⊎ A → A → (A → A → Bool) → Payload
  keep_equal conv p (inl err) v equals = conv.encode v
  keep_equal conv p (inr w) v equals = if equals v w then p else conv.encode v

  abbrev take_latest :
      {A : Type 0} → Converter Payload A → Run Payload → String → A → (A → A → Bool) → Payload
  take_latest conv (executing none) id v equals = conv.encode v
  take_latest conv (executing (some p)) id v equals = keep_equal conv p (conv.decode p) v equals
  take_latest conv (replaying p) id v equals = p

  abbrev pub history : SideEffects Payload
  history = record { executes = is_executed; side_effect = take; mutable_side_effect = take_latest }

  keep_equal_cases :
      {A : Type 0} (conv : Converter Payload A) (p : Payload) (o : Err ⊎ A) (v : A)
      (equals : A → A → Bool)
      → conv.decode p ≡ o
      → (keep_equal conv p o v equals ≡ conv.encode v)
        ⊎ ((w : A) × (conv.decode p ≡ inr w)
            × (equals v w ≡ true)
            × (keep_equal conv p o v equals ≡ p))
  keep_equal_cases conv p (inl err) v equals h = inl refl
  keep_equal_cases conv p (inr w) v equals h = elim (Bool-cases (equals v w)) [
    | inl e ↦ inr (w, h, e, rw e refl)
    | inr e ↦ inl (rw e refl)
  ]

  history-recorded :
      {A : Type 0} (conv : Converter Payload A) (latest : Option Payload) (id : String) (v : A)
      (equals : A → A → Bool)
      → (take_latest conv (executing latest) id v equals ≡ conv.encode v)
        ⊎ ((p : Payload) × (w : A) × (latest ≡ some p)
            × (conv.decode p ≡ inr w)
            × (equals v w ≡ true)
            × (take_latest conv (executing latest) id v equals ≡ p))
  history-recorded conv none id v equals = inl refl
  history-recorded conv (some p) id v equals =
      elim (keep_equal_cases conv p (conv.decode p) v equals refl) [
        | inl e ↦ inl e
        | inr (w, h, e, k) ↦ inr (p, w, refl, h, e, k)
      ]

  pub history-IsLawful : IsLawful history
  history-IsLawful = record {
    calls = λ latest. refl;
    skips = λ p. refl;
    recorded = λ conv latest v. refl;
    replayed = λ conv p v. refl;
    mutable_recorded = history-recorded;
    mutable_replayed = λ conv p id v equals. refl;
  }

-- Values as their own payloads.
abbrev pub plain : {A : Type 0} → Converter A A
plain = record { encode = λ v. v; decode = λ p. inr p }

pub plain-IsFaithful : {A : Type 0} → IsFaithful (plain {A = A})
plain-IsFaithful v = refl
