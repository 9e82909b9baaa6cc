-- ===== src/Workflow/SideEffects.antt =====
-- internal/workflowhelpers/side_effect.go, over what the SDK does with the recorded history.
use temporal_mistakes.Base.{◌≡◌, ◌⊎◌, Option, some, Bool, true, false, inr, String}
use temporal_mistakes.Errors.{Err}

-- The data converter at one type.
pub record Converter (Payload A : Type 0) : Type 0 where
  pub encode : A → Payload
  pub decode : Payload → Err ⊎ A

abbrev pub IsFaithful : {Payload A : Type 0} → Converter Payload A → Type 0
IsFaithful {A = A} conv = (v : A) → conv.decode (conv.encode v) ≡ inr v

-- Where a call stands: it is executed, after the payload that was last recorded under its ID if any,
-- or replayed, with the payload that its first execution left.
pub data Run (Payload : Type 0) : Type 0 where
  executing : Option Payload → Run Payload
  replaying : Payload → Run Payload

-- workflow.SideEffect and workflow.MutableSideEffect: the payload behind the encoded value, for the
-- value `produced` that the function would give. `executes` says whether the function is called.
pub record SideEffects (Payload : Type 0) : Type 1 where
  pub executes : Run Payload → Bool
  pub side_effect : {A : Type 0} → Converter Payload A → Run Payload → (produced : A) → Payload
  pub mutable_side_effect :
      {A : Type 0}
      → Converter Payload A
      → Run Payload
      → (id : String) (produced : A) (equals : A → A → Bool) → Payload

-- The documented behaviour.
pub record IsLawful {Payload : Type 0} (sdk : SideEffects Payload) : Type 1 where
  pub calls : (latest : Option Payload) → sdk.executes (executing latest) ≡ true
  pub skips : (p : Payload) → sdk.executes (replaying p) ≡ false
  pub recorded :
      {A : Type 0} (conv : Converter Payload A) (latest : Option Payload) (v : A)
      → sdk.side_effect conv (executing latest) v ≡ conv.encode v
  pub replayed :
      {A : Type 0} (conv : Converter Payload A) (p : Payload) (v : A)
      → sdk.side_effect conv (replaying p) v ≡ p
  -- The existing value is kept if it equals the new one, and else the new one is recorded.
  pub mutable_recorded :
      {A : Type 0} (conv : Converter Payload A) (latest : Option Payload) (id : String) (v : A)
      (equals : A → A → Bool)
      → (sdk.mutable_side_effect conv (executing latest) id v equals ≡ conv.encode v)
        ⊎ ((p : Payload) × (w : A) × (latest ≡ some p)
            × (conv.decode p ≡ inr w)
            × (equals v w ≡ true)
            × (sdk.mutable_side_effect conv (executing latest) id v equals ≡ p))
  pub mutable_replayed :
      {A : Type 0} (conv : Converter Payload A) (p : Payload) (id : String) (v : A)
      (equals : A → A → Bool)
      → sdk.mutable_side_effect conv (replaying p) id v equals ≡ p

module _ {Payload A : Type 0} (sdk : SideEffects Payload) (conv : Converter Payload A) where
  -- `SideEffect`; the callers do not read the value that stands beside an error.
  unfoldable pub side_effect : Run Payload → A → Err ⊎ A
  side_effect run produced = conv.decode (sdk.side_effect conv run produced)

  -- `MutableSideEffect`, with `==` of the type.
  unfoldable pub mutable_side_effect : (equals : A → A → Bool) → Run Payload → String → A → Err ⊎ A
  mutable_side_effect equals run id produced =
      conv.decode (sdk.mutable_side_effect conv run id produced equals)
