-- ===== src/Workflow/Values.antt =====
-- internal/workflowhelpers/ulid.go and internal/workflowhelpers/env.go: values that a workflow takes
-- from outside by side effects.
use text.Mathlib.Text.{◌==◌ as str_eq}
use temporal_mistakes.Base.{
  Option, none, some, Bool, true, false, ◌&&◌, ◌⊎◌, inl, inr, String, [], ◌∷◌, if◌then◌else◌, not,
}
use temporal_mistakes.Base.Text.{concat}
use temporal_mistakes.Errors.{Err}
use temporal_mistakes.Workflow.SideEffects.{
  Converter, Run, SideEffects, side_effect, mutable_side_effect,
}

module _ {Payload : Type 0} (sdk : SideEffects Payload) where
  -- The package of ULIDs: their texts, and reading them.
  module _ {Ulid : Type 0} (texts : Converter Payload String) (show : Ulid → String)
      (parse : String → Err ⊎ Ulid) where
    abbrev pub parsed : Err ⊎ String → Err ⊎ Ulid
    parsed (inl err) = inl err
    parsed (inr raw) = parse raw

    -- `made` is what ulid.Make gives at the call.
    unfoldable pub new_ulid : Run Payload → (made : Ulid) → Err ⊎ Ulid
    new_ulid run made = parsed (side_effect sdk texts run (show made))

pub record LookupEnvResult : Type 0 where
  pub value : String
  pub found : Bool

-- os.LookupEnv, `none` for a variable that is not set.
abbrev pub looked_up : Option String → LookupEnvResult
looked_up none = record { value = ""; found = false }
looked_up (some value) = record { value = value; found = true }

abbrev pub same_bool : Bool → Bool → Bool
same_bool a b = if a then b else not b

-- `==` of the struct.
abbrev pub same_result : LookupEnvResult → LookupEnvResult → Bool
same_result a b = str_eq a.value b.value && same_bool a.found b.found

module _ {Payload : Type 0} (sdk : SideEffects Payload)
    (results : Converter Payload LookupEnvResult) where
  abbrev pub side_effect_id : String → String
  side_effect_id key = concat ("lookup_env:" ∷ key ∷ [])

  -- The error that is logged, and the results.
  abbrev pub lookup_result : Err ⊎ LookupEnvResult → Option Err × (String × Bool)
  lookup_result (inl err) = (some err, ("", false))
  lookup_result (inr result) = (none, (result.value, result.found))

  unfoldable pub lookup_env :
      Run Payload → (env : String → Option String) → (key : String) → Option Err × (String × Bool)
  lookup_env run env key =
      lookup_result
        (mutable_side_effect sdk results same_result run (side_effect_id key) (looked_up (env key)))
