-- ===== src/Examples/UuidsLaws.antt =====
-- The UUIDs of src/not_using_return_value_in_side_effect/workflow.go on replays.
use temporal_mistakes.Base.{◌≡◌, ap, ◌∙◌, Option, none, String, if◌then◌else◌}
use temporal_mistakes.Workflow.SideEffects.{
  Converter, IsFaithful, executing, replaying, SideEffects, IsLawful, side_effect,
}
use temporal_mistakes.Workflow.Replay.{side_effect-executing, side_effect-replaying}
use temporal_mistakes.Examples.Uuids.{my_workflow_v1, got, my_workflow_v2}

module _ {Payload : Type 0} (sdk : SideEffects Payload) (texts : Converter Payload String) where
  -- Both versions have the UUID that is made when they are executed; when this execution is replayed,
  -- the second has it again, and the first has an empty text.
  my_workflow_replays :
      (latest : Option Payload) (made later : String)
      → IsLawful sdk
      → IsFaithful texts
      → let p = sdk.side_effect texts (executing latest) made in
        (my_workflow_v1 sdk texts (executing latest) made ≡ (made, none))
        × (my_workflow_v2 sdk texts (executing latest) made ≡ (made, none))
        × (my_workflow_v1 sdk texts (replaying p) later ≡ ("", none))
        × (my_workflow_v2 sdk texts (replaying p) later ≡ (made, none))
  unfolding my_workflow_v1 my_workflow_v2 side_effect
  my_workflow_replays latest made later laws faithful = (
    ap (λ b. (if b then made else "", none)) (laws.calls latest),
    ap (got sdk texts) (side_effect-executing sdk texts laws faithful latest made),
    ap (λ b. (if b then later else "", none)) (laws.skips _),
    ap (λ p. got sdk texts (texts.decode (sdk.side_effect texts (replaying p) later)))
          (laws.recorded texts latest made)
        ∙ ap (got sdk texts) (side_effect-replaying sdk texts laws faithful made later),
  )
