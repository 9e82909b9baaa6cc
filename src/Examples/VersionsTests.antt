-- ===== src/Examples/VersionsTests.antt =====
-- The theorems about replayed commands at concrete runs.
use temporal_mistakes.Base.{◌≤◌, ◌≡◌, ◌↔◌, none, arith}
use temporal_mistakes.Examples.VersionsLaws.{
  commands, local_commands, counting_workflow_replays_iff,
}

counting_workflow_replays_iff_example :
    ((commands none 150 ≡ commands none 3) ↔ ((100 ≤ 150) ↔ (100 ≤ 3)))
    × (local_commands none 150 ≡ local_commands none 3)
counting_workflow_replays_iff_example =
    counting_workflow_replays_iff none 150 3 (omega arith) (omega arith)
