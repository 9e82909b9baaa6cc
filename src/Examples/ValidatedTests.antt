-- ===== src/Examples/ValidatedTests.antt =====
-- The theorem about the replayed workflow at a concrete run.
use temporal_mistakes.Base.{◌≡◌, none, some, ◌⊎◌, inr, String}
use temporal_mistakes.Errors.{Err}
use temporal_mistakes.Runtime.{whole, whole-IsLawful}
use temporal_mistakes.Sdk.{ActivityOptions, WorkflowExecution}
use temporal_mistakes.Helpers.{zero_policy_options}
use temporal_mistakes.Workflow.SideEffects.{executing, replaying}
use temporal_mistakes.Workflow.History.{history, history-IsLawful, plain, plain-IsFaithful}
use temporal_mistakes.Examples.Validated.{MyActivityRequest, my_workflow}
use temporal_mistakes.Examples.ValidatedLaws.{with_warning, answered, under, my_workflow_replayed}

abbrev execution : WorkflowExecution
execution = record { id = "w"; run_id = "r" }

abbrev greet : ActivityOptions whole.Float → MyActivityRequest → Err ⊎ String
greet opts req = inr req.request_id

abbrev scheduled : ActivityOptions whole.Float → MyActivityRequest → Err ⊎ String
scheduled =
    under whole whole-IsLawful (λ x. x) execution history plain greet history-IsLawful
      plain-IsFaithful with_warning

abbrev refused : ActivityOptions whole.Float → MyActivityRequest → Err ⊎ String
refused =
    under whole whole-IsLawful (λ x. x) execution history plain greet history-IsLawful
      plain-IsFaithful zero_policy_options

my_workflow_replayed_example :
    (my_workflow history plain scheduled (executing none) "u"
      ≡ answered history plain greet history-IsLawful plain-IsFaithful none "u" "v")
    × (my_workflow history plain scheduled (replaying "u") "v"
        ≡ answered history plain greet history-IsLawful plain-IsFaithful none "u" "v")
    × ((e : Err) × (my_workflow history plain refused (executing none) "u" ≡ some e)
        × (my_workflow history plain refused (replaying "u") "v" ≡ some e))
my_workflow_replayed_example =
    my_workflow_replayed whole whole-IsLawful (λ x. x) execution history plain greet
      history-IsLawful plain-IsFaithful none "u" "v"
