-- ===== src/Workflow/Activities.antt =====
-- internal/workflowhelpers/awaitactivity.go.
use temporal_mistakes.Base.{◌≡◌, refl, ◌⊎◌, inl, inr}
use temporal_mistakes.Errors.{Err}

-- The error or the address of the decoded response.
abbrev pub returned : {Resp : Type 0} → Err ⊎ Resp → Err ⊎ Resp
returned (inl err) = inl err
returned (inr resp) = inr resp

-- `execute` is workflow.ExecuteActivity with the Get of its future, under the options of the context.
unfoldable pub await_activity :
    {Options Req Resp : Type 0}
    → (execute : Options → Req → Err ⊎ Resp) → Options
    → Req
    → Err ⊎ Resp
await_activity execute options req = returned (execute options req)

returned-eq : {Resp : Type 0} → (r : Err ⊎ Resp) → returned r ≡ r
returned-eq (inl err) = refl
returned-eq (inr resp) = refl

pub await_activity-eq :
    {Options Req Resp : Type 0}
    → (execute : Options → Req → Err ⊎ Resp) (options : Options) (req : Req)
    → await_activity execute options req ≡ execute options req
unfolding await_activity
await_activity-eq execute options req = returned-eq (execute options req)
