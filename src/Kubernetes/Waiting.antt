-- ===== src/Kubernetes/Waiting.antt =====
-- What ends `AwaitKubernetesJob` of examples/go/kubernetes/activity.go, and with which result.
use temporal_mistakes.Base.{
  ◌≡◌, refl, sym, ap, subst, ◌⊎◌, ◌↔◌, inl, inr, Option, none, some, String, List, [], ◌∷◌, All,
  or_else, first, Until, first-Until, first-none-All, arith,
}
use temporal_mistakes.Errors.{Err}
use temporal_mistakes.Kubernetes.Jobs.{Job, Jobs}
use temporal_mistakes.Kubernetes.Activities.{
  AwaitKubernetesJobRequest, AwaitKubernetesJobResponse, Wake, context_done, tick, Poll, job_error,
  terminal_status, after_status, poll_once, await_kubernetes_job,
}
use temporal_mistakes.Kubernetes.Conditions.{Finished, Unfinished, terminal_status_iff}

module _ (api : Jobs) (text : Err → String) (req : AwaitKubernetesJobRequest) where
  -- The round ends the wait with the result `r`.
  pub data Decides (p : Poll) (r : Err ⊎ AwaitKubernetesJobResponse) : Type 0 where
    get_failed :
        (err : Err)
        → p.got ≡ inl err
        → r ≡ inl (job_error api text "get job" "GetJob" req.namespace req.name err)
        → Decides p r
    finished :
        (j : Job) (status : String)
        → p.got ≡ inr j
        → Finished j.conditions status
        → r ≡ inr (record { status = status })
        → Decides p r
    canceled :
        (j : Job) (err : Err)
        → p.got ≡ inr j
        → Unfinished j.conditions
        → p.wake ≡ context_done err
        → r ≡ inl err
        → Decides p r

  abbrev pub Continues : Poll → Type 0
  Continues p = (j : Job) × (p.got ≡ inr j) × Unfinished j.conditions × (p.wake ≡ tick)

  -- The wait ends in the first round that decides, with its result.
  abbrev pub Ended : List Poll → Err ⊎ AwaitKubernetesJobResponse → Type 0
  Ended = Until Continues Decides

  abbrev poll : Poll → Option (Err ⊎ AwaitKubernetesJobResponse)
  poll p = poll_once api text req p.got p.wake

  -- A round over a job that is read, by whether it has a status.
  read-Decides :
      (j : Job) (wake : Wake) (o : Option String) (r : Err ⊎ AwaitKubernetesJobResponse)
      → terminal_status j.conditions ≡ o
      → after_status api text o wake ≡ some r
      → Decides (record { got = inr j; wake = wake }) r
  read-Decides j wake (some s) r h e =
      finished j s refl (((terminal_status_iff j.conditions).0 s).0 h) (ground arith)
  read-Decides j (context_done err) none r h e =
      canceled j err refl ((terminal_status_iff j.conditions).1.0 h) refl (ground arith)
  read-Decides j tick none r h e = absurd (ground arith)

  poll-Decides :
      (got : Err ⊎ Job) (wake : Wake) (r : Err ⊎ AwaitKubernetesJobResponse)
      → poll_once api text req got wake ≡ some r
      → Decides (record { got = got; wake = wake }) r
  unfolding poll_once
  poll-Decides (inl err) wake r e = get_failed err refl (ground arith)
  poll-Decides (inr j) wake r e = read-Decides j wake (terminal_status j.conditions) r refl e

  Decides-poll : (p : Poll) (r : Err ⊎ AwaitKubernetesJobResponse) → Decides p r → poll p ≡ some r
  unfolding poll_once
  Decides-poll p r (get_failed err g e) = rw (g, e) refl
  Decides-poll p r (finished j s g f e) =
      rw (g, e)
        (ap (λ o. after_status api text o p.wake) (((terminal_status_iff j.conditions).0 s).1 f))
  Decides-poll p r (canceled j err g u w e) =
      rw (g, w, e)
        (ap (λ o. after_status api text o (context_done err))
          ((terminal_status_iff j.conditions).1.1 u))

  read_continues :
      (j : Job) (wake : Wake) (o : Option String)
      → terminal_status j.conditions ≡ o
      → after_status api text o wake ≡ none
      → Unfinished j.conditions × (wake ≡ tick)
  read_continues j wake (some s) h e = absurd (ground arith)
  read_continues j (context_done err) none h e = absurd (ground arith)
  read_continues j tick none h e = ((terminal_status_iff j.conditions).1.0 h, refl)

  poll-Continues :
      (got : Err ⊎ Job) (wake : Wake)
      → poll_once api text req got wake ≡ none
      → Continues (record { got = got; wake = wake })
  unfolding poll_once
  poll-Continues (inl err) wake e = absurd (ground arith)
  poll-Continues (inr j) wake e =
      let (unfinished, ticked) = read_continues j wake (terminal_status j.conditions) refl e in
      (j, refl, unfinished, ticked)

  Continues-poll : (p : Poll) → Continues p → poll p ≡ none
  unfolding poll_once
  Continues-poll p (j, g, u, w) =
      rw (g, w) (ap (λ o. after_status api text o tick) ((terminal_status_iff j.conditions).1.1 u))

  await-first : (ps : List Poll) → await_kubernetes_job api text req ps ≡ first poll ps
  unfolding await_kubernetes_job
  await-first [] = refl
  await-first (p ∷ ps) = ap (or_else (poll p)) (await-first ps)

  poll-none : (p : Poll) → (poll p ≡ none) ↔ Continues p
  poll-none p = (poll-Continues p.got p.wake, Continues-poll p)

  poll-some : (p : Poll) (r : Err ⊎ AwaitKubernetesJobResponse) → (poll p ≡ some r) ↔ Decides p r
  poll-some p r = (poll-Decides p.got p.wake r, Decides-poll p r)

  -- The wait has a result exactly when some round decides, before which every round found the job
  -- unfinished and ran into the next tick; it is the result of the first round that decides: the
  -- wrapped error of a read that fails, the status of the first condition that ends the job, or the
  -- error of the context that ends while the job is unfinished.
  pub await_kubernetes_job_iff :
      (ps : List Poll)
      → ((r : Err ⊎ AwaitKubernetesJobResponse)
          → (await_kubernetes_job api text req ps ≡ some r) ↔ Ended ps r)
        × ((await_kubernetes_job api text req ps ≡ none) ↔ All Continues ps)
  await_kubernetes_job_iff ps =
      subst
        (λ o.
          ((r : Err ⊎ AwaitKubernetesJobResponse) → (o ≡ some r) ↔ Ended ps r)
          × ((o ≡ none) ↔ All Continues ps))
        (sym (await-first ps))
        (first-Until poll poll-none poll-some ps, first-none-All poll poll-none poll-some ps)
