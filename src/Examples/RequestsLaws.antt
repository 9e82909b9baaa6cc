-- ===== src/Examples/RequestsLaws.antt =====
-- What a crash leaves behind, for the handlers of src/doing_work_outside_of_the_workflow/workflow.go.
use temporal_mistakes.Base.{
  ◌≡◌, refl, sym, ◌∙◌, Option, none, some, ◌⊎◌, inl, inr, List, [], ◌∷◌, ◌++◌, Memᴰ, arith,
}
use temporal_mistakes.Errors.{Err}
use temporal_mistakes.Examples.Requests.{
  Record, Start, start_v2, Effect, inserted, started, after_start, handle_request,
  handle_request_v2, then_workflow,
}

module _ {Data : Type 0} where
  -- A record stands in the database, and there is no workflow to process it.
  pub record IsOrphaned (effects : List (Effect Data)) : Type 0 where
    pub left : Record
    pub stands : Memᴰ (inserted left) effects
    pub unprocessed : (start : Start Data) → ¬ Memᴰ (started start) effects

  -- The effects of a process that crashes on the way.
  pub record CrashesAt (effects before : List (Effect Data)) : Type 0 where
    pub lost : List (Effect Data)
    pub split : effects ≡ before ++ lost

  module _ (insert : Data → Err ⊎ Record) (execute_workflow : Start Data → Option Err)
      (d : Data) where
    -- The effects of the second handler and of its workflow.
    abbrev pub served : Err ⊎ Record → List (Effect Data)
    served activity =
        let (effects, err) = handle_request_v2 insert execute_workflow d in
        then_workflow err effects activity

    -- What is empty, or starts a workflow before anything else, leaves no orphan.
    StartsFirst : List (Effect Data) → Type 0
    StartsFirst effects =
        (effects ≡ [])
        ⊎ ((start : Start Data) × (rest : List (Effect Data)) × (effects ≡ started start ∷ rest))

    no_orphan :
        (effects before lost : List (Effect Data))
        → StartsFirst effects
        → effects ≡ before ++ lost
        → ¬ IsOrphaned before
    unfolding StartsFirst
    no_orphan effects [] lost first split o = elim o.stands [ ]
    no_orphan effects (x ∷ before) lost (inl e) split o = absurd (ground (arith, sym e ∙ split))
    no_orphan effects (x ∷ before) lost (inr (start, rest, e)) split o =
        o.unprocessed start (Memᴰ.head (first_equal (sym e ∙ split)))
      where
        first_equal : {x y : Effect Data} {xs ys : List (Effect Data)} → x ∷ xs ≡ y ∷ ys → x ≡ y
        first_equal h = cc

    served-StartsFirst :
        (activity : Err ⊎ Record) (o : Option Err)
        → StartsFirst
            (let (effects, err) = after_start (start_v2 d) o in then_workflow err effects activity)
    unfolding StartsFirst
    served-StartsFirst activity (some err) = inl refl
    served-StartsFirst activity none = inr (start_v2 d, _, refl)

    not_started : (r : Record) (start : Start Data) → ¬ Memᴰ (started start) (inserted r ∷ [])
    not_started r start (Memᴰ.head e) = absurd (ground arith)
    not_started r start (Memᴰ.tail m) = elim m [ ]

    -- If the first handler crashes after it has inserted the record, the record is left without a
    -- workflow. However far the second handler and its workflow come, no record is.
    pub handlers-IsOrphaned :
        (r : Record) (activity : Err ⊎ Record) (reached : List (Effect Data))
        → insert d ≡ inr r
        → CrashesAt (served activity) reached
        → ((before : List (Effect Data)) × CrashesAt
              (handle_request insert execute_workflow d).0
              before
            × IsOrphaned before)
          × (¬ IsOrphaned reached)
    unfolding handle_request handle_request_v2
    handlers-IsOrphaned r activity reached e c = (
      (
        inserted r ∷ [],
        (rw e (record { lost = _; split = refl })),
        record { left = r; stands = Memᴰ.head refl; unprocessed = not_started r },
      ),
      no_orphan (served activity) reached c.lost
          (served-StartsFirst activity (execute_workflow (start_v2 d))) c.split,
    )
