-- ===== src/Examples/RecordsLaws.antt =====
-- What the attempts of `ProcessRecordsActivity` of
-- src/not_using_activity_heartbeat_details/activity.go do together.
use temporal_mistakes.Base.{
  ℕ, zero, suc, ◌+◌, ◌≤◌, ◌≡◌, refl, ap, sym, subst, ◌∙◌, Option, none, some, Bool, true, false,
  String, List, [], ◌∷◌, ◌++◌, arith,
}
use temporal_mistakes.Errors.{Err}
use temporal_mistakes.Examples.Records.{
  Effect, processed, heartbeat, Attempt, start_index, drop, after_record, process_from,
  process_records_activity,
}
use temporal_mistakes.Examples.RecordRetries.{
  last_details, delivered, records_of, first, Fate, returns, lost_after, succeeded, Retried,
  retried_after, retries, Covers, nothing, once, again, suc_add, Covers-++, Covers-once,
}

drop-nil : {A : Type 0} (n : ℕ) → drop {A = A} n [] ≡ []
drop-nil zero = refl
drop-nil (suc n) = refl

drop-add : {A : Type 0} (n k : ℕ) (xs : List A) → drop (n + k) xs ≡ drop k (drop n xs)
drop-add zero k xs = ap (λ m. drop m xs) (omega arith)
drop-add (suc n) k [] = drop-nil (suc n + k) ∙ sym (drop-nil k)
drop-add (suc n) k (x ∷ xs) = ap (λ m. drop m (x ∷ xs)) (sym (suc_add n k)) ∙ drop-add n k xs

-- How far the effects of an attempt come from the index `i`, after the details `d`.
pub record Progress (d : Option ℕ) (i : ℕ) (ids : List String) (repeats : ℕ) (es : List Effect)
    : Type 0 where
  pub done : ℕ
  pub covered : Covers repeats (records_of es) ids (drop done ids)
  pub points : start_index (delivered (last_details d es)) ≡ i + done

abbrev no_progress :
    (d : Option ℕ) (i : ℕ) (ids : List String)
    → start_index (delivered d) ≡ i
    → Progress d i ids 0 []
no_progress d i ids at_i = record { done = 0; covered = nothing ids; points = omega (arith, at_i) }

abbrev one_more :
    (d : Option ℕ) (i : ℕ) (id : String) (ids : List String) (repeats : ℕ) (es : List Effect)
    → Progress (some i) (suc i) ids repeats es
    → Progress d i (id ∷ ids) repeats (processed id ∷ heartbeat i ∷ es)
one_more d i id ids repeats es p = record {
  done = suc p.done;
  covered = once repeats id (records_of es) ids (drop p.done ids) p.covered;
  points = omega (arith, p.points);
}

-- An attempt that returns processes each record once, and all of them if it succeeds.
abbrev Returned : Option ℕ → ℕ → List String → Attempt → Type 0
Returned d i ids a =
    (p : Progress d i ids 0 a.effects) × ((succeeded a.err ≡ true) → drop p.done ids ≡ [])

-- One that is lost may have processed a record without the heartbeat for it.
abbrev Lost : Option ℕ → ℕ → List String → List Effect → Type 0
Lost d i ids es = (repeats : ℕ) × (repeats ≤ 1) × Progress d i ids repeats es

module _ (process_record : String → Option Err) where
  after_record-Returned :
      (o : Option Err) (d : Option ℕ) (i : ℕ) (id : String) (ids : List String) (rest : Attempt)
      → start_index (delivered d) ≡ i
      → Returned (some i) (suc i) ids rest
      → Returned d i (id ∷ ids) (after_record o i id rest)
  after_record-Returned (some err) d i id ids rest at_i r =
      (no_progress d i (id ∷ ids) at_i, λ e. absurd (ground arith))
  after_record-Returned none d i id ids rest at_i (p, finishes) =
      (one_more d i id ids 0 rest.effects p, finishes)

  process_from-Returned :
      (d : Option ℕ) (i : ℕ) (ids : List String)
      → start_index (delivered d) ≡ i
      → Returned d i ids (process_from process_record i ids)
  unfolding process_from
  process_from-Returned d i [] at_i = (no_progress d i [] at_i, λ _. refl)
  process_from-Returned d i (id ∷ ids) at_i =
      after_record-Returned (process_record id) d i id ids (process_from process_record (suc i) ids)
        at_i (process_from-Returned (some i) (suc i) ids refl)

  after_record-Lost :
      (n : ℕ) (o : Option Err) (d : Option ℕ) (i : ℕ) (id : String) (ids : List String)
      (rest : Attempt)
      → start_index (delivered d) ≡ i
      → ((m : ℕ) → Lost (some i) (suc i) ids (first m rest.effects))
      → Lost d i (id ∷ ids) (first n (after_record o i id rest).effects)
  after_record-Lost zero o d i id ids rest at_i l =
      (0, omega arith, no_progress d i (id ∷ ids) at_i)
  after_record-Lost (suc n) (some err) d i id ids rest at_i l =
      (0, omega arith, no_progress d i (id ∷ ids) at_i)
  after_record-Lost (suc zero) none d i id ids rest at_i l = (
    1,
    omega arith,
    record {
      done = 0;
      covered = again 0 id [] ids (id ∷ ids) (nothing (id ∷ ids));
      points = omega (arith, at_i);
    },
  )
  after_record-Lost (suc (suc n)) none d i id ids rest at_i l =
      let (repeats, few, p) = l n in
      (repeats, few, one_more d i id ids repeats (first n rest.effects) p)

  process_from-Lost :
      (n : ℕ) (d : Option ℕ) (i : ℕ) (ids : List String)
      → start_index (delivered d) ≡ i
      → Lost d i ids (first n (process_from process_record i ids).effects)
  unfolding process_from
  process_from-Lost zero d i [] at_i = (0, omega arith, no_progress d i [] at_i)
  process_from-Lost (suc n) d i [] at_i = (0, omega arith, no_progress d i [] at_i)
  process_from-Lost n d i (id ∷ ids) at_i =
      after_record-Lost n (process_record id) d i id ids (process_from process_record (suc i) ids)
        at_i (λ m. process_from-Lost m (some i) (suc i) ids refl)

-- What attempts do from the index `i` on: no more records are repeated than attempts lost, and none is
-- left by a success.
abbrev pub ResumesAt : ℕ → List String → Retried → Type 0
ResumesAt i record_ids r =
    (repeats : ℕ) × (left : List String) × Covers repeats r.records (drop i record_ids) left
    × (repeats ≤ r.lost)
    × ((r.success ≡ true) → left ≡ [])

-- The attempts after one that does not succeed take up its work.
resume :
    (i : ℕ) (record_ids : List String) (d : Option ℕ) (es : List Effect) (n lost : ℕ)
    (later : Retried)
    → n ≤ lost
    → Progress d i (drop i record_ids) n es
    → ResumesAt (start_index (delivered (last_details d es))) record_ids later
    → ResumesAt i record_ids (retried_after false (records_of es) lost later)
resume i record_ids d es n lost later few p (repeats, left, covers, fewer, finishes) =
    let here : drop (start_index (delivered (last_details d es))) record_ids
        ≡ drop p.done (drop i record_ids) =
      ap (λ m. drop m record_ids) p.points ∙ drop-add i p.done record_ids in
    (
      n + repeats,
      left,
      Covers-++ repeats later.records left p.covered
          (subst (λ ids. Covers repeats later.records ids left) here covers),
      omega (arith, few, fewer),
      finishes,
    )

after_return :
    (b : Bool) (i : ℕ) (record_ids : List String) (d : Option ℕ) (a : Attempt) (later : Retried)
    → succeeded a.err ≡ b
    → Returned d i (drop i record_ids) a
    → ResumesAt (start_index (delivered (last_details d a.effects))) record_ids later
    → ResumesAt i record_ids (retried_after b (records_of a.effects) 0 later)
after_return true i record_ids d a later e (p, finishes) r =
    (0, drop p.done (drop i record_ids), p.covered, omega arith, λ _. finishes e)
after_return false i record_ids d a later e (p, finishes) r =
    resume i record_ids d a.effects 0 0 later (omega arith) p r

retries-ResumesAt :
    (d : Option ℕ) (attempts : List ((String → Option Err) × Fate)) (record_ids : List String)
    → ResumesAt (start_index (delivered d)) record_ids (retries d attempts record_ids)
unfolding process_records_activity
retries-ResumesAt d [] record_ids = (
  0,
  drop (start_index (delivered d)) record_ids,
  nothing (drop (start_index (delivered d)) record_ids),
  omega arith,
  λ e. absurd (ground arith),
)
retries-ResumesAt d ((process_record, returns) ∷ rest) record_ids =
    let i = start_index (delivered d) in
    let a = process_from process_record i (drop i record_ids) in
    after_return (succeeded a.err) i record_ids d a
      (retries (last_details d a.effects) rest record_ids) refl
      (process_from-Returned process_record d i (drop i record_ids) refl)
      (retries-ResumesAt (last_details d a.effects) rest record_ids)
retries-ResumesAt d ((process_record, lost_after n) ∷ rest) record_ids =
    let i = start_index (delivered d) in
    let es = first n (process_from process_record i (drop i record_ids)).effects in
    let (repeats, few, p) = process_from-Lost process_record n d i (drop i record_ids) refl in
    resume i record_ids d es repeats 1 (retries (last_details d es) rest record_ids) few p
      (retries-ResumesAt (last_details d es) rest record_ids)

-- However many attempts return an error or are lost with their worker at any point, if each gets the
-- details of the last heartbeat: the records that they process together are the first of the list, in
-- order, and all of them if an attempt succeeds. Each is processed once, but for repeats of a record
-- before the next one, of which there are no more than attempts lost.
pub retries_process_in_order :
    (attempts : List ((String → Option Err) × Fate)) (record_ids : List String)
    → let r = retries none attempts record_ids in
      (repeats : ℕ) × (left : List String) × Covers repeats r.records record_ids left
      × (repeats ≤ r.lost)
      × ((r.success ≡ true) → left ≡ [])
      × ((r.lost ≡ 0) → r.records ++ left ≡ record_ids)
retries_process_in_order attempts record_ids =
    let r = retries none attempts record_ids in
    let (repeats, left, covers, few, finishes) = retries-ResumesAt none attempts record_ids in
    (
      repeats,
      left,
      covers,
      few,
      finishes,
      λ none_lost. Covers-once repeats (omega (arith, few, none_lost)) covers,
    )
