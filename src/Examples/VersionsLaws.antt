-- ===== src/Examples/VersionsLaws.antt =====
-- Which of the workflows of Examples/Versions make the same commands when they are replayed.
use temporal_mistakes.Base.{
  Bool-cases, if◌then◌else◌, leb, ℕ, zero, suc, ◌≤◌, ◌<◌, ◌^◌, ◌≡◌, refl, ap, sym, ◌∙◌, ◌↔◌, Option,
  none, some, ◌⊎◌, inl, inr, List, [], ◌∷◌, String, ℤ, pos, add64, wrap64, ◌+ℤ◌, ltb_ℤ, arith,
}
use temporal_mistakes.Errors.{Err}
use temporal_mistakes.Examples.Short.{error_of}
use temporal_mistakes.Examples.Versions.{
  default_version, executing, replaying, GetVersion, versioned_workflow, Command, alert_activity,
  counting_workflow, local_counting_workflow,
}

-- The documented behaviour: the newest version when the call is executed, the one of the marker when
-- it is replayed, and DefaultVersion on a history from before the call.
pub record IsLawful (get_version : GetVersion) : Type 0 where
  pub newest : (id : String) (lo hi : ℤ) → get_version executing id lo hi ≡ hi
  pub marked : (id : String) (lo hi v : ℤ) → get_version (replaying (some v)) id lo hi ≡ v
  pub unmarked : (id : String) (lo hi : ℤ) → get_version (replaying none) id lo hi ≡ default_version

module _ {Input Result : Type 0} (get_version : GetVersion)
    (old_activity new_activity : Input → Err ⊎ Result) (laws : IsLawful get_version) where
  -- A new execution runs the new activity, and so does its replay, from the version that it recorded;
  -- the replay of an execution from before the change runs the old one, as it did.
  versioned_workflow_replays :
      (input : Input)
      → let version = get_version executing "change-id" default_version (pos 1) in
        (versioned_workflow get_version old_activity new_activity executing input
          ≡ error_of (new_activity input))
        × (versioned_workflow get_version old_activity new_activity (replaying (some version)) input
            ≡ error_of (new_activity input))
        × (versioned_workflow get_version old_activity new_activity (replaying none) input
            ≡ error_of (old_activity input))
  unfolding versioned_workflow
  versioned_workflow_replays input =
      let id : String = "change-id" in
      let newest = laws.newest id default_version (pos 1) in
      (
        rw newest refl,
        rw
            (
              laws.marked id default_version (pos 1)
                  (get_version executing id default_version (pos 1)),
              newest,
            )
            refl,
        rw (laws.unmarked id default_version (pos 1)) refl,
      )

module _ (alert : Option Err) where
  -- The counter of a new process after `n` executions of the workflow in it.
  abbrev pub counter : ℕ → ℤ
  counter zero = pos 0
  counter (suc n) = (counting_workflow alert (counter n)).0

  -- The commands of the execution after `n` others in its process.
  abbrev pub commands : ℕ → List Command
  commands n = (counting_workflow alert (counter n)).1.0

  abbrev pub local_commands : ℕ → List Command
  local_commands n = (local_counting_workflow alert (pos n)).1.0

  counted : (count : ℤ) → (counting_workflow alert count).0 ≡ add64 count (pos 1)
  unfolding counting_workflow
  counted count = elim (Bool-cases (ltb_ℤ (pos 100) (add64 count (pos 1)))) [
    | inl e ↦ rw e refl
    | inr e ↦ rw e refl
  ]

  one_more : (n : ℕ) → suc n < 2 ^ 63 → add64 (pos n) (pos 1) ≡ pos (suc n)
  unfolding add64 wrap64 ◌+ℤ◌
  one_more n h = ground arith

  counter_exact : (n : ℕ) → n < 2 ^ 63 → counter n ≡ pos n
  counter_exact zero h = refl
  counter_exact (suc n) h =
      counted (counter n) ∙ ap (λ c. add64 c (pos 1)) (counter_exact n (omega arith)) ∙ one_more n h

  commands_at :
      (count : ℤ)
      → (counting_workflow alert count).1.0
        ≡ (if ltb_ℤ (pos 100) (add64 count (pos 1)) then alert_activity ∷ [] else [])
  unfolding counting_workflow
  commands_at count = elim (Bool-cases (ltb_ℤ (pos 100) (add64 count (pos 1)))) [
    | inl e ↦ rw e refl
    | inr e ↦ rw e refl
  ]

  abbrev alerts : ℕ → List Command
  alerts n = if leb 100 n then alert_activity ∷ [] else []

  commands-alerts : (n : ℕ) → suc n < 2 ^ 63 → commands n ≡ alerts n
  commands-alerts n h =
      commands_at (counter n)
      ∙ ap (λ c. if ltb_ℤ (pos 100) c then alert_activity ∷ [] else [])
          (ap (λ c. add64 c (pos 1)) (counter_exact n (omega arith)) ∙ one_more n h)
      ∙ ground arith

  alerts_iff : (n m : ℕ) → (alerts n ≡ alerts m) ↔ ((100 ≤ n) ↔ (100 ≤ m))
  alerts_iff n m = ground arith

  -- Two executions with fewer than 2^63 - 1 others before them in their processes make the same
  -- commands exactly if both or neither have 100 others before them, so that a replay can differ from
  -- the execution; those of the second version always agree.
  pub counting_workflow_replays_iff :
      (n m : ℕ)
      → suc n < 2 ^ 63
      → suc m < 2 ^ 63
      → ((commands n ≡ commands m) ↔ ((100 ≤ n) ↔ (100 ≤ m)))
        × (local_commands n ≡ local_commands m)
  unfolding local_counting_workflow
  counting_workflow_replays_iff n m h k =
      let (f, g) = alerts_iff n m in
      (
        (
          λ e. f (sym (commands-alerts n h) ∙ e ∙ commands-alerts m k),
          λ t. commands-alerts n h ∙ g t ∙ sym (commands-alerts m k),
        ),
        refl,
      )
