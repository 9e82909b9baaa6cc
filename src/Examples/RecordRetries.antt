-- ===== src/Examples/RecordRetries.antt =====
-- Attempts of `ProcessRecordsActivity` of src/not_using_activity_heartbeat_details/activity.go, whose
-- attempts return or are lost with their worker.
use temporal_mistakes.Base.{
  ℕ, zero, suc, ◌+◌, ◌≡◌, refl, ap, subst, Option, none, some, Bool, true, false, ◌⊎◌, inr, String,
  List, [], ◌∷◌, ◌++◌, arith,
}
use temporal_mistakes.Errors.{Err}
use temporal_mistakes.Examples.Records.{
  Effect, processed, heartbeat, Attempt, process_records_activity,
}

-- The details that the service keeps: those of the last heartbeat.
abbrev pub last_details : Option ℕ → List Effect → Option ℕ
last_details d [] = d
last_details d (processed id ∷ es) = last_details d es
last_details d (heartbeat i ∷ es) = last_details (some i) es

abbrev pub delivered : Option ℕ → Option (Err ⊎ ℕ)
delivered none = none
delivered (some i) = some (inr i)

abbrev pub records_of : List Effect → List String
records_of [] = []
records_of (processed id ∷ es) = id ∷ records_of es
records_of (heartbeat i ∷ es) = records_of es

abbrev pub first {ℓ} : {A : Type ℓ} → ℕ → List A → List A
first zero xs = []
first (suc n) [] = []
first (suc n) (x ∷ xs) = x ∷ first n xs

-- An attempt returns, or its worker is lost after so many of its effects.
pub data Fate : Type 0 where
  returns : Fate
  lost_after : ℕ → Fate

abbrev pub effects_under : Fate → Attempt → List Effect
effects_under returns a = a.effects
effects_under (lost_after n) a = first n a.effects

abbrev pub succeeded : Option Err → Bool
succeeded none = true
succeeded (some err) = false

abbrev pub succeeds_under : Fate → Attempt → Bool
succeeds_under returns a = succeeded a.err
succeeds_under (lost_after n) a = false

abbrev pub losses : Fate → ℕ
losses returns = 0
losses (lost_after n) = 1

-- What all attempts process together, whether one succeeds, and how many are lost.
pub record Retried : Type 0 where
  pub records : List String
  pub success : Bool
  pub lost : ℕ

abbrev pub retried_after : Bool → List String → ℕ → Retried → Retried
retried_after true done lost later = record { records = done; success = true; lost = lost }
retried_after false done lost later = record {
  records = done ++ later.records;
  success = later.success;
  lost = lost + later.lost;
}

-- Attempts until one succeeds, each with its own outcomes of the processing, its own fate, and the
-- details of the last heartbeat before it.
abbrev pub retries : Option ℕ → List ((String → Option Err) × Fate) → List String → Retried
retries d [] record_ids = record { records = []; success = false; lost = 0 }
retries d ((process_record, fate) ∷ rest) record_ids =
    let a = process_records_activity process_record (delivered d) record_ids in
    retried_after (succeeds_under fate a) (records_of (effects_under fate a)) (losses fate)
      (retries (last_details d (effects_under fate a)) rest record_ids)

-- The records that were processed are the first of `ids`, in order, each once but for the repeats of
-- one before the next; `left` are those from which a retry goes on.
pub data Covers : (repeats : ℕ) (records ids left : List String) → Type 0 where
  nothing : (ids : List String) → Covers 0 [] ids ids
  once :
      (repeats : ℕ) (id : String) (records ids left : List String)
      → Covers repeats records ids left
      → Covers repeats (id ∷ records) (id ∷ ids) left
  again :
      (repeats : ℕ) (id : String) (records ids left : List String)
      → Covers repeats records (id ∷ ids) left
      → Covers (suc repeats) (id ∷ records) (id ∷ ids) left

pub suc_add : (n k : ℕ) → suc (n + k) ≡ suc n + k
suc_add n k = omega arith

zero_add : (n : ℕ) → n ≡ 0 + n
zero_add n = omega arith

recount :
    (m n : ℕ) (xs ids left : List String) → m ≡ n → Covers m xs ids left → Covers n xs ids left
recount m n xs ids left e c = subst (λ k. Covers k xs ids left) e c

pub Covers-++ :
    {m : ℕ} {xs ids left : List String} (n : ℕ) (ys rest : List String)
    → Covers m xs ids left
    → Covers n ys left rest
    → Covers (m + n) (xs ++ ys) ids rest
Covers-++ n ys rest (nothing ids) c = recount n (0 + n) ys ids rest (zero_add n) c
Covers-++ n ys rest (once repeats id records ids left b) c =
    once (repeats + n) id (records ++ ys) ids rest (Covers-++ n ys rest b c)
Covers-++ n ys rest (again repeats id records ids left b) c =
    recount _ _ (id ∷ (records ++ ys)) (id ∷ ids) rest (suc_add repeats n)
      (again (repeats + n) id (records ++ ys) ids rest (Covers-++ n ys rest b c))

-- Without a repeat they are processed once each.
pub Covers-once :
    {xs ids left : List String} (n : ℕ) → n ≡ 0 → Covers n xs ids left → xs ++ left ≡ ids
Covers-once n e (nothing ids) = refl
Covers-once n e (once repeats id records ids left b) = ap (λ l. id ∷ l) (Covers-once repeats e b)
Covers-once n e (again repeats id records ids left b) = absurd (omega (arith, e))
