-- ===== src/Activity/HeartbeatTiming.antt =====
-- How late the heartbeats of internal/activityhelpers/heartbeat.go can be, and when they end.
use temporal_mistakes.Base.{
  ℕ, suc, ◌+◌, ◌*◌, ◌/◌, ◌≤◌, ◌<◌, ◌≡◌, ◌≢◌, refl, ap, sym, ◌⊎◌, inl, inr, Bool, true, false,
  Bool-cases, List, [], ◌∷◌, ltb, pos, pos_part, ◌∙◌, arith,
}
use temporal_mistakes.Activity.Heartbeat.{
  heartbeat_frequency, Phase, recording, waiting, stopped, Beating, begin, pass, Step,
  record_heartbeat, take_done, take_tick, elapse, cancel, Reach, here, next, WhenIdle,
}
use temporal_mistakes.Activity.HeartbeatLaws.{halved}

module _ (frequency : ℕ) where
  -- What holds at `now`, with the next tick at `tick`, after a heartbeat at `last`.
  abbrev IsSince : Phase → (pending : Bool) → (now tick last : ℕ) → Type 0
  IsSince recording pending now tick last =
      (pending ≡ false) × (now + frequency ≡ tick) × (now ≡ last + frequency)
  IsSince waiting false now tick last = (now < tick) × (last + frequency ≡ tick)
  IsSince waiting true now tick last = (now + frequency ≡ tick) × (now ≡ last + frequency)
  IsSince stopped pending now tick last = Unit

  abbrev IsTimed : Phase → (pending : Bool) → (now tick : ℕ) → List ℕ → Type 0
  IsTimed p pending now tick [] =
      (p ≡ recording) × (now ≡ 0) × (tick ≡ frequency) × (pending ≡ false)
  IsTimed p pending now tick (last ∷ _) = IsSince p pending now tick last

  abbrev IsTimely : Beating → Type 0
  IsTimely s = IsTimed s.phase s.pending s.now s.next_tick s.heartbeats

  after_record :
      (p : Phase) (b : Bool) (now tick : ℕ) (hs : List ℕ)
      → 0 < frequency
      → p ≡ recording
      → IsTimed p b now tick hs
      → IsSince waiting b now tick now
  after_record recording false now tick [] h e t = omega arith
  after_record recording false now tick (x ∷ hs) h e t = omega arith
  after_record recording true now tick [] h e t = absurd (ground arith)
  after_record recording true now tick (x ∷ hs) h e t = absurd (ground arith)
  after_record _ b now tick hs h e t = absurd (ground arith)

  after_stop :
      (p : Phase) (b : Bool) (now tick : ℕ) (hs : List ℕ)
      → p ≡ waiting
      → IsTimed p b now tick hs
      → IsTimed stopped b now tick hs
  after_stop waiting b now tick [] e t = absurd (ground arith)
  after_stop waiting b now tick (x ∷ hs) e t = tt
  after_stop _ b now tick hs e t = absurd (ground arith)

  after_take :
      (p : Phase) (b : Bool) (now tick : ℕ) (hs : List ℕ)
      → p ≡ waiting
      → b ≡ true
      → IsTimed p b now tick hs
      → IsTimed recording false now tick hs
  after_take waiting true now tick [] e k t = absurd (ground arith)
  after_take waiting true now tick (x ∷ hs) e k t = (refl, t.0, t.1)
  after_take waiting false now tick hs e k t = absurd (ground arith)
  after_take _ b now tick hs e k t = absurd (ground arith)

  after_moment :
      (p : Phase) (b : Bool) (now tick : ℕ) (hs : List ℕ)
      → ((p ≡ waiting) × (b ≡ false)) ⊎ (p ≡ stopped)
      → suc now < tick
      → IsTimed p b now tick hs
      → IsTimed p b (suc now) tick hs
  after_moment waiting false now tick [] a l t = absurd (ground arith)
  after_moment waiting false now tick (x ∷ hs) a l t = omega arith
  after_moment waiting true now tick hs a l t = absurd (ground arith)
  after_moment stopped b now tick [] a l t = absurd (ground arith)
  after_moment stopped b now tick (x ∷ hs) a l t = tt
  after_moment recording b now tick hs a l t = absurd (ground arith)

  after_tick :
      (p : Phase) (b : Bool) (now tick : ℕ) (hs : List ℕ)
      → ((p ≡ waiting) × (b ≡ false)) ⊎ (p ≡ stopped)
      → ltb (suc now) tick ≡ false
      → IsTimed p b now tick hs
      → IsTimed p true (suc now) (tick + frequency) hs
  after_tick waiting false now tick [] a l t = absurd (ground arith)
  after_tick waiting false now tick (x ∷ hs) a l t = ground arith
  after_tick waiting true now tick hs a l t = absurd (ground arith)
  after_tick stopped b now tick [] a l t = absurd (ground arith)
  after_tick stopped b now tick (x ∷ hs) a l t = tt
  after_tick recording b now tick hs a l t = absurd (ground arith)

  pass-IsTimely : (s : Beating) → WhenIdle s → IsTimely s → IsTimely (pass frequency s)
  pass-IsTimely s a t = elim (Bool-cases (ltb (suc s.now) s.next_tick)) [
    | inl e ↦
        rw e (after_moment s.phase s.pending s.now s.next_tick s.heartbeats a (ground arith) t)
    | inr e ↦ rw e (after_tick s.phase s.pending s.now s.next_tick s.heartbeats a e t)
  ]

  Step-IsTimely :
      {s t : Beating} → 0 < frequency → Step frequency WhenIdle s t → IsTimely s → IsTimely t
  Step-IsTimely h (record_heartbeat s p) t =
      after_record s.phase s.pending s.now s.next_tick s.heartbeats h p t
  Step-IsTimely h (take_done s p d) t =
      after_stop s.phase s.pending s.now s.next_tick s.heartbeats p t
  Step-IsTimely h (take_tick s p d) t =
      after_take s.phase s.pending s.now s.next_tick s.heartbeats p d t
  Step-IsTimely h (elapse s a) t = pass-IsTimely s a t
  Step-IsTimely h (cancel s) t = t

  Reach-IsTimely :
      {s t : Beating} → 0 < frequency → Reach frequency WhenIdle s t → IsTimely s → IsTimely t
  Reach-IsTimely h here t = t
  Reach-IsTimely h (next r step) t = Step-IsTimely h step (Reach-IsTimely h r t)

  begin-IsTimely : IsTimely (begin frequency)
  begin-IsTimely = (refl, refl, refl, refl)

  since_last :
      (p : Phase) (b : Bool) (now tick : ℕ) (hs : List ℕ)
      → p ≢ stopped
      → IsTimed p b now tick hs
      → ((hs ≡ []) × (now ≡ 0))
        ⊎ ((last : ℕ) × (rest : List ℕ) × (hs ≡ last ∷ rest) × (now ≤ last + frequency))
  since_last p b now tick [] n t = inl (refl, t.1)
  since_last recording b now tick (x ∷ hs) n t = inr (x, hs, refl, omega arith)
  since_last waiting false now tick (x ∷ hs) n t = inr (x, hs, refl, omega arith)
  since_last waiting true now tick (x ∷ hs) n t = inr (x, hs, refl, omega arith)
  since_last stopped b now tick (x ∷ hs) n t = absurd (n refl)

-- As long as it has not stopped, a goroutine that runs whenever it can has recorded a heartbeat
-- within the last half of a heartbeat timeout of at least two nanoseconds, or has just begun.
pub heartbeats_timely :
    (timeout frequency : ℕ) (s : Beating)
    → 2 ≤ timeout
    → heartbeat_frequency (pos timeout) ≡ pos frequency
    → Reach frequency WhenIdle (begin frequency) s
    → s.phase ≢ stopped
    → ((s.heartbeats ≡ []) × (s.now ≡ 0))
      ⊎ ((last : ℕ) × (rest : List ℕ) × (s.heartbeats ≡ last ∷ rest)
          × (2 * s.now ≤ 2 * last + timeout))
heartbeats_timely timeout frequency s h e r n =
    let (same, positive, bound) = halved timeout h in
    let f : frequency ≡ timeout / 2 = ap pos_part (sym e ∙ same) in
    elim (since_last frequency s.phase s.pending s.now s.next_tick s.heartbeats n
      (Reach-IsTimely frequency (omega arith) r (begin-IsTimely frequency))) [
        | inl x ↦ inl x
        | inr (last, rest, p, q) ↦ inr (last, rest, p, omega arith)
      ]
