-- ===== src/Activity/HeartbeatLaws.antt =====
-- How often, and until when, the goroutine of internal/activityhelpers/heartbeat.go records
-- heartbeats.
use temporal_mistakes.Base.{
  ℕ, suc, ◌+◌, ◌*◌, ◌-◌, ◌/◌, ◌≤◌, ◌<◌, ◌≡◌, inl, inr, Bool, true, false, Bool-cases, length, ltb,
  pos, arith,
}
use temporal_mistakes.Activity.Heartbeat.{
  half, heartbeat_frequency, Phase, recording, waiting, Beating, begin, pass, Step,
  record_heartbeat, take_done, take_tick, elapse, cancel, Reach, here, next, Anytime,
}

pub halved :
    (n : ℕ) → 2 ≤ n → (heartbeat_frequency (pos n) ≡ pos (n / 2)) × (0 < n / 2) × (2 * (n / 2) ≤ n)
unfolding heartbeat_frequency half
halved n h = ground arith

abbrev ticks : Bool → ℕ
ticks true = 1
ticks false = 0

abbrev due : Phase → ℕ
due recording = 1
due _ = 0

module _ (frequency : ℕ) where
  -- With `f` ticks so far.
  abbrev IsPaced : Beating → Type 0
  IsPaced s =
      (f : ℕ) × (length s.heartbeats + ticks s.pending + due s.phase ≤ suc f)
      × (s.next_tick ≡ f * frequency + frequency)
      × (f * frequency ≤ s.now)
      × (s.now < s.next_tick)

  one_more :
      (s : Beating) {f : ℕ}
      → length s.heartbeats + ticks s.pending + due s.phase ≤ suc f
      → length s.heartbeats + 1 + due s.phase ≤ suc (suc f)
  one_more s h = omega arith

  pass-IsPaced : (s : Beating) → 0 < frequency → IsPaced s → IsPaced (pass frequency s)
  pass-IsPaced s h (f, count, tick, below, above) =
      elim (Bool-cases (ltb (suc s.now) s.next_tick)) [
        | inl e ↦ rw e (f, count, tick, omega arith, ground arith)
        | inr e ↦ rw e (suc f, one_more s count, grind arith, grind arith, omega arith)
      ]

  record_count :
      (p : Phase) (n t : ℕ) {f : ℕ} → p ≡ recording → n + t + due p ≤ suc f → suc n + t + 0 ≤ suc f
  record_count recording n t e h = omega arith
  record_count _ n t e h = absurd (ground arith)

  take_count :
      (p : Phase) (b : Bool) (n : ℕ) {f : ℕ}
      → p ≡ waiting
      → b ≡ true
      → n + ticks b + due p ≤ suc f
      → n + 0 + 1 ≤ suc f
  take_count waiting true n e k h = omega arith
  take_count waiting false n e k h = absurd (ground arith)
  take_count _ b n e k h = absurd (ground arith)

  Step-IsPaced :
      {Allows : Beating → Type 0} {s t : Beating}
      → 0 < frequency
      → Step frequency Allows s t
      → IsPaced s
      → IsPaced t
  Step-IsPaced h (record_heartbeat s p) (f, count, tick, below, above) =
      (f, record_count s.phase (length s.heartbeats) (ticks s.pending) p count, tick, below, above)
  Step-IsPaced h (take_done s p d) (f, count, tick, below, above) =
      (f, omega arith, tick, below, above)
  Step-IsPaced h (take_tick s p d) (f, count, tick, below, above) =
      (f, take_count s.phase s.pending (length s.heartbeats) p d count, tick, below, above)
  Step-IsPaced h (elapse s a) paced = pass-IsPaced s h paced
  Step-IsPaced h (cancel s) paced = paced

  Reach-IsPaced :
      {Allows : Beating → Type 0} {s t : Beating}
      → 0 < frequency
      → Reach frequency Allows s t
      → IsPaced s
      → IsPaced t
  Reach-IsPaced h here paced = paced
  Reach-IsPaced h (next r step) paced = Step-IsPaced h step (Reach-IsPaced h r paced)

  begin-IsPaced : 0 < frequency → IsPaced (begin frequency)
  begin-IsPaced h = (0, omega arith, omega arith, omega arith, omega arith)

  -- However the goroutine is scheduled, the heartbeats after the first one are no more than the
  -- periods that have passed.
  heartbeats_paced :
      (s : Beating)
      → 0 < frequency
      → Reach frequency Anytime (begin frequency) s
      → (length s.heartbeats - 1) * frequency ≤ s.now
  heartbeats_paced s h r =
      let (f, count, tick, below, above) = Reach-IsPaced h r (begin-IsPaced h) in
      at_most (length s.heartbeats) f (ticks s.pending + due s.phase) s.now (omega arith) below
    where
      at_most : (n f k now : ℕ) → n + k ≤ suc f → f * frequency ≤ now → (n - 1) * frequency ≤ now
      at_most n f k now h p = grind arith
