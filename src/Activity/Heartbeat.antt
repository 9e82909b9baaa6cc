-- ===== src/Activity/Heartbeat.antt =====
-- internal/activityhelpers/heartbeat.go: `AutoHeartbeat`. Its goroutine is a step relation: the
-- statements of the loop, time that passes nanosecond by nanosecond, and the cancel function, in any
-- order that the scheduler allows. The states start where the ticker has been made.
use temporal_mistakes.Base.{
  ℕ, suc, ◌+◌, ◌/◌, ◌≡◌, Option, none, some, Bool, true, false, List, [], ◌∷◌, ℤ, pos, negsuc,
  leb_ℤ, ltb, sub_ℕ, ◌⊎◌, if◌then◌else◌,
}
use temporal_mistakes.Sdk.{ActivityInfo}

-- 30 * time.Second
abbrev pub default_heartbeat_frequency : ℤ
default_heartbeat_frequency = pos 30_000_000_000

-- d / 2, towards zero
unfoldable pub half : ℤ → ℤ
half (pos n) = pos (n / 2)
half (negsuc n) = sub_ℕ 0 (suc n / 2)

unfoldable pub heartbeat_frequency : ℤ → ℤ
heartbeat_frequency heartbeat_timeout =
    if leb_ℤ (half heartbeat_timeout) (pos 0)
    then default_heartbeat_frequency
    else half heartbeat_timeout

-- The frequency of the goroutine, or none where the context is not an activity's.
unfoldable pub auto_heartbeat : {F : Type 0} → Option (ActivityInfo F) → Option ℤ
auto_heartbeat none = none
auto_heartbeat (some info) = some (heartbeat_frequency info.heartbeat_timeout)

-- Before RecordHeartbeat, in the select, and after the return.
pub data Phase : Type 0 where
  recording waiting stopped : Phase

-- `pending` is the one tick that ticker.C holds, `done` whether heartbeatCtx is done, and
-- `heartbeats` the times of the calls of RecordHeartbeat, the last one first.
pub record Beating : Type 0 where
  pub phase : Phase
  pub now : ℕ
  pub next_tick : ℕ
  pub pending : Bool
  pub done : Bool
  pub heartbeats : List ℕ

module _ (frequency : ℕ) where
  abbrev pub begin : Beating
  begin = record {
    phase = recording;
    now = 0;
    next_tick = frequency;
    pending = false;
    done = false;
    heartbeats = [];
  }

  -- One nanosecond passes; a tick finds the channel empty, or is dropped.
  abbrev pub pass : Beating → Beating
  pass s =
      if ltb (suc s.now) s.next_tick
      then record s { now = suc s.now }
      else record s { now = suc s.now; next_tick = s.next_tick + frequency; pending = true }

  -- `Allows` says in which states the scheduler lets time pass.
  module _ (Allows : Beating → Type 0) where
    pub data Step : Beating → Beating → Type 0 where
      record_heartbeat :
          (s : Beating)
          → s.phase ≡ recording
          → Step s (record s { phase = waiting; heartbeats = s.now ∷ s.heartbeats })
      take_done :
          (s : Beating) → s.phase ≡ waiting → s.done ≡ true → Step s (record s { phase = stopped })
      take_tick :
          (s : Beating)
          → s.phase ≡ waiting
          → s.pending ≡ true
          → Step s (record s { phase = recording; pending = false })
      elapse : (s : Beating) → Allows s → Step s (pass s)
      cancel : (s : Beating) → Step s (record s { done = true })

    pub data Reach (s : Beating) : Beating → Type 0 where
      here : Reach s s
      next : {t u : Beating} → Reach s t → Step t u → Reach s u

-- Time passes whenever it likes, or only while the goroutine has nothing to do.
abbrev pub Anytime : Beating → Type 0
Anytime s = Unit

abbrev pub WhenIdle : Beating → Type 0
WhenIdle s = ((s.phase ≡ waiting) × (s.pending ≡ false)) ⊎ (s.phase ≡ stopped)
