-- ===== src/Activity/HeartbeatTests.antt =====
-- The theorems about the goroutine of internal/activityhelpers/heartbeat.go on short runs.
use temporal_mistakes.Base.{ℕ, ◌+◌, ◌*◌, ◌≤◌, ◌≡◌, refl, ◌⊎◌, List, [], ◌∷◌, arith}
use temporal_mistakes.Activity.Heartbeat.{
  heartbeat_frequency, half, waiting, Beating, begin, record_heartbeat, Reach, here, next,
}
use temporal_mistakes.Activity.HeartbeatTiming.{heartbeats_timely}

-- A goroutine with a period of two nanoseconds, after its first heartbeat and one nanosecond.
abbrev first_beat : Beating
first_beat = record (begin 2) { phase = waiting; heartbeats = 0 ∷ [] }

abbrev started : {Allows : Beating → Type 0} → Reach 2 Allows (begin 2) first_beat
started = next here (record_heartbeat _ refl)

heartbeats_timely_example :
    ((first_beat.heartbeats ≡ []) × (first_beat.now ≡ 0))
    ⊎ ((last : ℕ) × (rest : List ℕ) × (first_beat.heartbeats ≡ last ∷ rest)
        × (2 * first_beat.now ≤ 2 * last + 5))
unfolding heartbeat_frequency half
heartbeats_timely_example =
    heartbeats_timely 5 2 first_beat (omega arith) refl started (λ e. ground arith)
