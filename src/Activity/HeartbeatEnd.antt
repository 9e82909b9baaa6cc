-- ===== src/Activity/HeartbeatEnd.antt =====
-- How the goroutine of internal/activityhelpers/heartbeat.go ends.
use temporal_mistakes.Base.{
  ℕ, suc, ◌≤◌, ◌≡◌, refl, sym, ◌∙◌, true, List, length, inl, inr, Bool-cases, ltb, arith,
}
use temporal_mistakes.Activity.Heartbeat.{
  Phase, recording, waiting, stopped, Beating, pass, Step, record_heartbeat, take_done, take_tick,
  elapse, cancel, Reach, here, next, Anytime,
}

module _ (frequency : ℕ) where
  abbrev IsOver : List ℕ → Beating → Type 0
  IsOver hs s = (s.phase ≡ stopped) × (s.heartbeats ≡ hs)

  pass-IsOver : (hs : List ℕ) (s : Beating) → IsOver hs s → IsOver hs (pass frequency s)
  pass-IsOver hs s h = elim (Bool-cases (ltb (suc s.now) s.next_tick)) [
    | inl e ↦ rw e h
    | inr e ↦ rw e h
  ]

  Step-IsOver :
      {Allows : Beating → Type 0} {s t : Beating} (hs : List ℕ)
      → Step frequency Allows s t
      → IsOver hs s
      → IsOver hs t
  Step-IsOver hs (record_heartbeat s p) o = absurd (ground (arith, sym p ∙ o.0))
  Step-IsOver hs (take_done s p d) o = (refl, o.1)
  Step-IsOver hs (take_tick s p d) o = absurd (ground (arith, sym p ∙ o.0))
  Step-IsOver hs (elapse s a) o = pass-IsOver hs s o
  Step-IsOver hs (cancel s) o = o

  -- Once it has stopped, the goroutine records nothing more, however long the run goes on.
  stopped_silent :
      (s t : Beating)
      → s.phase ≡ stopped
      → Reach frequency Anytime s t
      → (t.phase ≡ stopped) × (t.heartbeats ≡ s.heartbeats)
  stopped_silent s t p r = over r (p, refl)
    where
      over :
          {t : Beating}
          → Reach frequency Anytime s t
          → IsOver s.heartbeats s
          → IsOver s.heartbeats t
      over here o = o
      over (next r step) o = Step-IsOver s.heartbeats step (over r o)

  stop_from :
      (p : Phase) (s : Beating)
      → s.phase ≡ p
      → s.done ≡ true
      → (t : Beating) × Reach frequency Anytime s t
        × (t.phase ≡ stopped)
        × (length t.heartbeats ≤ suc (length s.heartbeats))
  stop_from recording s e d =
      (_, next (next here (record_heartbeat s e)) (take_done _ refl d), refl, omega arith)
  stop_from waiting s e d = (_, next here (take_done s e d), refl, omega arith)
  stop_from stopped s e d = (s, here, e, omega arith)

  -- From every state in which its context is done the goroutine can stop at once, after at most one
  -- more heartbeat.
  cancel_stops :
      (s : Beating)
      → s.done ≡ true
      → (t : Beating) × Reach frequency Anytime s t
        × (t.phase ≡ stopped)
        × (length t.heartbeats ≤ suc (length s.heartbeats))
  cancel_stops s d = stop_from s.phase s refl d
