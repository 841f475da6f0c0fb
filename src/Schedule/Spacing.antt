-- ===== src/Schedule/Spacing.antt =====
-- Attempts of either schedule are spaced, and none falls into active listening.
use esp32_streamline.Prelude.{
  ℕ, ◌+◌, ◌≤◌, ◌<◌, ◌≡◌, Bool, true, false, arith, if◌then◌else◌, none, some, List, [], ◌∷◌, ◌⊎◌,
}
use esp32_streamline.Schedule.{
  ReconnectTimer, take_due, reconnect_initial_delay, reconnect_interval, map_or, AutoUpdateSchedule,
  interval, AutoUpdateTimer, take_update, start_failed, due_at,
}

-- The times at which a timer that is asked at `nows` attempts a retry.
pub attempts : ReconnectTimer → List ℕ → List ℕ
attempts t [] = []
attempts t (now ∷ nows) =
    let (t', due) = take_due t now in
    let rest = attempts t' nows in if due then now ∷ rest else rest

-- Each is `gap` or more behind the one before, and the first is at `from` or later.
abbrev pub SpacedFrom : ℕ → ℕ → List ℕ → Type 0
SpacedFrom from gap [] = Unit
SpacedFrom from gap (x ∷ xs) = (from ≤ x) × SpacedFrom (x + gap) gap xs

spaced_from :
    (t : ReconnectTimer) (nows : List ℕ)
    → SpacedFrom
        (map_or t.last_attempt (λ last. last + reconnect_interval) reconnect_initial_delay)
        reconnect_interval
        (attempts t nows)
unfolding attempts take_due
spaced_from t [] = tt
spaced_from t (now ∷ nows) =
    ground (arith, spaced_from t nows, spaced_from (record { last_attempt = some now }) nows)

-- However often the boot loop asks, the first retry waits 30 seconds and the later ones a minute each.
pub attempts-SpacedFrom :
    (nows : List ℕ)
    → SpacedFrom reconnect_initial_delay reconnect_interval
        (attempts (record { last_attempt = none }) nows)
attempts-SpacedFrom nows = spaced_from (record { last_attempt = none }) nows

-- With the schedule on, a granted update attempt means that the audio is idle and the time has come, and
-- leaves the next one a full interval away, or a minute when the start failed; without a grant the timer
-- is as it was, and the audio is busy or the time has not come.
take_update_lem :
    (t : AutoUpdateTimer) (now every : ℕ) (schedule : AutoUpdateSchedule) (idle : Bool)
    → interval schedule ≡ some every
    → let (t', due) = take_update t now schedule idle in
      (due ≡ true)
        × (idle ≡ true)
        × (due_at t every ≤ now)
        × (due_at t' every ≡ now + every)
        × (due_at (start_failed t' now) every ≡ now + 60)
      ⊎ (due ≡ false) × (t' ≡ t) × ((idle ≡ false) ⊎ (now < due_at t every))
unfolding take_update start_failed
take_update_lem t now every schedule idle h = ground arith
