-- ===== src/Schedule.antt =====
-- The two monotonic schedules of the boot loop: station retries (firmware/streamline/src/reconnect.rs) and
-- automatic updates (`AutoUpdateTimer` of firmware/streamline/src/update.rs, with the intervals of
-- firmware/streamline/src/config.rs). A `Duration` is a number of seconds; its saturation lies past any
-- clock and is not modelled.
pub mod Spacing
mod Tests
use esp32_streamline.Prelude.{
  ℕ, ◌+◌, ◌*◌, Bool, true, false, not, ◌||◌, Option, none, some, ltb, if◌then◌else◌, unwrap_or,
}

abbrev pub reconnect_initial_delay : ℕ
reconnect_initial_delay = 30

abbrev pub reconnect_interval : ℕ
reconnect_interval = 60

pub record ReconnectTimer : Type 0 where
  pub last_attempt : Option ℕ

abbrev pub map_or : Option ℕ → (ℕ → ℕ) → ℕ → ℕ
map_or none f d = d
map_or (some x) f d = f x

pub take_due : ReconnectTimer → ℕ → ReconnectTimer × Bool
take_due t now =
    if ltb now (map_or t.last_attempt (λ last. last + reconnect_interval) reconnect_initial_delay)
    then (t, false)
    else (record t { last_attempt = some now }, true)

pub data AutoUpdateSchedule : Type 0 where
  disabled daily weekly : AutoUpdateSchedule

abbrev pub interval : AutoUpdateSchedule → Option ℕ
interval disabled = none
interval daily = some (24 * 60 * 60)
interval weekly = some (7 * 24 * 60 * 60)

abbrev auto_update_initial_delay : ℕ
auto_update_initial_delay = 10 * 60

pub record AutoUpdateTimer : Type 0 where
  pub last_attempt : Option ℕ
  retry_at : Option ℕ

pub due_at : AutoUpdateTimer → ℕ → ℕ
due_at t every =
    unwrap_or t.retry_at (map_or t.last_attempt (λ last. last + every) auto_update_initial_delay)

pub take_update : AutoUpdateTimer → ℕ → AutoUpdateSchedule → Bool → AutoUpdateTimer × Bool
unfolding due_at
take_update t now schedule audio_idle = elim (interval schedule) [
  | none ↦ (t, false)
  | some every ↦
      if not audio_idle || ltb now (due_at t every)
      then (t, false)
      else (record { last_attempt = some now; retry_at = none }, true)
]

pub start_failed : AutoUpdateTimer → ℕ → AutoUpdateTimer
start_failed t now = record t { retry_at = some (now + 60) }
