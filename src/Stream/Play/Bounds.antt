-- ===== src/Stream/Play/Bounds.antt =====
-- The ranges of the detector's fields: no u32 operation of play.rs wraps, and the noise floor fits a u16.
use esp32_streamline.Prelude.{◌+◌, ◌*◌, ◌/◌, ◌≤◌, ◌<◌, ◌≡◌, arith}
use esp32_streamline.Prelude.Words.{u16_mod, u32_mod}
use esp32_streamline.Stream.Levels.{LevelStats}
use esp32_streamline.Stream.Play.{
  PlayDetector, new, relearn, noise_floor, update, packet_rms, warmup_packets, start_after_packets,
  stop_after_packets,
}

pub record IsBounded (d : PlayDetector) : Type 0 where
  warming : d.warmup ≤ warmup_packets
  holding : d.relearn_hold ≤ warmup_packets + start_after_packets
  pub charged : d.silence_charge ≤ stop_after_packets
  running : d.signal_run < u32_mod
  idling : d.idle_x256 < u16_mod * 256

-- The levels of a packet are u16 values.
abbrev IsLevel : LevelStats → Type 0
IsLevel l = packet_rms l < u16_mod

new-IsBounded : IsBounded new
unfolding new
new-IsBounded = omega arith

relearn-IsBounded : (d : PlayDetector) → IsBounded (relearn d)
unfolding relearn
relearn-IsBounded d = ground arith

-- Every packet whose level is a u16 keeps the ranges of the detector's fields.
update-IsBounded :
    (d : PlayDetector) (l : LevelStats) → IsLevel l → IsBounded d → IsBounded (update d l)
unfolding update
update-IsBounded d l lv h = ground arith

-- Within them, the cast of the noise floor to u16 loses nothing.
noise_floor_exact : (d : PlayDetector) → IsBounded d → noise_floor d ≡ d.idle_x256 / 256
unfolding noise_floor
noise_floor_exact d h = omega (arith, h.idling)
