-- ===== src/Stream/Play.antt =====
-- The play-state detector (firmware/streamline/src/play.rs). Numbers are u32 unless they say otherwise.
pub mod Bounds
pub mod Trace
pub mod Starting
pub mod Stopping
use esp32_streamline.Prelude.{
  ℕ, ◌+◌, ◌-◌, ◌*◌, ◌/◌, ◌%◌, Bool, true, false, not, ◌&&◌, ◌||◌, ltb, leb, if◌then◌else◌, min, max,
}
use esp32_streamline.Prelude.Words.{u16_mod, u32_mod, sat_add32, add32}
use esp32_streamline.Stream.Levels.{LevelStats}

abbrev start_idle_factor : ℕ
start_idle_factor = 3

abbrev pub start_rms_min : ℕ
start_rms_min = 150

abbrev stop_idle_factor : ℕ
stop_idle_factor = 2

abbrev pub stop_rms_min : ℕ
stop_rms_min = 60

abbrev pub start_after_packets : ℕ
start_after_packets = 24

abbrev pub stop_after_packets : ℕ
stop_after_packets = 375

abbrev silence_discharge : ℕ
silence_discharge = 8

abbrev pub warmup_packets : ℕ
warmup_packets = 375

abbrev idle_step_x256 : ℕ
idle_step_x256 = 64

pub record PlayDetector : Type 0 where
  pub is_playing : Bool  -- the field `playing`
  pub warmup : ℕ
  pub relearn_hold : ℕ
  pub signal_run : ℕ
  pub silence_charge : ℕ
  pub idle_x256 : ℕ

unfoldable pub new : PlayDetector
new = record {
  is_playing = false;
  warmup = warmup_packets;
  relearn_hold = 0;
  signal_run = 0;
  silence_charge = 0;
  idle_x256 = 0;
}

-- The method `playing`.
pub playing : PlayDetector → Bool
playing d = d.is_playing || ltb 0 d.relearn_hold

pub relearn : PlayDetector → PlayDetector
unfolding playing new
relearn d = record new {
  relearn_hold = if playing d then warmup_packets + start_after_packets else 0;
}

-- `(self.idle_x256 >> 8) as u16`.
pub noise_floor : PlayDetector → ℕ
noise_floor d = d.idle_x256 / 256 % u16_mod

start_threshold : PlayDetector → ℕ
unfolding noise_floor
start_threshold d = max (noise_floor d * start_idle_factor) start_rms_min

pub stop_threshold : PlayDetector → ℕ
unfolding noise_floor
stop_threshold d = max (noise_floor d * stop_idle_factor) stop_rms_min

learn_idle : PlayDetector → ℕ → ℕ → PlayDetector
learn_idle d rms stop =
    if d.is_playing && leb stop rms
    then d
    else if ltb d.idle_x256 (rms * 256 % u32_mod)
    then record d { idle_x256 = add32 d.idle_x256 idle_step_x256 }
    else record d { idle_x256 = d.idle_x256 - idle_step_x256 }

-- `signal_run` and `silence_charge` of a packet past the warm-up.
count_packet : PlayDetector → ℕ → ℕ → ℕ → PlayDetector
count_packet d rms start stop = record d {
  signal_run = if leb start rms then sat_add32 d.signal_run 1 else 0;
  silence_charge =
      if ltb rms stop
      then min (add32 d.silence_charge 1) stop_after_packets
      else d.silence_charge - silence_discharge;
}

decide : PlayDetector → PlayDetector
decide d =
    if d.is_playing
    then (if leb stop_after_packets d.silence_charge then record d { is_playing = false } else d)
    else if leb start_after_packets d.signal_run
    then record d { is_playing = true; silence_charge = 0 }
    else d

-- The louder channel's level.
abbrev pub packet_rms : LevelStats → ℕ
packet_rms levels = max levels.rms_left levels.rms_right

-- The state that `update` leaves; what it returns is `playing` of that state.
unfoldable pub update : PlayDetector → LevelStats → PlayDetector
unfolding start_threshold stop_threshold learn_idle count_packet decide
update d levels =
    let rms = packet_rms levels in
    let held = record d { relearn_hold = d.relearn_hold - 1 } in
    let stop = stop_threshold held in
    let start = start_threshold held in
    let learned = learn_idle held rms stop in
    if ltb 0 learned.warmup
    then record learned { warmup = learned.warmup - 1 }
    else decide (count_packet learned rms start stop)
