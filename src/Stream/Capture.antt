-- ===== src/Stream/Capture.antt =====
-- The capture task (firmware/streamline/src/stream/capture.rs): assemble PCM packets, and account outages
-- on a monotonic clock.
pub mod Accounts
pub mod Alignment
mod Tests
use esp32_streamline.Prelude.{
  ℕ, ◌+◌, ◌-◌, ◌*◌, ◌/◌, ◌%◌, Bool, true, false, not, ◌&&◌, ◌||◌, Option, none, some, Result, ok,
  err, List, [], ◌∷◌, ◌++◌, take, drop, length, replicate, ltb, leb, ◌==◌, if◌then◌else◌, min,
  unwrap_or, is_some_and,
}
use esp32_streamline.Prelude.Words.{u32_mod, sat_add64, sat_mul64}
use esp32_streamline.Stream.Levels.{LevelStats, analyze}
use esp32_streamline.Stream.Play
use esp32_streamline.Stream.Play.{PlayDetector, stop_after_packets}
use esp32_streamline.Stream.Queue.{PacketStorage, push_drop_oldest}
use esp32_streamline.Stream.Status.{
  StreamStatus, take_relearn, reset_clipped, record_read_error, record_short_read, record_levels,
  set_playing, set_noise_floor, advance_sequence, next_sequence, record_queue_drop,
  record_capture_loss, record_silence, set_queue_depth, streaming_enabled,
  transport_quiesce_requested,
}
use esp32_streamline.Stream.Wire.{
  sample_rate_hz, frames_per_packet, bytes_per_frame, payload_size, from_pcm, silence,
}

abbrev frames_per_ms : ℕ
frames_per_ms = sample_rate_hz / 1000

abbrev stall_expiry_ms : ℕ
stall_expiry_ms = stop_after_packets * frames_per_packet / frames_per_ms

pub record CaptureEngine : Type 0 where
  detector : PlayDetector
  pub pcm : List ℕ  -- 1024 bytes
  pub filled : ℕ
  pub skip_bytes : ℕ
  pub packet_started_ms : Option ℕ
  pub last_packet_ms : Option ℕ
  pub charged_frames : ℕ
  pub lost_frame_remainder : ℕ
  pub buffered_frames : ℕ

unfoldable pub new : ℕ → CaptureEngine
new buffered_frames = record {
  detector = Play.new;
  pcm = replicate payload_size 0;
  filled = 0;
  skip_bytes = 0;
  packet_started_ms = none;
  last_packet_ms = none;
  charged_frames = 0;
  lost_frame_remainder = 0;
  buffered_frames = buffered_frames;
}

-- Frames lost at `now`: what the clock says, less what the driver retains.
pub lost_frames : CaptureEngine → ℕ → ℕ
lost_frames e now =
    sat_mul64 (now - unwrap_or e.last_packet_ms now) frames_per_ms - e.buffered_frames

-- The charge for what was lost since it was last looked at.
pub charge : CaptureEngine → ℕ → StreamStatus → CaptureEngine × StreamStatus
unfolding lost_frames
charge e now status =
    let lost = lost_frames e now in
    let total = sat_add64 e.lost_frame_remainder (lost - e.charged_frames) in
    let packets = total / frames_per_packet in
    (
      record e {
        last_packet_ms = some (unwrap_or e.last_packet_ms now);
        charged_frames = lost;
        lost_frame_remainder = total % frames_per_packet;
      },
      (advance_sequence (record_capture_loss status packets) (packets % u32_mod)).1,
    )

is_first_loss : CaptureEngine → ℕ → Bool
unfolding lost_frames
is_first_loss e now = ltb 0 (lost_frames e now) && (e.charged_frames == 0)

partial_expired : CaptureEngine → ℕ → Bool
partial_expired e now =
    is_some_and e.packet_started_ms
      λ start. ltb e.buffered_frames (sat_mul64 (now - start) frames_per_ms)

-- Drop the partial packet, and what is missing of its last stereo frame.
drop_partial : CaptureEngine → CaptureEngine
drop_partial e = record e {
  skip_bytes = (bytes_per_frame - e.filled % bytes_per_frame) % bytes_per_frame;
  filled = 0;
  packet_started_ms = none;
}

expire_playing : CaptureEngine → ℕ → StreamStatus → CaptureEngine × StreamStatus
expire_playing e elapsed status =
    if leb stall_expiry_ms elapsed && Play.playing e.detector
    then (record e { detector = Play.new }, set_playing status false)
    else (e, status)

pub observe_time : CaptureEngine → ℕ → StreamStatus → CaptureEngine × StreamStatus
unfolding is_first_loss partial_expired charge drop_partial expire_playing
observe_time e now status =
    let resets = is_first_loss e now || partial_expired e now in
    let (charged, status') = charge e now status in
    expire_playing (if resets then drop_partial charged else charged)
      (now - unwrap_or e.last_packet_ms now) status'

-- What the environment does in one step: the clock before and after the read, the buffer's tail as the
-- read left it, its result (`err tt` is `ReadFailed`), and the clock after a back-off.
pub record Reading : Type 0 where
  pub started : ℕ
  pub now : ℕ
  pub later : ℕ
  pub tail : List ℕ
  pub result : Result (Unit {0}) ℕ

-- `copy_within(from..to, at)`.
abbrev pub copy_within : List ℕ → ℕ → ℕ → ℕ → List ℕ
copy_within pcm from to at =
    take at pcm ++ take (to - from) (drop from pcm) ++ drop (at + (to - from)) pcm

abbrev pub Packets : Type 0
Packets = Option (Option (PacketStorage (List ℕ)))

-- Engine, status and queue after a step; the queue's outer `none` is a device with no bridge target.
abbrev Outcome : Type 0
Outcome = CaptureEngine × StreamStatus × Packets

enqueue : List ℕ → StreamStatus → Packets → StreamStatus × Packets
enqueue packet status none = (status, none)
enqueue packet status (some q) =
    let (q', dropped, depth) = push_drop_oldest q packet in
    (set_queue_depth (if dropped then record_queue_drop status else status) depth, some q')

-- From `let packet = if playing …` to the end of the step.
emit : Bool → ℕ → List ℕ → StreamStatus → Packets → StreamStatus × Packets
unfolding enqueue
emit playing sequence pcm status none = (status, none)
emit playing sequence pcm status (some q) =
    if playing
    then enqueue (from_pcm sequence pcm) status (some q)
    else enqueue (silence sequence) (record_silence status) (some q)

pub backoff : CaptureEngine → ℕ → StreamStatus → CaptureEngine × StreamStatus
unfolding observe_time
backoff e later status = observe_time e later status

pub fail_read : CaptureEngine → Reading → StreamStatus → Packets → Outcome
unfolding backoff
fail_read e r status queue = let (e', status') = backoff e r.later status in (e', status', queue)

-- `if status.take_relearn() { … }`.
pub relearn_if_asked : CaptureEngine → StreamStatus → CaptureEngine × StreamStatus
relearn_if_asked e status =
    let (asked, status') = take_relearn status in
    if asked
    then (record e { detector = Play.relearn e.detector }, reset_clipped status')
    else (e, status')

module _ (root_mean : ℕ → ℕ → ℕ) where
  -- A full packet: levels, detector, sequence number, and the packet itself.
  pub complete : CaptureEngine → ℕ → StreamStatus → Packets → Outcome
  unfolding emit
  complete e now status queue =
      let levels = analyze root_mean e.pcm in
      let detector = Play.update e.detector levels in
      let playing = Play.playing detector in
      let reset = record e {
        packet_started_ms = none;
        filled = 0;
        last_packet_ms = some now;
        charged_frames = 0;
        detector = detector;
      } in
      let seen =
        set_noise_floor (set_playing (record_levels status levels) playing)
          (Play.noise_floor detector) in
      let (sequence, counted) = next_sequence seen in
      if not (streaming_enabled counted) || transport_quiesce_requested counted
      then (reset, counted, queue)
      else let (status', queue') = emit playing sequence e.pcm counted queue in
        (reset, status', queue')

  -- The step from `let skipped = …`, with `bytes` read at `offset`.
  pub accept : CaptureEngine → ℕ → ℕ → Reading → StreamStatus → Packets → Outcome
  unfolding complete
  accept e offset bytes r status queue =
      let skipped = min e.skip_bytes bytes in
      let kept = bytes - skipped in
      let skipping = record e { skip_bytes = e.skip_bytes - skipped } in
      let filling = record skipping {
        pcm = copy_within e.pcm (offset + skipped) (offset + bytes) e.filled;
        filled = e.filled + kept;
        packet_started_ms = some (unwrap_or e.packet_started_ms r.started);
      } in
      if kept == 0
      then (skipping, status, queue)
      else if ltb filling.filled payload_size
      then (filling, status, queue)
      else complete filling r.now status queue

  -- The `match` on the result of the read.
  pub after_read : CaptureEngine → ℕ → Reading → StreamStatus → Packets → Outcome
  after_read e offset r status queue =
      let requested = payload_size - offset in
      elim r.result [
        | err _ ↦ fail_read e r (record_read_error status) queue
        | ok bytes ↦
            if bytes == 0
            then fail_read e r (record_short_read status) queue
            else if leb bytes requested
            then accept e offset bytes r
                (if ltb bytes requested then record_short_read status else status) queue
            else fail_read e r (record_read_error status) queue
      ]

  unfoldable pub step : CaptureEngine → Reading → StreamStatus → Packets → Outcome
  step e r status queue =
      let (e1, status1) = relearn_if_asked e status in
      let e2 = record e1 {
        last_packet_ms = some (unwrap_or e1.last_packet_ms r.started);
        pcm = take e1.filled e1.pcm ++ r.tail;
      } in
      let (e3, status3) = observe_time e2 r.now status1 in after_read e3 e1.filled r status3 queue
