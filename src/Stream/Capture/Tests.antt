-- ===== src/Stream/Capture/Tests.antt =====
-- A capture task that reads a packet in two parts, with an outage between them.
use esp32_streamline.Prelude.{
  ℕ, ◌+◌, ◌%◌, ◌≡◌, refl, arith, false, none, some, ok, err, List, [], ◌∷◌,
}
use esp32_streamline.Stream.Status.{StreamStatus}
use esp32_streamline.Stream.Wire.{bytes_per_frame}
use esp32_streamline.Stream.Capture.{CaptureEngine, new, Reading, observe_time}
use esp32_streamline.Stream.Capture.Alignment.{run, all_taken, run-IsAligned}
use esp32_streamline.Stream.Capture.Accounts.{observe_time_twice}

abbrev quiet_status : StreamStatus
quiet_status = record {
  sequence = 9;
  totals = record {
    packets = 0;
    bytes = 0;
    read_errors = 0;
    short_reads = 0;
    queue_drops = 0;
    capture_lost_packets = 0;
    silence_packets = 0;
    send_failed_packets = 0;
    network_errors = 0;
    tls_handshake_failures = 0;
    reconnects = 0;
    send_stalls = 0;
    longest_send_stall_ms = 0;
    clipped = 0;
  };
  queue_depth = 0;
  peak_left = 0;
  peak_right = 0;
  rms_left = 0;
  rms_right = 0;
  noise_floor = 0;
  playing = false;
  relearn = false;
  paused = false;
  transport_quiesce = false;
  transport_present = false;
  is_quiesced = false;
}

abbrev readings : List Reading
readings =
    record { started = 10; now = 12; later = 12; tail = []; result = ok 101 }
    ∷ record { started = 12; now = 900; later = 900; tail = []; result = err tt }
    ∷ record { started = 900; now = 902; later = 903; tail = []; result = ok 1024 }
    ∷ []

abbrev flat : ℕ → ℕ → ℕ
flat sum frames = 0

run-IsAligned_example :
    let e = run flat (new 3072) readings quiet_status none in
    (all_taken flat (new 3072) readings quiet_status none + e.skip_bytes) % bytes_per_frame
    ≡ e.filled % bytes_per_frame
run-IsAligned_example = run-IsAligned flat 3072 readings quiet_status none (
  omega arith,
  omega arith,
  omega arith,
  (omega arith, omega arith, omega arith, (omega arith, omega arith, omega arith, tt)),
)

-- An engine that had its last packet at 100 ms.
abbrev late : CaptureEngine
late = record (new 3072) { last_packet_ms = some 100; lost_frame_remainder = 7 }

observe_time_twice_example :
    let (once, seen) = observe_time late 900 quiet_status in
    let (e1, s1) = observe_time late 500 quiet_status in
    let (twice, seen2) = observe_time e1 900 s1 in
    (twice.lost_frame_remainder ≡ once.lost_frame_remainder)
    × (twice.charged_frames ≡ once.charged_frames)
    × (seen2.sequence ≡ seen.sequence)
    × (seen2.totals.capture_lost_packets ≡ seen.totals.capture_lost_packets)
unfolding new
observe_time_twice_example =
    observe_time_twice late 500 900 100 quiet_status refl (omega arith) (omega arith) (omega arith)
      (omega arith) (omega arith)
