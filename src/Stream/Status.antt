-- ===== src/Stream/Status.antt =====
-- The counters and controls that the two tasks share (firmware/streamline/src/stream/status.rs). Every
-- atomic and every locked total is a field; the orderings of the atomics are not modelled, so a run of
-- the tasks is a sequence of these operations.
use esp32_streamline.Prelude.{ℕ, Bool, true, false, not, ◌&&◌, ◌||◌, ltb, if◌then◌else◌, max}
use esp32_streamline.Prelude.Words.{add32, add64}
use esp32_streamline.Stream.Levels.{LevelStats}

-- The u64 totals behind the lock.
pub record Totals : Type 0 where
  pub packets : ℕ
  pub bytes : ℕ
  pub read_errors : ℕ
  pub short_reads : ℕ
  pub queue_drops : ℕ
  pub capture_lost_packets : ℕ
  pub silence_packets : ℕ
  pub send_failed_packets : ℕ
  pub network_errors : ℕ
  pub tls_handshake_failures : ℕ
  pub reconnects : ℕ
  pub send_stalls : ℕ
  pub longest_send_stall_ms : ℕ
  pub clipped : ℕ

pub record StreamStatus : Type 0 where
  pub sequence : ℕ
  pub totals : Totals
  pub queue_depth : ℕ
  pub peak_left : ℕ
  pub peak_right : ℕ
  pub rms_left : ℕ
  pub rms_right : ℕ
  pub noise_floor : ℕ
  pub playing : Bool
  pub relearn : Bool
  pub paused : Bool
  pub transport_quiesce : Bool
  pub transport_present : Bool
  pub is_quiesced : Bool  -- the field `transport_quiesced`

unfoldable pub set_streaming_enabled : StreamStatus → Bool → StreamStatus
set_streaming_enabled s enabled = record s { paused = not enabled }

abbrev pub streaming_enabled : StreamStatus → Bool
streaming_enabled s = not s.paused

unfoldable pub request_transport_quiesce : StreamStatus → StreamStatus
request_transport_quiesce s = record s { is_quiesced = false; transport_quiesce = true }

unfoldable pub end_transport_quiesce : StreamStatus → StreamStatus
end_transport_quiesce s = record s { transport_quiesce = false }

abbrev pub transport_quiesce_requested : StreamStatus → Bool
transport_quiesce_requested s = s.transport_quiesce

unfoldable mark_transport_present : StreamStatus → StreamStatus
mark_transport_present s = record s { transport_present = true }

unfoldable pub transport_quiesced : StreamStatus → Bool
transport_quiesced s = not s.transport_present || s.is_quiesced

unfoldable pub acknowledge_transport_quiesced : StreamStatus → StreamStatus
acknowledge_transport_quiesced s = record s { is_quiesced = true }

unfoldable pub request_relearn : StreamStatus → StreamStatus
request_relearn s = record s { relearn = true }

-- `swap(false)`: the request that stood, and the status without it.
abbrev pub take_relearn : StreamStatus → Bool × StreamStatus
take_relearn s = (s.relearn, record s { relearn = false })

abbrev pub reset_clipped : StreamStatus → StreamStatus
reset_clipped s = record s { totals = record s.totals { clipped = 0 } }

abbrev pub record_read_error : StreamStatus → StreamStatus
record_read_error s = record s {
  totals = record s.totals { read_errors = add64 s.totals.read_errors 1 };
}

abbrev pub record_short_read : StreamStatus → StreamStatus
record_short_read s = record s {
  totals = record s.totals { short_reads = add64 s.totals.short_reads 1 };
}

abbrev pub record_levels : StreamStatus → LevelStats → StreamStatus
record_levels s l = record s {
  peak_left = l.peak_left;
  peak_right = l.peak_right;
  rms_left = l.rms_left;
  rms_right = l.rms_right;
  totals =
      if ltb 0 l.clipped
      then record s.totals { clipped = add64 s.totals.clipped l.clipped }
      else s.totals;
}

unfoldable pub set_playing : StreamStatus → Bool → StreamStatus
set_playing s playing = record s { playing = playing }

abbrev pub set_noise_floor : StreamStatus → ℕ → StreamStatus
set_noise_floor s floor = record s { noise_floor = floor }

-- `fetch_add`: the sequence number before, and the status after.
unfoldable pub advance_sequence : StreamStatus → ℕ → ℕ × StreamStatus
advance_sequence s packets = (s.sequence, record s { sequence = add32 s.sequence packets })

abbrev pub next_sequence : StreamStatus → ℕ × StreamStatus
unfolding advance_sequence
next_sequence s = advance_sequence s 1

abbrev pub record_queue_drop : StreamStatus → StreamStatus
record_queue_drop s = record s {
  totals = record s.totals { queue_drops = add64 s.totals.queue_drops 1 };
}

unfoldable pub record_capture_loss : StreamStatus → ℕ → StreamStatus
record_capture_loss s packets =
    if ltb 0 packets
    then record s {
      totals = record s.totals {
        capture_lost_packets = add64 s.totals.capture_lost_packets packets;
      };
    }
    else s

abbrev pub record_silence : StreamStatus → StreamStatus
record_silence s = record s {
  totals = record s.totals { silence_packets = add64 s.totals.silence_packets 1 };
}

unfoldable pub record_failed_send : StreamStatus → ℕ → StreamStatus
record_failed_send s packets = record s {
  totals = record s.totals { send_failed_packets = add64 s.totals.send_failed_packets packets };
}

abbrev pub set_queue_depth : StreamStatus → ℕ → StreamStatus
set_queue_depth s depth = record s { queue_depth = depth }

unfoldable pub record_sent_batch : StreamStatus → ℕ → ℕ → Bool → StreamStatus
record_sent_batch s packets payload_bytes reconnected = record s {
  totals = record s.totals {
    reconnects =
        if reconnected && ltb 0 s.totals.packets
        then add64 s.totals.reconnects 1
        else s.totals.reconnects;
    packets = add64 s.totals.packets packets;
    bytes = add64 s.totals.bytes payload_bytes;
  };
}

unfoldable pub record_send_stall : StreamStatus → ℕ → StreamStatus
record_send_stall s stall_ms = record s {
  totals = record s.totals {
    send_stalls = add64 s.totals.send_stalls 1;
    longest_send_stall_ms = max s.totals.longest_send_stall_ms stall_ms;
  };
}

unfoldable pub record_network_error : StreamStatus → Bool → StreamStatus
record_network_error s secure_handshake = record s {
  totals = record s.totals {
    network_errors = add64 s.totals.network_errors 1;
    tls_handshake_failures =
        if secure_handshake
        then add64 s.totals.tls_handshake_failures 1
        else s.totals.tls_handshake_failures;
  };
}
