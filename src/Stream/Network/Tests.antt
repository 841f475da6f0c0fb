-- ===== src/Stream/Network/Tests.antt =====
-- Runs of the network task over a `ReconnectingSender` whose stream collects what is written.
use esp32_streamline.Stream.Wire.{as_bytes}
use esp32_streamline.Prelude.{
  ℕ, ◌≡◌, refl, Bool, true, false, Option, none, some, List, [], ◌∷◌, ◌++◌, Result, ok, replicate,
  arith, is_ok,
}
use esp32_streamline.Prelude.Bytes.{Text}
use esp32_streamline.Transport.Sender.{Sender, new, disconnect, send_all, admit, deliver}
use esp32_streamline.Stream.Status.{StreamStatus}
use esp32_streamline.Stream.Queue.{PacketStorage, new_storage, push_back}
use esp32_streamline.Stream.Queue.Refine.{new-Holds}
use esp32_streamline.Stream.Queue.Storage.{Holds, push_back-Holds}
use esp32_streamline.Stream.Network.{PacketSink, World, captures, sending_allowed, step}
use esp32_streamline.Stream.Network.Batches.{alone, HasSent, spec_send, step-sends}
use esp32_streamline.Stream.Network.Handshake.{IsReleased}
use esp32_streamline.Stream.Pause.{pause_transport, moves, sends, acted}
use esp32_streamline.Stream.Pause.Exclusive.{pause_transport-exclusive, pause_transport-answers}

abbrev open_stream : Unit {0} → Unit {0} × Result Bool Text
open_stream c = (c, ok [])

abbrev write_stream : Text → Text → Text × Result Bool (Unit {0})
write_stream sent more = (sent ++ more, ok tt)

abbrev collecting_send :
    Sender (Unit {0}) Text → Text → Bool → Sender (Unit {0}) Text × Result Bool (Option Bool)
unfolding send_all admit deliver
collecting_send s wire ready = send_all open_stream write_stream s wire ready

abbrev has_stream : Option Text → Bool
has_stream none = false
has_stream (some t) = true

abbrev is_connected : Sender (Unit {0}) Text → Bool
is_connected s = has_stream s.stream

disconnect-closes : (s : Sender (Unit {0}) Text) → is_connected (disconnect s) ≡ false
unfolding disconnect
disconnect-closes s = refl

abbrev collecting : PacketSink (Sender (Unit {0}) Text)
collecting = record {
  send = collecting_send;
  disconnect = disconnect;
  connected = is_connected;
  closes = disconnect-closes;
}

abbrev idle_status : StreamStatus
idle_status = record {
  sequence = 0;
  totals = record {
    packets = 0;
    bytes = 0;
    read_errors = 0;
    short_reads = 0;
    queue_drops = 0;
    capture_lost_packets = 0;
    silence_packets = 0;
    send_failed_packets = 0;
    network_errors = 0;
    tls_handshake_failures = 0;
    reconnects = 0;
    send_stalls = 0;
    longest_send_stall_ms = 0;
    clipped = 0;
  };
  queue_depth = 0;
  peak_left = 0;
  peak_right = 0;
  rms_left = 0;
  rms_right = 0;
  noise_floor = 0;
  playing = false;
  relearn = false;
  paused = false;
  transport_quiesce = false;
  transport_present = true;
  is_quiesced = false;
}

abbrev sender : Sender (Unit {0}) Text
unfolding new
sender = new tt

abbrev short_packet : List ℕ
short_packet = replicate 20 7 ++ 0 ∷ 0 ∷ 0 ∷ 0 ∷ []

one_queued : PacketStorage (List ℕ)
one_queued = push_back (new_storage (List ℕ)) short_packet

one_queued-Holds : Holds one_queued (short_packet ∷ [])
unfolding one_queued
one_queued-Holds =
    push_back-Holds (new_storage (List ℕ)) short_packet [] (omega arith) (new-Holds (List ℕ))

step-sends_example :
    HasSent collecting
      (step collecting (alone idle_status one_queued []) sender)
      (spec_send collecting sender (short_packet ∷ []))
      []
step-sends_example =
    step-sends collecting idle_status one_queued [] sender (short_packet ∷ []) refl one_queued-Holds

sent_bytes : (spec_send collecting sender (short_packet ∷ [])).stream ≡ some short_packet
unfolding spec_send send_all admit deliver sender as_bytes
sent_bytes = refl

started : World
started = alone idle_status one_queued []

pause_transport-exclusive_example :
    let granted =
      moves collecting
        (pause_transport collecting (started, sender) ((sends ∷ []) ∷ [])).0
        (sends ∷ acted (captures short_packet) ∷ sends ∷ []) in
    IsReleased collecting granted.0 granted.1 × (sending_allowed granted.0.status ≡ false)
unfolding started
pause_transport-exclusive_example =
    pause_transport-exclusive collecting started sender ((sends ∷ []) ∷ [])
      (sends ∷ acted (captures short_packet) ∷ sends ∷ []) refl tt (tt, tt) (tt, tt)
      (pause_transport-answers collecting started sender [] [] refl tt tt (omega arith))

pause_transport-answers_example :
    is_ok (pause_transport collecting (started, sender) ([] ∷ (sends ∷ []) ∷ [])).1 ≡ true
unfolding started
pause_transport-answers_example =
    pause_transport-answers collecting started sender ([] ∷ []) [] refl tt (tt, tt) (omega arith)
