-- ===== src/Stream/Network.antt =====
-- The network task (firmware/streamline/src/stream/network.rs). The other tasks take turns between its
-- atomic operations: `others` holds what each turn does, and `clock` the readings of the monotonic clock
-- still to come. The socket or TLS sender behind `PacketSink` is a parameter. The limit of
-- `pop_timeout` only bounds how long the turn before the pop lasts.
pub mod Handshake
pub mod Batches
mod Tests
use esp32_streamline.Prelude.{
  ℕ, zero, suc, ◌+◌, ◌-◌, ◌≡◌, refl, Bool, true, false, not, ◌&&◌, Option, none, some, List, [],
  ◌∷◌, ◌++◌, Result, ok, err, ltb, leb, if◌then◌else◌,
}
use esp32_streamline.Prelude.Words.{sat_add64}
use esp32_streamline.Prelude.Bytes.{Text}
use esp32_streamline.Stream.Status.{
  StreamStatus, streaming_enabled, transport_quiesce_requested, set_queue_depth,
  acknowledge_transport_quiesced, record_send_stall, record_sent_batch, record_failed_send,
  record_network_error, set_streaming_enabled, request_transport_quiesce, end_transport_quiesce,
}
use esp32_streamline.Stream.Queue.{PacketStorage, suspend, resume, pop, push_drop_oldest}
use esp32_streamline.Stream.Wire.{as_bytes, payload_bytes}

abbrev control_poll_ms : ℕ
control_poll_ms = 100

abbrev send_stall_ms : ℕ
send_stall_ms = 100

abbrev pub batch_packets : ℕ
batch_packets = 4

abbrev batch_wait_ms : ℕ
batch_wait_ms = 40

-- What another task does in its turn: maintenance asks for and ends the pause, the user's switch is set,
-- the capture task pushes a packet.
pub data Event : Type 0 where
  asks_quiesce ends_quiesce : Event
  switches : Bool → Event
  captures : List ℕ → Event

pub record World : Type 0 where
  pub status : StreamStatus
  pub queue : Option (PacketStorage (List ℕ))
  pub others : List (List Event)
  pub clock : List ℕ

unfoldable pub act : World → Event → World
unfolding request_transport_quiesce end_transport_quiesce set_streaming_enabled
act w asks_quiesce = record w { status = request_transport_quiesce w.status }
act w ends_quiesce = record w { status = end_transport_quiesce w.status }
act w (switches enabled) = record w { status = set_streaming_enabled w.status enabled }
act w (captures packet) = record w { queue = (push_drop_oldest w.queue packet).0 }

unfoldable pub acts : World → List Event → World
unfolding act
acts w [] = w
acts w (e ∷ es) = acts (act w e) es

-- The next turn of the other tasks.
unfoldable pub turn_of : World → List (List Event) → World
unfolding acts
turn_of w [] = w
turn_of w (es ∷ rest) = acts (record w { others = rest }) es

unfoldable pub turn : World → World
unfolding turn_of
turn w = turn_of w w.others

-- `clock.monotonic_millis()`.
pub monotonic_millis : World → List ℕ → ℕ × World
monotonic_millis w [] = (0, w)
monotonic_millis w (t ∷ ts) = (t, record w { clock = ts })

-- `PacketSink`: `send` is given the answer that the closure `ready` gives after the connection is set
-- up, and `connected` tells whether a connection is open, which `disconnect` closes.
pub record PacketSink (S : Type 0) : Type 0 where
  pub send : S → Text → Bool → S × Result Bool (Option Bool)
  pub disconnect : S → S
  pub connected : S → Bool
  pub closes : (s : S) → connected (disconnect s) ≡ false

abbrev pub sending_allowed : StreamStatus → Bool
sending_allowed status = streaming_enabled status && not (transport_quiesce_requested status)

-- `queue.pop_timeout`: the others take a turn while it waits.
pub pop_timeout : World → ℕ → World × Option (List ℕ × ℕ)
unfolding turn pop
pop_timeout w limit_ms =
    let w' = turn w in let (queue, packet) = pop w'.queue in (record w' { queue = queue }, packet)

pub record Batch : Type 0 where
  pub wire : Text
  pub packets : ℕ
  payload : ℕ

-- The bytes of a packet, added to the batch.
unfoldable pub extend : Batch → List ℕ → Batch
unfolding as_bytes payload_bytes
extend b packet = record {
  wire = b.wire ++ as_bytes packet;
  packets = b.packets + 1;
  payload = b.payload + payload_bytes packet;
}

pub empty_batch : Batch
empty_batch = record { wire = []; packets = 0; payload = 0 }

-- `set_queue_depth` of the world's status.
unfoldable pub note_depth : World → ℕ → World
note_depth w depth = record w { status = set_queue_depth w.status depth }

-- The loop that fills a batch; `left` is `BATCH_PACKETS - packets`.
pub fill : ℕ → ℕ → World → Batch → World × Batch
unfolding monotonic_millis pop_timeout extend note_depth
fill zero deadline w b = (w, b)
fill (suc left) deadline w b =
    let (now, w1) = monotonic_millis w w.clock in
    let (w2, popped) = pop_timeout w1 (deadline - now) in
    elim (sending_allowed w.status) [
      | false ↦ (w, b)
      | true ↦ elim popped [
        | none ↦ (w2, b)
        | some (packet, depth) ↦ fill left deadline (note_depth w2 depth) (extend b packet)
      ]
    ]

module _ {S : Type 0} (sink : PacketSink S) where
  -- What `send_batch` records of the sink's answer.
  pub record_outcome : World → Batch → ℕ → Result Bool (Option Bool) → World
  unfolding monotonic_millis record_send_stall record_sent_batch record_failed_send
      record_network_error turn
  record_outcome w b started (ok (some reconnected)) =
      let (ended, w1) = monotonic_millis w w.clock in
      let elapsed = ended - started in
      let status =
        if leb send_stall_ms elapsed then record_send_stall w1.status elapsed else w1.status in
      record w1 { status = record_sent_batch status b.packets b.payload reconnected }
  record_outcome w b started (ok none) = w
  record_outcome w b started (err secure_handshake) = turn (record w {
    status = record_network_error (record_failed_send w.status b.packets) secure_handshake;
  })

  -- The others take a turn while the sink connects.
  pub send_batch : World → S → Batch → World × S
  unfolding monotonic_millis record_outcome turn
  send_batch w s b =
      let (started, w1) = monotonic_millis w w.clock in
      let w2 = turn w1 in
      let (s', outcome) = sink.send s b.wire (sending_allowed w2.status) in
      if sending_allowed w.status then (record_outcome w2 b started outcome, s') else (w, s)

  -- The branch in which sending is not allowed.
  unfoldable pub release : World → S → World × S
  unfolding note_depth turn acknowledge_transport_quiesced suspend
  release w s =
      let closed = turn w in
      let emptied = turn (record closed { queue = suspend closed.queue }) in
      let noted = turn (note_depth emptied 0) in
      let asked = turn noted in
      (
        turn (
            if transport_quiesce_requested noted.status
            then record asked { status = acknowledge_transport_quiesced asked.status }
            else noted),
        sink.disconnect s,
      )

  pub send_from : World → S → Option (List ℕ × ℕ) → World × S
  unfolding monotonic_millis extend empty_batch note_depth fill send_batch
  send_from w s none = (w, s)
  send_from w s (some (packet, depth)) =
      let (now, w1) = monotonic_millis (note_depth w depth) w.clock in
      let deadline = sat_add64 now batch_wait_ms in
      let (w2, b) = fill (batch_packets - 1) deadline w1 (extend empty_batch packet) in
      send_batch w2 s b

  unfoldable pub step : World → S → World × S
  unfolding turn resume pop_timeout send_from release
  step w s =
      let resumed = turn w in
      let (w', popped) =
        pop_timeout (record resumed { queue = resume resumed.queue }) control_poll_ms in
      if sending_allowed w.status then send_from w' s popped else release w s
