-- ===== src/Stream/Network/Handshake.antt =====
-- The handshake with the network task: while a pause is asked for and acknowledged, no connection is open
-- and no packet is held.
use esp32_streamline.Prelude.{
  arith, not, ◌⊎◌, ◌&&◌, Option-cases, leb, ℕ, zero, suc, ◌-◌, ◌≡◌, refl, Bool, true, false,
  Bool-cases, Option, none, some, List, [], ◌∷◌, Result, ok, err, inl, inr,
}
use esp32_streamline.Stream.Status.{
  StreamStatus, transport_quiesce_requested, set_streaming_enabled, request_transport_quiesce,
  end_transport_quiesce, acknowledge_transport_quiesced, record_send_stall, record_sent_batch,
  record_failed_send, record_network_error,
}
use esp32_streamline.Stream.Queue.{suspend, resume, push_drop_oldest}
use esp32_streamline.Prelude.Words.{sat_add64}
use esp32_streamline.Stream.Network.{
  control_poll_ms, send_stall_ms, batch_packets, batch_wait_ms, Event, asks_quiesce, ends_quiesce,
  switches, captures, World, act, acts, turn_of, turn, monotonic_millis, PacketSink,
  sending_allowed, pop_timeout, Batch, fill, note_depth, record_outcome, send_batch, release,
  send_from, step, extend, empty_batch,
}

-- The pause is asked for and acknowledged.
abbrev pub holds_pause : StreamStatus → Bool
holds_pause s = s.transport_quiesce && s.is_quiesced

-- Inside a step that sends: no pause is held yet.
abbrev IsActive : World → Type 0
IsActive w = holds_pause w.status ≡ false

act-IsActive : (w : World) (e : Event) → IsActive w → IsActive (act w e)
unfolding act request_transport_quiesce end_transport_quiesce set_streaming_enabled
act-IsActive w asks_quiesce h = refl
act-IsActive w ends_quiesce h = refl
act-IsActive w (switches enabled) h = h
act-IsActive w (captures packet) h = h

acts-IsActive : (w : World) (es : List Event) → IsActive w → IsActive (acts w es)
unfolding acts
acts-IsActive w [] h = h
acts-IsActive w (e ∷ es) h = acts-IsActive (act w e) es (act-IsActive w e h)

turn_of-IsActive : (w : World) (turns : List (List Event)) → IsActive w → IsActive (turn_of w turns)
unfolding turn_of
turn_of-IsActive w [] h = h
turn_of-IsActive w (es ∷ rest) h = acts-IsActive (record w { others = rest }) es h

turn-IsActive : (w : World) → IsActive w → IsActive (turn w)
unfolding turn
turn-IsActive w h = turn_of-IsActive w w.others h

monotonic_millis-IsActive :
    (w : World) (readings : List ℕ) → IsActive w → IsActive (monotonic_millis w readings).1
unfolding monotonic_millis
monotonic_millis-IsActive w [] h = h
monotonic_millis-IsActive w (t ∷ ts) h = h

pop_timeout-IsActive : (w : World) (limit : ℕ) → IsActive w → IsActive (pop_timeout w limit).0
unfolding pop_timeout
pop_timeout-IsActive w limit h = turn-IsActive w h

fill-IsActive :
    (left deadline : ℕ) (w : World) (b : Batch) → IsActive w → IsActive (fill left deadline w b).0
unfolding fill note_depth
fill-IsActive zero deadline w b h = h
fill-IsActive (suc left) deadline w b h =
    let m = monotonic_millis w w.clock in
    let p = pop_timeout m.1 (deadline - m.0) in
    let hp = pop_timeout-IsActive m.1 (deadline - m.0) (monotonic_millis-IsActive w w.clock h) in
    elim (Bool-cases (sending_allowed w.status)) [
      | inr e ↦ rw (e, fill) h
      | inl e ↦ elim (Option-cases p.1) [
        | inl f ↦ rw (e, fill, f) hp
        | inr ((packet, depth), f) ↦
            rw (e, fill, f)
              (fill-IsActive left deadline (note_depth p.0 depth) (extend b packet) hp)
      ]
    ]

module _ {S : Type 0} (sink : PacketSink S) where
  record_outcome-IsActive :
      (w : World) (b : Batch) (started : ℕ) (outcome : Result Bool (Option Bool))
      → IsActive w
      → IsActive (record_outcome sink w b started outcome)
  unfolding record_outcome record_sent_batch record_send_stall record_failed_send
      record_network_error
  record_outcome-IsActive w b started (ok none) h = h
  record_outcome-IsActive w b started (ok (some reconnected)) h =
      let m = monotonic_millis w w.clock in
      let hm = monotonic_millis-IsActive w w.clock h in
      elim (Bool-cases (leb send_stall_ms (m.0 - started))) [
        | inl e ↦ rw (e) hm
        | inr e ↦ rw (e) hm
      ]
  record_outcome-IsActive w b started (err secure) h =
      let status = record_network_error (record_failed_send w.status b.packets) secure in
      turn-IsActive (record w { status = status }) h

  send_batch-IsActive :
      (w : World) (s : S) (b : Batch) → IsActive w → IsActive (send_batch sink w s b).0
  unfolding send_batch
  send_batch-IsActive w s b h =
      let m = monotonic_millis w w.clock in
      let t = turn m.1 in
      let o = sink.send s b.wire (sending_allowed t.status) in
      let ht = turn-IsActive m.1 (monotonic_millis-IsActive w w.clock h) in
      elim (Bool-cases (sending_allowed w.status)) [
        | inr e ↦ rw (e) h
        | inl e ↦ rw (e) (record_outcome-IsActive t b m.0 o.1 ht)
      ]

  send_from-IsActive :
      (w : World) (s : S) (popped : Option (List ℕ × ℕ))
      → IsActive w
      → IsActive (send_from sink w s popped).0
  unfolding send_from
  send_from-IsActive w s none h = h
  send_from-IsActive w s (some (packet, depth)) h =
      let m = monotonic_millis (note_depth w depth) w.clock in
      let f =
        fill (batch_packets - 1) (sat_add64 m.0 batch_wait_ms) m.1 (extend empty_batch packet) in
      send_batch-IsActive f.0 s f.1 (
        fill-IsActive (batch_packets - 1) (sat_add64 m.0 batch_wait_ms) m.1
          (extend empty_batch packet) (monotonic_millis-IsActive (note_depth w depth) w.clock h))

no_pause_in_force :
    (paused asked acknowledged : Bool)
    → (not paused && not asked) ≡ true
    → (asked && acknowledged) ≡ false
no_pause_in_force paused asked acknowledged h = ground arith

-- The queue stays suspended whatever the others do.
pub act-suspended : (w : World) (e : Event) → w.queue ≡ none → (act w e).queue ≡ none
unfolding act push_drop_oldest request_transport_quiesce end_transport_quiesce set_streaming_enabled
act-suspended w asks_quiesce h = h
act-suspended w ends_quiesce h = h
act-suspended w (switches enabled) h = h
act-suspended w (captures packet) h = rw (h) refl

acts-suspended : (w : World) (es : List Event) → w.queue ≡ none → (acts w es).queue ≡ none
unfolding acts
acts-suspended w [] h = h
acts-suspended w (e ∷ es) h = acts-suspended (act w e) es (act-suspended w e h)

turn_of-suspended :
    (w : World) (turns : List (List Event)) → w.queue ≡ none → (turn_of w turns).queue ≡ none
unfolding turn_of
turn_of-suspended w [] h = h
turn_of-suspended w (es ∷ rest) h = acts-suspended (record w { others = rest }) es h

turn-suspended : (w : World) → w.queue ≡ none → (turn w).queue ≡ none
unfolding turn
turn-suspended w h = turn_of-suspended w w.others h

module _ {S : Type 0} (sink : PacketSink S) where
  -- No connection is open and no packet is held.
  abbrev pub IsReleased : World → S → Type 0
  IsReleased w s = (w.queue ≡ none) × (sink.connected s ≡ false)

  pub release-IsReleased :
      (w : World) (s : S) → IsReleased (release sink w s).0 (release sink w s).1
  unfolding release suspend note_depth acknowledge_transport_quiesced
  release-IsReleased w s =
      let closed = turn w in
      let emptied = turn (record closed { queue = none }) in
      let he = turn-suspended (record closed { queue = none }) refl in
      let noted = turn (note_depth emptied 0) in
      let hn = turn-suspended (note_depth emptied 0) he in
      let asked = turn noted in
      let ha = turn-suspended noted hn in
      elim (Bool-cases (transport_quiesce_requested noted.status)) [
        | inl e ↦ rw (e) (
          turn-suspended (record asked { status = acknowledge_transport_quiesced asked.status }) ha,
          sink.closes s,
        )
        | inr e ↦ rw (e) (turn-suspended noted hn, sink.closes s)
      ]

  -- A pause that is held finds everything released.
  abbrev pub IsHandshake : World → S → Type 0
  IsHandshake w s = IsActive w ⊎ IsReleased w s

  pub act-IsHandshake : (w : World) (s : S) (e : Event) → IsHandshake w s → IsHandshake (act w e) s
  act-IsHandshake w s e (inl h) = inl (act-IsActive w e h)
  act-IsHandshake w s e (inr (q, c)) = inr (act-suspended w e q, c)

  step-sends-IsActive :
      (w : World) (s : S) → sending_allowed w.status ≡ true → IsActive (step sink w s).0
  unfolding step
  step-sends-IsActive w s e =
      let resumed = turn w in
      let active : IsActive w =
        no_pause_in_force w.status.paused w.status.transport_quiesce w.status.is_quiesced e in
      let p = pop_timeout (record resumed { queue = resume resumed.queue }) control_poll_ms in
      let hp =
        pop_timeout-IsActive (record resumed { queue = resume resumed.queue }) control_poll_ms
          (turn-IsActive w active) in
      rw (e, step) (send_from-IsActive sink p.0 s p.1 hp)

  pub step-IsHandshake : (w : World) (s : S) → IsHandshake (step sink w s).0 (step sink w s).1
  unfolding step
  step-IsHandshake w s = elim (Bool-cases (sending_allowed w.status)) [
    | inl e ↦ inl (step-sends-IsActive w s e)
    | inr e ↦ rw (e, step) (inr (release-IsReleased w s))
  ]
