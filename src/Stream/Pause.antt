-- ===== src/Stream/Pause.antt =====
-- `pause_transport` of firmware/streamline/src/stream/pause.rs. While it waits, the network task and the
-- others run: `waits` holds what they do in each wait. The guard of the source is the success: who holds
-- it drops it by `drop`.
pub mod Exclusive
use esp32_streamline.Prelude.{
  ℕ, zero, suc, ◌/◌, ◌≡◌, Bool, true, false, List, [], ◌∷◌, Result, ok, err, if◌then◌else◌,
}
use esp32_streamline.Prelude.Bytes.{Text, bytes}
use esp32_streamline.Stream.Status.{
  request_transport_quiesce, end_transport_quiesce, transport_quiesced,
}
use esp32_streamline.Stream.Network.{Event, World, act, PacketSink, step}

abbrev poll_ms : ℕ
poll_ms = 100

abbrev timeout_ms : ℕ
timeout_ms = 10000

-- What runs while the maintenance task waits: a step of the network task, or an act of another.
pub data Move : Type 0 where
  sends : Move
  acted : Event → Move

-- The waits after the next.
abbrev pub later : List (List Move) → List (List Move)
later [] = []
later (ms ∷ waits) = waits

module _ {S : Type 0} (sink : PacketSink S) where
  pub move : World × S → Move → World × S
  unfolding step
  move (w, s) sends = step sink w s
  move (w, s) (acted e) = (act w e, s)

  unfoldable pub moves : World × S → List Move → World × S
  unfolding move
  moves ws [] = ws
  moves ws (m ∷ ms) = moves (move ws m) ms

  -- The drop of the guard.
  pub drop : World × S → World × S
  unfolding end_transport_quiesce
  drop (w, s) = (record w { status = end_transport_quiesce w.status }, s)

  -- The two stores of `request_transport_quiesce` are one action.
  unfoldable pub request : World × S → World × S
  unfolding request_transport_quiesce
  request (w, s) = (record w { status = request_transport_quiesce w.status }, s)

  -- `wait_ms`: the next wait.
  pub wait_ms : World × S → List (List Move) → World × S
  unfolding moves
  wait_ms ws [] = ws
  wait_ms ws (ms ∷ waits) = moves ws ms

  pub poll : ℕ → World × S → List (List Move) → (World × S) × Result Text (Unit {0})
  unfolding transport_quiesced wait_ms drop
  poll zero ws waits = (drop ws, err (bytes "audio streaming did not pause in time"))
  poll (suc left) ws waits =
      let rest = poll left (wait_ms ws waits) (later waits) in
      if transport_quiesced ws.0.status then (ws, ok tt) else rest

  pub pause_transport : World × S → List (List Move) → (World × S) × Result Text (Unit {0})
  unfolding request poll
  pause_transport ws waits = poll (timeout_ms / poll_ms) (request ws) waits
