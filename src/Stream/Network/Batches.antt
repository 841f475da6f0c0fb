-- ===== src/Stream/Network/Batches.antt =====
-- What a step of the network task sends: the oldest packets of the queue, at most four, byte for byte.
use esp32_streamline.Prelude.{
  ℕ, zero, suc, ◌≡◌, refl, ap, sym, ◌∙◌, Bool, true, Option, none, some, List, [], ◌∷◌, ◌++◌, take,
  drop, Result, ok, err,
}
use mathlib.Core.List.{append-nil, append_assoc}
use esp32_streamline.Prelude.Words.{sat_add64}
use esp32_streamline.Prelude.Bytes.{Text}
use esp32_streamline.Stream.Status.{StreamStatus}
use esp32_streamline.Stream.Queue.{PacketStorage, pop, pop_front, resume}
use esp32_streamline.Stream.Queue.Storage.{Holds, pop_front-Holds, pop_front-empty}
use esp32_streamline.Stream.Wire.{as_bytes}
use esp32_streamline.Stream.Network.{
  World, turn, turn_of, monotonic_millis, PacketSink, sending_allowed, pop_timeout, Batch, fill,
  note_depth, send_batch, send_from, step, extend, empty_batch, batch_packets, batch_wait_ms,
  record_outcome,
}

-- Packets one after the other on the wire.
abbrev wire_of : List (List ℕ) → Text
wire_of [] = []
wire_of (p ∷ ps) = as_bytes p ++ wire_of ps

-- The batch with the packets added.
abbrev extended : Batch → List (List ℕ) → Batch
extended b [] = b
extended b (p ∷ ps) = extended (extend b p) ps

-- The task has the queue to itself: no other task acts.
abbrev pub alone : StreamStatus → PacketStorage (List ℕ) → List ℕ → World
alone status q clock = record { status = status; queue = some q; others = []; clock = clock }

later : List ℕ → List ℕ
later [] = []
later (t ∷ ts) = ts

-- One turn of the loop, on an empty queue and on one with a first packet.
fill-empty :
    (left deadline : ℕ) (status : StreamStatus) (q : PacketStorage (List ℕ)) (clock : List ℕ)
    (b : Batch)
    → sending_allowed status ≡ true
    → (pop_front q).1 ≡ none
    → fill (suc left) deadline (alone status q clock) b
      ≡ (alone status (pop_front q).0 (later clock), b)
unfolding fill monotonic_millis pop_timeout pop turn turn_of later
fill-empty left deadline status q [] b e f = rw (e, f, fill) refl
fill-empty left deadline status q (t ∷ ts) b e f = rw (e, f, fill) refl

fill-first :
    (left deadline : ℕ) (status : StreamStatus) (q : PacketStorage (List ℕ)) (clock : List ℕ)
    (b : Batch) (p : List ℕ)
    → sending_allowed status ≡ true
    → (pop_front q).1 ≡ some p
    → fill (suc left) deadline (alone status q clock) b
      ≡ fill left deadline
          (alone
            (record status { queue_depth = (pop_front q).0.len })
            (pop_front q).0
            (later clock))
          (extend b p)
unfolding fill monotonic_millis pop_timeout pop turn turn_of later note_depth
fill-first left deadline status q [] b p e f = rw (e, f, fill) refl
fill-first left deadline status q (t ∷ ts) b p e f = rw (e, f, fill) refl

pop-empty : (q : PacketStorage (List ℕ)) → Holds q [] → (pop (some q)).1 ≡ none
unfolding pop
pop-empty q h = rw (ap (λ r. r.1) (pop_front-empty q h.len_is), pop) refl

pop-first :
    (q : PacketStorage (List ℕ)) (p : List ℕ) (ps : List (List ℕ))
    → Holds q (p ∷ ps)
    → (pop (some q)).1 ≡ some (p, (pop_front q).0.len)
unfolding pop
pop-first q p ps h = rw ((pop_front-Holds q p ps h).1, pop) refl

-- What the loop collects from a queue that holds `ps`, and what it leaves there.
record Filled (w : World) (b : Batch) (left : ℕ) (ps : List (List ℕ)) (result : World × Batch)
    : Type 0 where
  status : StreamStatus
  storage : PacketStorage (List ℕ)
  clock : List ℕ
  batch_is : result ≡ (alone status storage clock, extended b (take left ps))
  holds : Holds storage (drop left ps)
  allowed : sending_allowed status ≡ true

fill-Filled :
    (left deadline : ℕ) (status : StreamStatus) (q : PacketStorage (List ℕ)) (clock : List ℕ)
    (b : Batch) (ps : List (List ℕ))
    → sending_allowed status ≡ true
    → Holds q ps
    → Filled (alone status q clock) b left ps (fill left deadline (alone status q clock) b)
unfolding fill note_depth
fill-Filled zero deadline status q clock b ps e h = record {
  status = status;
  storage = q;
  clock = clock;
  batch_is = refl;
  holds = h;
  allowed = e;
}
fill-Filled (suc left) deadline status q clock b [] e h =
    let f = pop_front-empty q h.len_is in
    record {
      status = status;
      storage = (pop_front q).0;
      clock = later clock;
      batch_is = fill-empty left deadline status q clock b e (ap (λ r. r.1) f);
      holds = rw (f) h;
      allowed = e;
    }
fill-Filled (suc left) deadline status q clock b (p ∷ ps) e h =
    let q' = (pop_front q).0 in
    let (h', f) = pop_front-Holds q p ps h in
    let r =
      fill-Filled left deadline (record status { queue_depth = q'.len }) q' (later clock)
        (extend b p) ps e h' in
    record {
      status = r.status;
      storage = r.storage;
      clock = r.clock;
      batch_is = fill-first left deadline status q clock b p e f ∙ r.batch_is;
      holds = r.holds;
      allowed = r.allowed;
    }

extended-wire : (b : Batch) (ps : List (List ℕ)) → (extended b ps).wire ≡ b.wire ++ wire_of ps
unfolding extend
extended-wire b [] = sym (append-nil b.wire)
extended-wire b (p ∷ ps) =
    extended-wire (extend b p) ps ∙ append_assoc b.wire (as_bytes p) (wire_of ps)

module _ {S : Type 0} (sink : PacketSink S) where
  -- What the sink is asked to do with a queue that holds `ps`.
  unfoldable pub spec_send : S → List (List ℕ) → S
  spec_send s [] = s
  spec_send s (p ∷ ps) = (sink.send s (wire_of (take batch_packets (p ∷ ps))) true).0

  send_batch-alone :
      (status : StreamStatus) (q : PacketStorage (List ℕ)) (clock : List ℕ) (s : S) (b : Batch)
      → sending_allowed status ≡ true
      → (send_batch sink (alone status q clock) s b).1 ≡ (sink.send s b.wire true).0
  unfolding send_batch monotonic_millis turn turn_of
  send_batch-alone status q [] s b e = rw (e, send_batch) refl
  send_batch-alone status q (t ∷ ts) s b e = rw (e, send_batch) refl

  record_outcome-queue :
      (status : StreamStatus) (q : PacketStorage (List ℕ)) (clock : List ℕ) (b : Batch)
      (started : ℕ) (outcome : Result Bool (Option Bool))
      → (record_outcome sink (alone status q clock) b started outcome).queue ≡ some q
  unfolding record_outcome monotonic_millis turn turn_of
  record_outcome-queue status q [] b started (ok (some reconnected)) = refl
  record_outcome-queue status q (t ∷ ts) b started (ok (some reconnected)) = refl
  record_outcome-queue status q clock b started (ok none) = refl
  record_outcome-queue status q clock b started (err secure) = refl

  send_batch-queue :
      (status : StreamStatus) (q : PacketStorage (List ℕ)) (clock : List ℕ) (s : S) (b : Batch)
      → sending_allowed status ≡ true
      → (send_batch sink (alone status q clock) s b).0.queue ≡ some q
  unfolding send_batch monotonic_millis turn turn_of
  send_batch-queue status q [] s b e =
      rw (e, send_batch) (record_outcome-queue status q [] b 0 (sink.send s b.wire true).1)
  send_batch-queue status q (t ∷ ts) s b e =
      rw (e, send_batch) (record_outcome-queue status q ts b t (sink.send s b.wire true).1)

  -- What a step leaves: the sink that was given the packets, and the rest of the queue.
  abbrev pub HasSent : World × S → S → List (List ℕ) → Type 0
  HasSent ws s ps = (ws.1 ≡ s) × ((q : PacketStorage (List ℕ)) × (ws.0.queue ≡ some q) × Holds q ps)

  Filled-HasSent :
      (w : World) (s : S) (p : List ℕ) (ps : List (List ℕ)) (result : World × Batch)
      → Filled w (extend empty_batch p) 3 ps result
      → HasSent (send_batch sink result.0 s result.1) (spec_send s (p ∷ ps)) (drop 3 ps)
  unfolding spec_send extend empty_batch
  Filled-HasSent w s p ps result f =
      let b = extended (extend empty_batch p) (take 3 ps) in
      rw (f.batch_is) (
        send_batch-alone f.status f.storage f.clock s b f.allowed
            ∙ ap (λ wire. (sink.send s wire true).0)
                (extended-wire (extend empty_batch p) (take 3 ps)),
        (f.storage, send_batch-queue f.status f.storage f.clock s b f.allowed, f.holds),
      )

  send_from-HasSent :
      (status : StreamStatus) (q : PacketStorage (List ℕ)) (clock : List ℕ) (s : S) (p : List ℕ)
      (ps : List (List ℕ)) (depth : ℕ)
      → sending_allowed status ≡ true
      → Holds q ps
      → HasSent
          (send_from sink (alone status q clock) s (some (p, depth)))
          (spec_send s (p ∷ ps))
          (drop 3 ps)
  unfolding send_from monotonic_millis note_depth
  send_from-HasSent status q [] s p ps depth e h =
      let noted = record status { queue_depth = depth } in
      Filled-HasSent (alone noted q []) s p ps _
        (fill-Filled 3 (sat_add64 0 batch_wait_ms) noted q [] (extend empty_batch p) ps e h)
  send_from-HasSent status q (t ∷ ts) s p ps depth e h =
      let noted = record status { queue_depth = depth } in
      Filled-HasSent (alone noted q ts) s p ps _
        (fill-Filled 3 (sat_add64 t batch_wait_ms) noted q ts (extend empty_batch p) ps e h)

  step-sending :
      (status : StreamStatus) (q : PacketStorage (List ℕ)) (clock : List ℕ) (s : S)
      → sending_allowed status ≡ true
      → step sink (alone status q clock) s
        ≡ send_from sink (alone status (pop_front q).0 clock) s (pop (some q)).1
  unfolding step turn turn_of pop_timeout resume pop
  step-sending status q clock s e = rw (e, step) refl

  -- With sending allowed and no other task acting, a step of the network task gives the sink the bytes of
  -- the oldest packets of the queue, at most four, one after the other, and leaves exactly the rest queued;
  -- with an empty queue it leaves the sink alone.
  pub step-sends :
      (status : StreamStatus) (q : PacketStorage (List ℕ)) (clock : List ℕ) (s : S)
      (ps : List (List ℕ))
      → sending_allowed status ≡ true
      → Holds q ps
      → HasSent (step sink (alone status q clock) s) (spec_send s ps) (drop batch_packets ps)
  unfolding spec_send send_from
  step-sends status q clock s [] e h =
      let f = pop_front-empty q h.len_is in
      rw (step-sending status q clock s e, pop-empty q h) (refl, (q, ap (λ r. some r.0) f, h))
  step-sends status q clock s (p ∷ ps) e h =
      rw (step-sending status q clock s e, pop-first q p ps h)
        (send_from-HasSent status (pop_front q).0 clock s p ps (pop_front q).0.len e
          (pop_front-Holds q p ps h).0)
