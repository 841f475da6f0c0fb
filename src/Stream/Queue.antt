-- ===== src/Stream/Queue.antt =====
-- The packet queue between the capture and network tasks (firmware/streamline/src/stream/queue.rs).
-- Each method holds the mutex for its whole body, so a run of the two tasks is a sequence of calls. The
-- wait of `pop_timeout` is not modelled: `pop` is what it does with the state in which the wait ended.
pub mod Storage
pub mod Capacity
pub mod Refine
use esp32_streamline.Prelude.{
  ℕ, ◌+◌, ◌-◌, ◌/◌, ◌%◌, Bool, true, false, Option, none, some, List, [], ◌∷◌, ◌++◌, get_or, set,
  replicate, ◌==◌, if◌then◌else◌,
}

abbrev pub queue_depth : ℕ
queue_depth = 48

abbrev pub chunk_depth : ℕ
chunk_depth = 8

abbrev pub chunk_count : ℕ
chunk_count = queue_depth / chunk_depth

-- `VecDeque::pop_front`.
abbrev front {ℓ} : {T : Type ℓ} → List T → Option T
front [] = none
front (x ∷ xs) = some x

abbrev pub without_front {ℓ} : {T : Type ℓ} → List T → List T
without_front [] = []
without_front (x ∷ xs) = xs

pub record PacketStorage (T : Type 0) : Type 0 where
  pub chunks : List (List T)
  pub head : ℕ
  pub len : ℕ

module _ {T : Type 0} where
  abbrev pub chunk : List (List T) → ℕ → List T
  chunk cs i = get_or cs i []

  pub pop_front : PacketStorage T → PacketStorage T × Option T
  pop_front s =
      let i = s.head / chunk_depth in
      if s.len == 0 then (s, none) else (
        record s {
          chunks = set s.chunks i (without_front (chunk s.chunks i));
          head = (s.head + 1) % queue_depth;
          len = s.len - 1;
        },
        front (chunk s.chunks i),
      )

  pub push_back : PacketStorage T → T → PacketStorage T
  push_back s packet =
      let i = (s.head + s.len) % queue_depth / chunk_depth in
      record s { chunks = set s.chunks i (chunk s.chunks i ++ packet ∷ []); len = s.len + 1 }

  -- Whether a packet was dropped, and the depth left: `(dropped, depth)`.
  unfoldable pub push_drop_oldest :
      Option (PacketStorage T) → T → Option (PacketStorage T) × Bool × ℕ
  push_drop_oldest none packet = (none, false, 0)
  push_drop_oldest (some s) packet =
      let full = s.len == queue_depth in
      let kept = push_back (if full then (pop_front s).0 else s) packet in
      (some kept, full, kept.len)

  unfoldable pub suspend : Option (PacketStorage T) → Option (PacketStorage T)
  suspend q = none

  -- `let packets = packets.as_mut()?; let packet = packets.pop_front()?; Some((packet, packets.len))`.
  unfoldable pub pop : Option (PacketStorage T) → Option (PacketStorage T) × Option (T × ℕ)
  pop none = (none, none)
  pop (some s) =
      let (s', packet) = pop_front s in
      (some s', elim packet [ none ↦ none | some p ↦ some (p, s'.len) ])

pub new_storage : (T : Type 0) → PacketStorage T
new_storage T = record { chunks = replicate chunk_count []; head = 0; len = 0 }

-- `get_or_insert_with(PacketStorage::new)`.
unfoldable pub resume : {T : Type 0} → Option (PacketStorage T) → Option (PacketStorage T)
resume {T} none = some (new_storage T)
resume (some s) = some s
