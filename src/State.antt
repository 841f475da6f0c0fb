-- ===== src/State.antt =====
-- The persistent state (firmware/streamline/src/state.rs): two slots and a commit marker that names the slot
-- in force and the one before it.
pub mod Laws
pub mod Reading
pub mod Stale
pub mod Fresh
pub mod Atomic
mod Tests
use esp32_streamline.Prelude.{
  ℕ, Bool, true, false, not, ◌&&◌, ◌||◌, Option, none, some, Result, ok, err, length, ltb,
  if◌then◌else◌, ◌>>=◌, ◌>>◌, refuse_if, map_err, is_some,
}
use esp32_streamline.Prelude.Bytes.{Text, text_eq}
use esp32_streamline.Hex.{encode}
use esp32_streamline.Config.{RuntimeConfig}

abbrev pub max_state_bytes : ℕ
max_state_bytes = 3840

abbrev pub max_marker_bytes : ℕ
max_marker_bytes = 256

-- `Profiles` stands for `AudioProfileCatalog`, which the store only carries.
pub record PersistentState (Profiles : Type 0) : Type 0 where
  pub config : Option RuntimeConfig
  pub board_id : Option Text
  pub board_descriptor : Option Text
  pub profiles : Option Profiles

pub data Slot : Type 0 where
  slot_a slot_b : Slot

abbrev pub other : Slot → Slot
other slot_a = slot_b
other slot_b = slot_a

-- The keys "state_a", "state_b" and "state_commit".
pub data Key : Type 0 where
  state_a state_b state_commit : Key

abbrev pub slot_key : Slot → Key
slot_key slot_a = state_a
slot_key slot_b = state_b

pub record Snapshot : Type 0 where
  pub slot : Slot
  pub sha256 : Text

pub record Commit : Type 0 where
  pub active : Snapshot
  pub previous : Option Snapshot

pub data StateError (E : Type 0) : Type 0 where
  storage_error : E → StateError E
  invalid_record oversized_state : StateError E

-- The trait `GenerationStorage`, with the device as a value that `set` gives back.
pub record Storage (E Device : Type 0) : Type 0 where
  pub get : Device → Key → Result E (Option Text)
  pub set : Device → Key → Text → Device × Result E (Unit {0})

-- serde_json on the two record types that are stored, and SHA-256.
pub record Codec (Profiles : Type 0) : Type 0 where
  pub encode_state : PersistentState Profiles → Option Text
  pub decode_state : Text → Option (PersistentState Profiles)
  pub encode_commit : Commit → Option Text
  pub decode_commit : Text → Option Commit
  pub digest : Text → Text

abbrev or_invalid {ℓ} : {E : Type 0} {A : Type ℓ} → Option A → Result (StateError E) A
or_invalid none = err invalid_record
or_invalid (some a) = ok a

module _ {E Device P : Type 0} (storage : Storage E Device) (codec : Codec P) where
  pub checksum : Text → Text
  checksum value = encode (codec.digest value)

  -- One round of the loop over the snapshots; `continue` is `none`.
  pub accept_value : Snapshot → Option Text → Option (PersistentState P)
  accept_value snapshot none = none
  accept_value snapshot (some value) =
      if ltb max_state_bytes (length value) || not (text_eq (checksum value) snapshot.sha256)
      then none
      else codec.decode_state value

  pub read_snapshot : Device → Snapshot → Result (StateError E) (Option (PersistentState P))
  read_snapshot d snapshot =
      map_err storage_error (storage.get d (slot_key snapshot.slot)) >>= λ value.
      ok (accept_value snapshot value)

  abbrev Committed : Type 0
  Committed = Result (StateError E) (Option (Snapshot × PersistentState P))

  pub or_previous : Device → Option Snapshot → Snapshot → Option (PersistentState P) → Committed
  or_previous d previous active (some state) = ok (some (active, state))
  or_previous d none active none = ok none
  or_previous d (some previous) active none = read_snapshot d previous >>= λ found. elim found [
    | none ↦ ok none
    | some state ↦ ok (some (previous, state))
  ]

  pub read_commit : Device → Option Commit → Committed
  read_commit d none = ok none
  read_commit d (some commit) =
      read_snapshot d commit.active >>= or_previous d commit.previous commit.active

  pub parse_marker : Option Text → Option Commit
  parse_marker none = none
  parse_marker (some marker) =
      if ltb max_marker_bytes (length marker) then none else codec.decode_commit marker

  pub committed : Device → Committed
  committed d = map_err storage_error (storage.get d state_commit) >>= λ marker.
      read_commit d (parse_marker marker)

  pub state_of : Option (Snapshot × PersistentState P) → Option (PersistentState P)
  state_of none = none
  state_of (some (_, state)) = some state

  pub load : Device → Result (StateError E) (Option (PersistentState P))
  load d = committed d >>= λ found. ok (state_of found)

  pub next_slot : Option (Snapshot × PersistentState P) → Slot
  next_slot none = slot_a
  next_slot (some (snapshot, _)) = other snapshot.slot

  -- A reset does not keep the state that it removes.
  pub kept : PersistentState P → Option (Snapshot × PersistentState P) → Option Snapshot
  kept state none = none
  kept state (some (snapshot, previous)) =
      if is_some state.config && is_some previous.config then some snapshot else none

  pub next_commit : PersistentState P → Text → Option (Snapshot × PersistentState P) → Commit
  next_commit state encoded current = record {
    active = record { slot = next_slot current; sha256 = checksum encoded };
    previous = kept state current;
  }

  pub write : Device → Slot → Text → Text → Device × Result (StateError E) (Unit {0})
  write d slot encoded marker =
      let (d, first) = storage.set d (slot_key slot) encoded in
      elim first [
        | err e ↦ (d, err (storage_error e))
        | ok _ ↦
            let (d, second) = storage.set d state_commit marker in (d, map_err storage_error second)
      ]

  pub prepare : Device → PersistentState P → Result (StateError E) (Slot × Text × Text)
  prepare d state = or_invalid (codec.encode_state state) >>= λ encoded.
      refuse_if (ltb max_state_bytes (length encoded)) oversized_state
      >> (committed d >>= λ current.
          or_invalid (codec.encode_commit (next_commit state encoded current)) >>= λ marker.
          ok (next_slot current, encoded, marker))

  pub write_prepared :
      Device
      → Result (StateError E) (Slot × Text × Text)
      → Device × Result (StateError E) (Unit {0})
  write_prepared d (err e) = (d, err e)
  write_prepared d (ok (slot, encoded, marker)) = write d slot encoded marker

  pub save : Device → PersistentState P → Device × Result (StateError E) (Unit {0})
  save d state = write_prepared d (prepare d state)
