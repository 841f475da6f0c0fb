-- ===== src/Transport/Keys.antt =====
-- The key slots of firmware/streamline/src/transport.rs: `KeySlot`, `TransportKeys` and its methods.
-- A method with `&mut self` returns the keys that it leaves, beside its `Result`.
pub mod Lifecycle
pub mod Refine
pub mod Ids
pub mod Validity
pub mod Safety
mod Tests
use esp32_streamline.Prelude.{
  ℕ, ◌+◌, ◌*◌, Bool, true, false, not, ◌&&◌, ◌||◌, List, ◌++◌, Option, none, some, Result, ok, err,
  length, drop, leb, ◌==◌, if◌then◌else◌, ◌>>◌, refuse_if, is_some, is_none, is_some_and, and_then,
}
use esp32_streamline.Prelude.Bytes.{Text, bytes, text_eq, all_bytes, starts_with}
use esp32_streamline.Hex.{encode, psk_bytes}

abbrev pub key_id_random_bytes : ℕ
key_id_random_bytes = 16

abbrev key_id_prefix : Text
key_id_prefix = bytes "eli1-"

abbrev tls_identity_prefix : Text
tls_identity_prefix = bytes "eli1:1:"

pub data TransportError : Type 0 where
  unsupported_version invalid_key_state invalid_key_id duplicate_key_id : TransportError
  pending_key_exists rollback_key_exists no_pending_key pending_key_unverified : TransportError
  no_active_key no_rollback_key : TransportError

-- `psk` is the key's bytes.
pub record TransportKey : Type 0 where
  pub id : Text
  pub psk : List ℕ

unfoldable identity : TransportKey → Text
identity key = tls_identity_prefix ++ key.id

pub data KeySlot : Type 0 where
  slot_a slot_b : KeySlot

abbrev slot_eq : KeySlot → KeySlot → Bool
slot_eq slot_a slot_a = true
slot_eq slot_b slot_b = true
slot_eq slot_a slot_b = false
slot_eq slot_b slot_a = false

abbrev pub other : KeySlot → KeySlot
other slot_a = slot_b
other slot_b = slot_a

pub record TransportKeys : Type 0 where
  pub key_a : Option TransportKey
  pub key_b : Option TransportKey
  pub active : Option KeySlot
  pub pending : Option KeySlot
  pub pending_verified : Bool

unfoldable pub default_keys : TransportKeys
default_keys = record {
  key_a = none;
  key_b = none;
  active = none;
  pending = none;
  pending_verified = false;
}

pub get : TransportKeys → KeySlot → Option TransportKey
get keys slot_a = keys.key_a
get keys slot_b = keys.key_b

set_key : TransportKeys → KeySlot → Option TransportKey → TransportKeys
set_key keys slot_a value = record keys { key_a = value }
set_key keys slot_b value = record keys { key_b = value }

unfoldable pub active_key : TransportKeys → Option TransportKey
unfolding get
active_key keys = and_then keys.active (get keys)

unfoldable pub pending_key : TransportKeys → Option TransportKey
unfolding get
pending_key keys = and_then keys.pending (get keys)

pub rollback : TransportKeys → Option TransportKey
unfolding get
rollback keys = and_then keys.active λ a. if is_some keys.pending then none else get keys (other a)

-- The slot that `stage` writes: `self.active.map_or(KeySlot::A, KeySlot::other)`.
abbrev stage_slot : Option KeySlot → KeySlot
stage_slot none = slot_a
stage_slot (some a) = other a

-- The key made of the bytes that the two calls of `random.fill` delivered.
pub make_key : List ℕ → List ℕ → TransportKey
make_key id_random psk = record { id = key_id_prefix ++ encode id_random; psk = psk }

stage_with : TransportKeys → TransportKey → TransportKeys × Result TransportError TransportKey
unfolding active_key set_key
stage_with keys key =
    if is_some_and (active_key keys) (λ a. text_eq a.id key.id)
    then (keys, err duplicate_key_id)
    else (
      record (set_key keys (stage_slot keys.active) (some key)) {
        pending = some (stage_slot keys.active);
        pending_verified = false;
      },
      ok key,
    )

-- `if let Some(active) = self.active { self.set(active.other(), None) } else { … }` of `recover`.
clear_slots : Option KeySlot → TransportKeys → TransportKeys
unfolding set_key
clear_slots none keys = record keys { key_a = none; key_b = none }
clear_slots (some a) keys = set_key keys (other a) none

-- What `recover` leaves before it stages: the active key alone.
pub cleared : TransportKeys → TransportKeys
unfolding clear_slots
cleared keys = record (clear_slots keys.active keys) { pending = none; pending_verified = false }

-- `RandomBytes` of random.rs is implemented over the chip's generator, outside the program: `fill n`
-- gives `n` bytes and the generator's next state. The refused calls draw no bytes.
module _ {R : Type 0} (fill : ℕ → R → List ℕ × R) where
  pub stage : TransportKeys → R → TransportKeys × R × Result TransportError TransportKey
  unfolding rollback stage_with make_key
  stage keys r =
      if is_some keys.pending
      then (keys, r, err pending_key_exists)
      else if is_some (rollback keys)
      then (keys, r, err rollback_key_exists)
      else let (id_random, r1) = fill key_id_random_bytes r in
        let (psk, r2) = fill psk_bytes r1 in
        let (next, result) = stage_with keys (make_key id_random psk) in (next, r2, result)

  pub recover : TransportKeys → R → TransportKeys × R × Result TransportError TransportKey
  unfolding cleared stage
  recover keys r = stage (cleared keys) r

unfoldable pub mark_pending_verified :
    TransportKeys → TransportKeys × Result TransportError (Unit {0})
unfolding pending_key
mark_pending_verified keys =
    if is_none (pending_key keys)
    then (keys, err no_pending_key)
    else (record keys { pending_verified = true }, ok tt)

unfoldable pub reset_pending_verification : TransportKeys → TransportKeys
reset_pending_verification keys = record keys { pending_verified = false }

pub discard_pending : TransportKeys → TransportKeys × Result TransportError (Unit {0})
unfolding set_key
discard_pending keys = elim keys.pending [
  | none ↦ (keys, err no_pending_key)
  | some p ↦ (record (set_key keys p none) { pending = none; pending_verified = false }, ok tt)
]

unfoldable pub activate : TransportKeys → TransportKeys × Result TransportError (Unit {0})
activate keys = elim keys.pending [
  | none ↦ (keys, err no_pending_key)
  | some p ↦
      if not keys.pending_verified
      then (keys, err pending_key_unverified)
      else (record keys { active = some p; pending = none; pending_verified = false }, ok tt)
]

pub rollback_key : TransportKeys → TransportKeys × Result TransportError (Unit {0})
unfolding get
rollback_key keys =
    if is_some keys.pending then (keys, err pending_key_exists) else elim keys.active [
      | none ↦ (keys, err no_active_key)
      | some a ↦
          if is_none (get keys (other a))
          then (keys, err no_rollback_key)
          else (record keys { active = some (other a) }, ok tt)
    ]

pub retire_rollback : TransportKeys → TransportKeys × Result TransportError (Unit {0})
unfolding get set_key
retire_rollback keys =
    if is_some keys.pending then (keys, err pending_key_exists) else elim keys.active [
      | none ↦ (keys, err no_active_key)
      | some a ↦
          if is_none (get keys (other a))
          then (keys, err no_rollback_key)
          else (set_key keys (other a) none, ok tt)
    ]

-- `is_ascii_hexdigit() && !is_ascii_uppercase()`.
abbrev pub lower_hex : ℕ → Bool
lower_hex c =
    ((leb b'0' c && leb c b'9') || (leb b'a' c && leb c b'f') || (leb b'A' c && leb c b'F'))
    && not (leb b'A' c && leb c b'Z')

pub valid_key_id : Text → Bool
valid_key_id value =
    (length value == length key_id_prefix + key_id_random_bytes * 2)
    && starts_with key_id_prefix value
    && all_bytes lower_hex (drop (length key_id_prefix) value)

-- The loop of `validate` over the keys that are held.
invalid_id_held : Option TransportKey → Bool
invalid_id_held key = is_some_and key (λ k. not (valid_key_id k.id))

unfoldable pub same_ids : TransportKeys → Bool
same_ids keys = is_some_and keys.key_a λ a. is_some_and keys.key_b λ b. text_eq a.id b.id

unfoldable pub validate : TransportKeys → Result TransportError (Unit {0})
unfolding get invalid_id_held same_ids
validate keys = do
  refuse_if (is_some_and keys.active (λ slot. is_none (get keys slot))) invalid_key_state
  refuse_if
      (is_some_and keys.pending
        λ slot. is_none (get keys slot) || is_some_and keys.active (λ active. slot_eq active slot))
      invalid_key_state
  refuse_if (keys.pending_verified && is_none keys.pending) invalid_key_state
  refuse_if (invalid_id_held keys.key_a) invalid_key_id
  refuse_if (invalid_id_held keys.key_b) invalid_key_id
  refuse_if (same_ids keys) duplicate_key_id
