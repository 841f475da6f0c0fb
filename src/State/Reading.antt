-- ===== src/State/Reading.antt =====
-- What a device shows of a snapshot whose slot may have been written.
use esp32_streamline.Prelude.{
  ◌≡◌, ◌≢◌, ◌⊎◌, inl, inr, refl, ap, arith, Option, none, some, ok, length, map_err, >>=-eq-ok,
}
use esp32_streamline.Prelude.Bytes.{Text, eq_of_text_eq}
use esp32_streamline.Hex.RoundTrip.{length-encode}
use esp32_streamline.State.{
  PersistentState, Slot, slot_a, slot_b, other, state_commit, slot_key, Snapshot, storage_error,
  Storage, Codec, checksum, accept_value, read_snapshot, or_previous, read_commit, committed,
}
use esp32_streamline.State.Laws.{IsFaithful}

slot_key-other : (s : Slot) → slot_key s ≢ slot_key (other s)
slot_key-other slot_a = ground arith
slot_key-other slot_b = ground arith

pub slot_key-commit : (s : Slot) → state_commit ≢ slot_key s
slot_key-commit slot_a = ground arith
slot_key-commit slot_b = ground arith

pub commit-slot_key : (s : Slot) → slot_key s ≢ state_commit
commit-slot_key slot_a = ground arith
commit-slot_key slot_b = ground arith

pub Slot-cases : (s t : Slot) → (s ≡ t) ⊎ (slot_key s ≢ slot_key t)
Slot-cases slot_a slot_a = inl refl
Slot-cases slot_a slot_b = inr (slot_key-other slot_a)
Slot-cases slot_b slot_a = inr (slot_key-other slot_b)
Slot-cases slot_b slot_b = inl refl

pub other_ne : (s : Slot) → s ≢ other s
other_ne s h = slot_key-other s (ap slot_key h)

module _ {E Device P : Type 0} (storage : Storage E Device) (codec : Codec P) where
  pub read_same :
      (d e : Device) (snap : Snapshot)
      → storage.get e (slot_key snap.slot) ≡ storage.get d (slot_key snap.slot)
      → read_snapshot storage codec e snap ≡ read_snapshot storage codec d snap
  unfolding read_snapshot
  read_same d e snap h = rw h refl

  -- A slot that holds the encoding of `s` is read as `s` or is passed over.
  pub read_new :
      (e : Device) (snap : Snapshot) (v : Text) (s : PersistentState P)
      → codec.decode_state v ≡ some s
      → storage.get e (slot_key snap.slot) ≡ ok (some v)
      → (read_snapshot storage codec e snap ≡ ok none)
        ⊎ (read_snapshot storage codec e snap ≡ ok (some s))
  unfolding read_snapshot accept_value
  read_new e snap v s back h = ground arith

  pub committed-reads :
      (d : Device) (snap : Snapshot) (st : PersistentState P)
      → committed storage codec d ≡ ok (some (snap, st))
      → read_snapshot storage codec d snap ≡ ok (some st)
  unfolding committed read_commit or_previous
  committed-reads d snap st h = ground arith

  pub length-checksum : IsFaithful codec → (v : Text) → length (checksum storage codec v) ≡ 64
  unfolding checksum
  length-checksum f v = rw (length-encode (codec.digest v), f.digest_length v) refl

  sha_of_accept :
      IsFaithful codec
      → (snap : Snapshot) (value : Option Text) (st : PersistentState P)
      → accept_value storage codec snap value ≡ some st
      → length snap.sha256 ≡ 64
  unfolding accept_value
  sha_of_accept f snap none st h = ground arith
  sha_of_accept f snap (some v) st h =
      ground (arith, length-checksum f v, eq_of_text_eq (checksum storage codec v) snap.sha256)

  pub sha_of_read :
      IsFaithful codec
      → (d : Device) (snap : Snapshot) (st : PersistentState P)
      → read_snapshot storage codec d snap ≡ ok (some st)
      → length snap.sha256 ≡ 64
  unfolding read_snapshot
  sha_of_read f d snap st h =
      let (value, got, rest) =
        >>=-eq-ok (map_err storage_error (storage.get d (slot_key snap.slot)))
          (λ v. ok (accept_value storage codec snap v)) h in
      sha_of_accept f snap value st (ground arith)
