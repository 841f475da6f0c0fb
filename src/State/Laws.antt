-- ===== src/State/Laws.antt =====
-- What the store relies on: the storage of a device, and the encodings.
use esp32_streamline.Prelude.{◌≤◌, ◌≡◌, ◌≢◌, ◌⊎◌, none, some, ok, length}
use esp32_streamline.Prelude.Bytes.{Text}
use esp32_streamline.State.{
  PersistentState, Key, Snapshot, Commit, Storage, Codec, max_marker_bytes,
}

-- What the code's comment asks of the storage: a `set` that succeeds has stored the value, one that is
-- refused has stored it or has left the old one, and no other key is touched.
pub record IsAtomic {E Device : Type 0} (storage : Storage E Device) : Type 0 where
  pub stored :
      (d : Device) (k : Key) (v : Text)
      → (storage.set d k v).1 ≡ ok tt
      → storage.get (storage.set d k v).0 k ≡ ok (some v)
  pub refused :
      (d : Device) (k : Key) (v : Text)
      → (storage.get (storage.set d k v).0 k ≡ storage.get d k)
        ⊎ (storage.get (storage.set d k v).0 k ≡ ok (some v))
  pub apart :
      (d : Device) (k j : Key) (v : Text)
      → j ≢ k
      → storage.get (storage.set d k v).0 j ≡ storage.get d j

-- What the code relies on of the encodings: a text that was made is read back, a marker with two digests
-- of 64 characters fits its bound, and a digest has 32 bytes.
pub record IsFaithful {P : Type 0} (codec : Codec P) : Type 0 where
  pub state_back :
      (s : PersistentState P) (t : Text)
      → codec.encode_state s ≡ some t
      → codec.decode_state t ≡ some s
  pub commit_back :
      (c : Commit) (t : Text) → codec.encode_commit c ≡ some t → codec.decode_commit t ≡ some c
  pub commit_fits :
      (active previous : Snapshot) (t : Text)
      → length active.sha256 ≡ 64
      → length previous.sha256 ≡ 64
      → codec.encode_commit (record { active = active; previous = some previous }) ≡ some t
      → length t ≤ max_marker_bytes
  pub first_fits :
      (active : Snapshot) (t : Text)
      → length active.sha256 ≡ 64
      → codec.encode_commit (record { active = active; previous = none }) ≡ some t
      → length t ≤ max_marker_bytes
  pub digest_length : (t : Text) → length (codec.digest t) ≡ 32
