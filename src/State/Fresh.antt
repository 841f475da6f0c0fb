-- ===== src/State/Fresh.antt =====
-- The store is read as the new state once slot and marker are written.
use esp32_streamline.Prelude.{
  ◌≤◌, ◌≡◌, inl, inr, refl, arith, Option, none, some, ok, length, Result-cases,
}
use esp32_streamline.Prelude.Bytes.{Text, text_eq_refl}
use esp32_streamline.State.{
  PersistentState, Slot, state_commit, slot_key, Snapshot, Storage, Codec, checksum, accept_value,
  read_snapshot, or_previous, read_commit, parse_marker, committed, load, state_of, next_slot, kept,
  next_commit, prepare, max_marker_bytes, max_state_bytes,
}
use esp32_streamline.State.Laws.{IsFaithful}
use esp32_streamline.State.Reading.{committed-reads, length-checksum, sha_of_read}

module _ {E Device P : Type 0} (storage : Storage E Device) (codec : Codec P) where
  unfoldable pub Prepared :
      Device
      → PersistentState P
      → Slot
      → Text
      → Text
      → Option (Snapshot × PersistentState P)
      → Type 0
  Prepared d state slot v marker current =
      (committed storage codec d ≡ ok current)
      × (codec.encode_state state ≡ some v)
      × (length v ≤ max_state_bytes)
      × (codec.encode_commit (next_commit storage codec state v current) ≡ some marker)
      × (next_slot storage codec current ≡ slot)

  pub prepared :
      (d : Device) (state : PersistentState P) (slot : Slot) (v marker : Text)
      → prepare storage codec d state ≡ ok (slot, v, marker)
      → (current : Option (Snapshot × PersistentState P)) × Prepared d state slot v marker current
  unfolding prepare Prepared
  prepared d state slot v marker made = elim (Result-cases (committed storage codec d)) [
    | inl (current, e) ↦ (current, ground arith)
    | inr (x, e) ↦ absurd (ground arith)
  ]

  commit_fits_of :
      IsFaithful codec
      → (active : Snapshot) (previous : Option Snapshot) (t : Text) → length active.sha256 ≡ 64
      → ((q : Snapshot) → previous ≡ some q → length q.sha256 ≡ 64)
      → codec.encode_commit (record { active = active; previous = previous }) ≡ some t
      → length t ≤ max_marker_bytes
  commit_fits_of f active none t a p made = f.first_fits active t a made
  commit_fits_of f active (some q) t a p made = f.commit_fits active q t a (p q refl) made

  kept-sha :
      IsFaithful codec
      → (d : Device) (state : PersistentState P) (current : Option (Snapshot × PersistentState P))
      → committed storage codec d ≡ ok current
      → (q : Snapshot) → kept storage codec state current ≡ some q
      → length q.sha256 ≡ 64
  unfolding kept
  kept-sha f d state none found q h = ground arith
  kept-sha f d state (some (snap, st)) found q h =
      ground (
        arith,
        sha_of_read storage codec f d snap st (committed-reads storage codec d snap st found),
      )

  marker_fits :
      IsFaithful codec
      → (d : Device) (state : PersistentState P) (v marker : Text)
        (current : Option (Snapshot × PersistentState P))
      → committed storage codec d ≡ ok current
      → codec.encode_commit (next_commit storage codec state v current) ≡ some marker
      → length marker ≤ max_marker_bytes
  unfolding next_commit
  marker_fits f d state v marker current found made =
      commit_fits_of f
        (record { slot = next_slot storage codec current; sha256 = checksum storage codec v })
        (kept storage codec state current) marker (length-checksum storage codec f v)
        (kept-sha f d state current found) made

  -- Marker and slot have both been written.
  pub fresh :
      IsFaithful codec
      → (d e : Device) (state : PersistentState P) (slot : Slot) (v marker : Text)
        (current : Option (Snapshot × PersistentState P))
      → Prepared d state slot v marker current
      → storage.get e state_commit ≡ ok (some marker)
      → storage.get e (slot_key slot) ≡ ok (some v)
      → load storage codec e ≡ ok (some state)
  unfolding Prepared load committed parse_marker read_commit read_snapshot accept_value or_previous
      state_of next_commit
  fresh f d e state slot v marker current (found, encoded, short, made, at) commit value = ground (
    arith,
    marker_fits f d state v marker current found made,
    f.commit_back (next_commit storage codec state v current) marker made,
    f.state_back state v encoded,
    text_eq_refl (checksum storage codec v),
  )
