-- ===== src/State/Stale.antt =====
-- The store is read as before while its marker is the old one.
use esp32_streamline.Prelude.{
  ◌≡◌, ◌≢◌, ◌⊎◌, inl, inr, refl, ap, arith, Option, none, some, ok, ◌>>=◌, map_err, >>=-eq-ok,
}
use esp32_streamline.Prelude.Bytes.{Text}
use esp32_streamline.State.{
  PersistentState, Slot, state_commit, slot_key, Snapshot, Commit, storage_error, Storage, Codec,
  read_snapshot, or_previous, read_commit, parse_marker, committed, load, state_of, next_slot,
}
use esp32_streamline.State.Reading.{Slot-cases, other_ne, read_same, read_new}

module _ {E Device P : Type 0} (storage : Storage E Device) (codec : Codec P) where
  -- What a device shows of the snapshots once slot `n` may have been written.
  pub Seen : (d e : Device) → Slot → PersistentState P → Snapshot → Type 0
  Seen d e n s snap =
      (read_snapshot storage codec e snap ≡ read_snapshot storage codec d snap)
      ⊎ ((snap.slot ≡ n)
          × ((read_snapshot storage codec e snap ≡ ok none)
              ⊎ (read_snapshot storage codec e snap ≡ ok (some s))))

  pub seen :
      (d e : Device) (n : Slot) (v : Text) (s : PersistentState P)
      → codec.decode_state v ≡ some s
      → ((m : Slot)
          → slot_key m ≢ slot_key n
          → storage.get e (slot_key m) ≡ storage.get d (slot_key m))
      → (storage.get e (slot_key n) ≡ storage.get d (slot_key n))
        ⊎ (storage.get e (slot_key n) ≡ ok (some v))
      → (snap : Snapshot) → Seen d e n s snap
  unfolding Seen
  seen d e n v s back apart slot snap = elim (Slot-cases snap.slot n) [
    | inl here ↦ ground (
      arith,
      slot,
      ap slot_key here,
      read_same storage codec d e snap,
      read_new storage codec e snap v s back,
    )
    | inr away ↦ inl (read_same storage codec d e snap (apart snap.slot away))
  ]

  stale_snapshots :
      (d e : Device) (n : Slot) (s : PersistentState P)
      → ((snap : Snapshot) → Seen d e n s snap)
      → (p : Option Snapshot) (a : Snapshot) (current : Option (Snapshot × PersistentState P))
      → (read_snapshot storage codec d a >>= or_previous storage codec d p a) ≡ ok current
      → n ≡ next_slot storage codec current
      → ((read_snapshot storage codec e a >>= or_previous storage codec e p a) ≡ ok current)
        ⊎ (((read_snapshot storage codec e a >>= or_previous storage codec e p a) >>= λ found.
              ok (state_of storage codec found))
            ≡ ok (some s))
  unfolding Seen or_previous next_slot state_of
  stale_snapshots d e n s look none a current h at = ground (arith, look a, other_ne a.slot)
  stale_snapshots d e n s look (some p) a current h at =
      ground (arith, look a, look p, other_ne a.slot, other_ne p.slot)

  stale_commit :
      (d e : Device) (n : Slot) (s : PersistentState P)
      → ((snap : Snapshot) → Seen d e n s snap)
      → (o : Option Commit) (current : Option (Snapshot × PersistentState P))
      → read_commit storage codec d o ≡ ok current
      → n ≡ next_slot storage codec current
      → (read_commit storage codec e o ≡ ok current)
        ⊎ ((read_commit storage codec e o >>= λ found. ok (state_of storage codec found))
            ≡ ok (some s))
  unfolding read_commit
  stale_commit d e n s look none current h at = inl h
  stale_commit d e n s look (some c) current h at =
      stale_snapshots d e n s look c.previous c.active current h at

  -- The marker is the old one, and at most the slot that is not in force has been written.
  pub stale :
      (d e : Device) (current : Option (Snapshot × PersistentState P)) (s : PersistentState P)
      → committed storage codec d ≡ ok current
      → storage.get e state_commit ≡ storage.get d state_commit
      → ((snap : Snapshot) → Seen d e (next_slot storage codec current) s snap)
      → (load storage codec e ≡ load storage codec d) ⊎ (load storage codec e ≡ ok (some s))
  unfolding load committed
  stale d e current s found marker look =
      let (m, got, rest) =
        >>=-eq-ok (map_err storage_error (storage.get d state_commit))
          (λ v. read_commit storage codec d (parse_marker storage codec v)) found in
      ground (
        arith,
        stale_commit d e (next_slot storage codec current) s look (parse_marker storage codec m)
            current rest refl,
      )
