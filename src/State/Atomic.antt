-- ===== src/State/Atomic.antt =====
-- Saving the persistent state, with storage that may refuse a write or stop in the middle of one.
use esp32_streamline.Prelude.{◌≡◌, ◌⊎◌, inl, inr, refl, ◌∙◌, arith, Option, some, Result, ok, err}
use esp32_streamline.Prelude.Bytes.{Text}
use esp32_streamline.State.{
  PersistentState, Slot, state_commit, slot_key, Snapshot, StateError, Storage, Codec, committed,
  load, next_slot, write, write_prepared, prepare, save,
}
use esp32_streamline.State.Laws.{IsAtomic, IsFaithful}
use esp32_streamline.State.Reading.{slot_key-commit, commit-slot_key}
use esp32_streamline.State.Stale.{seen, stale}
use esp32_streamline.State.Fresh.{Prepared, prepared, fresh}

module _ {E Device P : Type 0} (storage : Storage E Device) (codec : Codec P) where
  -- After the write of the slot, and after that of a marker that has not reached the storage.
  after_first :
      IsAtomic storage
      → (d : Device) (state : PersistentState P) (v : Text)
        (current : Option (Snapshot × PersistentState P))
      → committed storage codec d ≡ ok current
      → codec.decode_state v ≡ some state
      → let e = (storage.set d (slot_key (next_slot storage codec current)) v).0 in
        (load storage codec e ≡ load storage codec d) ⊎ (load storage codec e ≡ ok (some state))
  after_first law d state v current found back =
      let n = next_slot storage codec current in
      let e = (storage.set d (slot_key n) v).0 in
      stale storage codec d e current state found
        (law.apart d (slot_key n) state_commit v (slot_key-commit n))
        (seen storage codec d e n v state back (λ m ne. law.apart d (slot_key n) (slot_key m) v ne)
          (law.refused d (slot_key n) v))

  after_second :
      IsAtomic storage
      → IsFaithful codec
      → (d : Device) (state : PersistentState P) (v marker : Text)
        (current : Option (Snapshot × PersistentState P))
      → Prepared storage codec d state (next_slot storage codec current) v marker current
      → (storage.set d (slot_key (next_slot storage codec current)) v).1 ≡ ok tt
      → let (e, r) =
          storage.set
            (storage.set d (slot_key (next_slot storage codec current)) v).0
            state_commit
            marker in
        ((load storage codec e ≡ load storage codec d) ⊎ (load storage codec e ≡ ok (some state)))
        × (r ≡ ok tt → load storage codec e ≡ ok (some state))
  unfolding Prepared
  after_second law f d state v marker current p wrote =
      let (found, encoded, _, _, _) = p in
      let n = next_slot storage codec current in
      let c = (storage.set d (slot_key n) v).0 in
      let e = (storage.set c state_commit marker).0 in
      let back = f.state_back state v encoded in
      let kept_slots =
        λ (m : Slot). law.apart c state_commit (slot_key m) marker (commit-slot_key m) in
      let value = kept_slots n ∙ law.stored d (slot_key n) v wrote in
      let new = λ (h : storage.get e state_commit ≡ ok (some marker)).
        fresh storage codec f d e state n v marker current p h value in
      let look =
        seen storage codec d e n v state back
          (λ m ne. kept_slots m ∙ law.apart d (slot_key n) (slot_key m) v ne) (inr value) in
      (
        elim (law.refused c state_commit marker) [
          | inl old ↦
              stale storage codec d e current state found
                (old ∙ law.apart d (slot_key n) state_commit v (slot_key-commit n)) look
          | inr h ↦ inr (new h)
        ],
        λ r. new (law.stored c state_commit marker r),
      )

  settled :
      IsAtomic storage
      → IsFaithful codec
      → (d : Device) (state : PersistentState P) (v marker : Text)
        (current : Option (Snapshot × PersistentState P))
      → Prepared storage codec d state (next_slot storage codec current) v marker current
      → let (e, r) = write storage codec d (next_slot storage codec current) v marker in
        ((load storage codec e ≡ load storage codec d) ⊎ (load storage codec e ≡ ok (some state)))
        × (r ≡ ok tt → load storage codec e ≡ ok (some state))
  unfolding write Prepared
  settled law f d state v marker current p =
      let (found, encoded, _, _, _) = p in
      ground (
        arith,
        after_first law d state v current found (f.state_back state v encoded),
        after_second law f d state v marker current p,
      )

  saved :
      IsAtomic storage
      → IsFaithful codec
      → (d : Device) (state : PersistentState P) (made : Result (StateError E) (Slot × Text × Text))
      → prepare storage codec d state ≡ made
      → let (e, r) = write_prepared storage codec d made in
        ((load storage codec e ≡ load storage codec d) ⊎ (load storage codec e ≡ ok (some state)))
        × (r ≡ ok tt → load storage codec e ≡ ok (some state))
  unfolding write_prepared Prepared
  saved law f d state (err x) h = (inl refl, λ no_success. absurd (ground arith))
  saved law f d state (ok (slot, v, marker)) h =
      let (current, p) = prepared storage codec d state slot v marker h in
      let (found, encoded, short, made, at) = p in
      ground (arith, at, settled law f d state v marker current (found, encoded, short, made, refl))

-- The state is replaced as a whole or not at all: whatever write the storage refuses, what is loaded after
-- `save` is what was loaded before or the new state, and after a `save` that reports success it is the new
-- state. (A `set` stores its value when it succeeds, stores it or leaves the old one when it is refused, and
-- touches no other key; and the encodings keep their contract.)
pub load-save :
    {E Device P : Type 0} (storage : Storage E Device) (codec : Codec P)
    → IsAtomic storage
    → IsFaithful codec
    → (d : Device) (state : PersistentState P)
    → ((load storage codec (save storage codec d state).0 ≡ load storage codec d)
        ⊎ (load storage codec (save storage codec d state).0 ≡ ok (some state)))
      × ((save storage codec d state).1 ≡ ok tt
          → load storage codec (save storage codec d state).0 ≡ ok (some state))
unfolding save
load-save storage codec law f d state =
    saved storage codec law f d state (prepare storage codec d state) refl
