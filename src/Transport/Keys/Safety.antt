-- ===== src/Transport/Keys/Safety.antt =====
-- When the active key of firmware/streamline/src/transport.rs may change, and how a change is undone.
use esp32_streamline.Prelude.{
  ℕ, true, false, List, none, some, ok, err, ◌≡◌, ◌∙◌, arith, ◌⊎◌, inl, is_some,
}
use esp32_streamline.Transport.Keys.{
  TransportKey, TransportKeys, cleared, stage, recover, mark_pending_verified,
  reset_pending_verification, discard_pending, activate, rollback_key, retire_rollback, active_key,
  pending_key, rollback, validate, duplicate_key_id,
}
use esp32_streamline.Transport.Keys.Lifecycle.{
  Life, Call, stages, recovers, activates, rolls_back, draw,
}
use esp32_streamline.Transport.Keys.Refine.{view, step, view-cleared}

-- What a call may do to the active key.
abbrev pub Changes : TransportKeys → Call → TransportKeys → Type 0
Changes keys c keys' =
    (active_key keys' ≡ active_key keys)
    ⊎ ((c ≡ activates)
        × (keys.pending_verified ≡ true)
        × (is_some (pending_key keys) ≡ true)
        × (active_key keys' ≡ pending_key keys)
        × (rollback keys' ≡ active_key keys))
    ⊎ ((c ≡ rolls_back)
        × (is_some (rollback keys) ≡ true)
        × (active_key keys' ≡ rollback keys)
        × (rollback keys' ≡ active_key keys))

active_key-cleared : (keys : TransportKeys) → active_key (cleared keys) ≡ active_key keys
unfolding active_key cleared
active_key-cleared keys = ground arith

module _ {R : Type 0} (fill : ℕ → R → List ℕ × R) where
  active_key-stage :
      (keys : TransportKeys) (life : Life) (r : R)
      → view keys ≡ some life
      → active_key (stage fill keys r).0 ≡ active_key keys
  unfolding active_key stage
  active_key-stage keys life r h = ground arith

  active_key-recover :
      (keys : TransportKeys) (life : Life) (r : R)
      → view keys ≡ some life
      → active_key (recover fill keys r).0 ≡ active_key keys
  unfolding recover
  active_key-recover keys life r h =
      active_key-stage (cleared keys) _ r (view-cleared fill keys life h) ∙ active_key-cleared keys

  -- On well-formed keys the active key changes in two ways only: `activate` promotes the pending key, and
  -- only after it was verified; `rollback_key` puts the key that was kept back. All else leaves it alone,
  -- refused calls too.
  pub step-Changes :
      (keys : TransportKeys) (life : Life) (r : R) (c : Call)
      → view keys ≡ some life
      → Changes keys c (step fill keys r c).0
  unfolding step active_key pending_key rollback mark_pending_verified reset_pending_verification
      discard_pending activate rollback_key retire_rollback
  step-Changes keys life r stages h = inl (active_key-stage keys life r h)
  step-Changes keys life r recovers h = inl (active_key-recover keys life r h)
  step-Changes keys life r _ h = ground arith

  -- On well-formed keys, a key that `stage` hands out is pending, and discarding it leaves exactly the keys
  -- that were there before it.
  discard_pending-stage :
      (keys : TransportKeys) (life : Life) (r : R) (k : TransportKey)
      → view keys ≡ some life
      → (stage fill keys r).2 ≡ ok k
      → (pending_key (stage fill keys r).0 ≡ some k)
        × (discard_pending (stage fill keys r).0 ≡ (keys, ok tt))
  unfolding stage discard_pending pending_key
  discard_pending-stage keys life r k h e = ground arith

  -- From any keys that `validate` accepts, `recover` keeps the active key and stages a new unverified
  -- one, unless the new id is the active one's.
  recover_lem :
      (keys : TransportKeys) (r : R)
      → validate keys ≡ ok tt
      → let k = (draw fill r).0 in
        (active_key (recover fill keys r).0 ≡ active_key keys)
        × (((recover fill keys r).2 ≡ ok k)
              × (pending_key (recover fill keys r).0 ≡ some k)
              × ((recover fill keys r).0.pending_verified ≡ false)
            ⊎ ((recover fill keys r).2 ≡ err duplicate_key_id)
              × (pending_key (recover fill keys r).0 ≡ none))
  unfolding validate recover stage draw active_key pending_key
  recover_lem keys r h = ground arith

-- With an active key, a `rollback_key` that succeeds is undone by a second one.
rollback_key-rollback_key :
    (keys : TransportKeys)
    → is_some (active_key keys) ≡ true
    → (rollback_key keys).1 ≡ ok tt
    → rollback_key (rollback_key keys).0 ≡ (keys, ok tt)
unfolding rollback_key active_key
rollback_key-rollback_key keys p h = ground arith
