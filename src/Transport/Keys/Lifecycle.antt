-- ===== src/Transport/Keys/Lifecycle.antt =====
-- What the key store of firmware/streamline/src/transport.rs promises, without its two slots: the five
-- states of a device's keys, and what each call does in each of them.
use esp32_streamline.Prelude.{
  Bool, true, false, List, [], ◌∷◌, Option, none, some, Result, ok, err, if◌then◌else◌, ℕ,
}
use esp32_streamline.Prelude.Bytes.{text_eq}
use esp32_streamline.Hex.{psk_bytes}
use esp32_streamline.Transport.Keys.{
  TransportError, duplicate_key_id, pending_key_exists, rollback_key_exists, no_pending_key,
  pending_key_unverified, no_active_key, no_rollback_key, TransportKey, make_key,
  key_id_random_bytes,
}

pub data Life : Type 0 where
  unkeyed : Life
  first : TransportKey → Bool → Life
  active : TransportKey → Life
  rotating : TransportKey → TransportKey → Bool → Life
  retained : TransportKey → TransportKey → Life

pub data Call : Type 0 where
  stages recovers marks_verified resets_verification discards activates rolls_back retires : Call

-- The key that a call hands out, if it hands one out, or the error.
abbrev pub Reply : Type 0
Reply = Result TransportError (Option TransportKey)

-- A new key beside the active one, unless it has its id.
abbrev add_pending : TransportKey → TransportKey → Life × Reply
add_pending a k =
    if text_eq a.id k.id
    then (active a, err duplicate_key_id)
    else (rotating a k false, ok (some k))

unfoldable pub add_key : Life → TransportKey → Life × Reply
add_key unkeyed k = (first k false, ok (some k))
add_key (active a) k = add_pending a k
add_key (first p v) k = (first p v, err pending_key_exists)
add_key (rotating a p v) k = (rotating a p v, err pending_key_exists)
add_key (retained a r) k = (retained a r, err rollback_key_exists)

-- What `recover` forgets.
unfoldable pub forget : Life → Life
forget unkeyed = unkeyed
forget (first k v) = unkeyed
forget (active a) = active a
forget (rotating a p v) = active a
forget (retained a r) = active a

unfoldable pub control : Life → Call → Life × Reply
control (first k v) marks_verified = (first k true, ok none)
control (rotating a p v) marks_verified = (rotating a p true, ok none)
control l marks_verified = (l, err no_pending_key)
control (first k v) resets_verification = (first k false, ok none)
control (rotating a p v) resets_verification = (rotating a p false, ok none)
control l resets_verification = (l, ok none)
control (first k v) discards = (unkeyed, ok none)
control (rotating a p v) discards = (active a, ok none)
control l discards = (l, err no_pending_key)
control (first k true) activates = (active k, ok none)
control (rotating a p true) activates = (retained p a, ok none)
control (first k false) activates = (first k false, err pending_key_unverified)
control (rotating a p false) activates = (rotating a p false, err pending_key_unverified)
control l activates = (l, err no_pending_key)
control (retained a r) rolls_back = (retained r a, ok none)
control unkeyed rolls_back = (unkeyed, err no_active_key)
control (active a) rolls_back = (active a, err no_rollback_key)
control l rolls_back = (l, err pending_key_exists)
control (retained a r) retires = (active a, ok none)
control unkeyed retires = (unkeyed, err no_active_key)
control (active a) retires = (active a, err no_rollback_key)
control l retires = (l, err pending_key_exists)
control l stages = (l, ok none)
control l recovers = (l, ok none)

-- Whether `stage` gets as far as drawing random bytes.
abbrev draws : Life → Bool
draws unkeyed = true
draws (active a) = true
draws (first k v) = false
draws (rotating a p v) = false
draws (retained a r) = false

module _ {R : Type 0} (fill : ℕ → R → List ℕ × R) where
  -- The key that the generator's next bytes make, and its state behind them.
  unfoldable pub draw : R → TransportKey × R
  draw r =
      let (id_random, r1) = fill key_id_random_bytes r in
      let (psk, r2) = fill psk_bytes r1 in (make_key id_random psk, r2)

  unfoldable pub issue : Life → R → Life × R × Reply
  unfolding draw add_key
  issue l r =
      let (k, r') = draw r in
      let (l', reply) = add_key l k in (l', if draws l then r' else r, reply)

  unfoldable pub step : Life → R → Call → Life × R × Reply
  unfolding issue forget control
  step l r stages = issue l r
  step l r recovers = issue (forget l) r
  step l r marks_verified = let (l', reply) = control l marks_verified in (l', r, reply)
  step l r resets_verification = let (l', reply) = control l resets_verification in (l', r, reply)
  step l r discards = let (l', reply) = control l discards in (l', r, reply)
  step l r activates = let (l', reply) = control l activates in (l', r, reply)
  step l r rolls_back = let (l', reply) = control l rolls_back in (l', r, reply)
  step l r retires = let (l', reply) = control l retires in (l', r, reply)

  -- The replies to a history of calls, and what it leaves.
  unfoldable pub run : Life → R → List Call → Life × R × List Reply
  run l r [] = (l, r, [])
  run l r (c ∷ cs) =
      let (l', r', reply) = step l r c in
      let (l2, r2, replies) = run l' r' cs in (l2, r2, reply ∷ replies)
