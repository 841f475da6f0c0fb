-- ===== src/Transport/Keys/Refine.antt =====
-- The two slots implement the states of `Lifecycle`.
use esp32_streamline.Prelude.{
  ◌≢◌, Bool, false, List, [], ◌∷◌, Option, none, some, Result, ok, err, ℕ, ◌≡◌, refl, ap₂, arith,
}
use esp32_streamline.Transport.Keys.{
  TransportError, TransportKey, TransportKeys, KeySlot, slot_a, slot_b, cleared, stage, recover,
  mark_pending_verified, reset_pending_verification, discard_pending, activate, rollback_key,
  retire_rollback,
}
use esp32_streamline.Transport.Keys.Lifecycle
use esp32_streamline.Transport.Keys.Lifecycle.{
  Life, unkeyed, first, active, rotating, retained, Call, stages, recovers, marks_verified,
  resets_verification, discards, activates, rolls_back, retires, Reply,
}

-- The state that the fields stand for; `none` if they stand for none of the five.
abbrev view_of :
    Option KeySlot → Option KeySlot → Bool → Option TransportKey → Option TransportKey → Option Life
view_of none none false none none = some unkeyed
view_of none (some slot_a) v (some k) none = some (first k v)
view_of (some slot_a) none false (some a) none = some (active a)
view_of (some slot_b) none false none (some a) = some (active a)
view_of (some slot_a) (some slot_b) v (some a) (some p) = some (rotating a p v)
view_of (some slot_b) (some slot_a) v (some p) (some a) = some (rotating a p v)
view_of (some slot_a) none false (some a) (some r) = some (retained a r)
view_of (some slot_b) none false (some r) (some a) = some (retained a r)
view_of _ _ _ _ _ = none

abbrev pub view : TransportKeys → Option Life
view keys = view_of keys.active keys.pending keys.pending_verified keys.key_a keys.key_b

-- The results of both kinds, as a `Reply`.
abbrev silent : Result TransportError (Unit {0}) → Reply
silent (ok _) = ok none
silent (err e) = err e

abbrev handed : Result TransportError TransportKey → Reply
handed (ok k) = ok (some k)
handed (err e) = err e

abbrev handing :
    {R : Type 0}
    → TransportKeys × R × Result TransportError TransportKey
    → TransportKeys × R × Reply
handing x = (x.0, x.1, handed x.2)

abbrev beside :
    {R : Type 0} → R → TransportKeys × Result TransportError (Unit {0}) → TransportKeys × R × Reply
beside r x = (x.0, r, silent x.1)

module _ {R : Type 0} (fill : ℕ → R → List ℕ × R) where
  -- One call of a method, chosen by name.
  unfoldable pub step : TransportKeys → R → Call → TransportKeys × R × Reply
  step keys r stages = handing (stage fill keys r)
  step keys r recovers = handing (recover fill keys r)
  step keys r marks_verified = beside r (mark_pending_verified keys)
  step keys r resets_verification = (reset_pending_verification keys, r, ok none)
  step keys r discards = beside r (discard_pending keys)
  step keys r activates = beside r (activate keys)
  step keys r rolls_back = beside r (rollback_key keys)
  step keys r retires = beside r (retire_rollback keys)

  unfoldable pub run : TransportKeys → R → List Call → TransportKeys × R × List Reply
  run keys r [] = (keys, r, [])
  run keys r (c ∷ cs) =
      let (keys', r', reply) = step keys r c in
      let (keys2, r2, replies) = run keys' r' cs in (keys2, r2, reply ∷ replies)

  -- What one call of the code and one step of the specification have in common.
  abbrev Agrees : TransportKeys × R × Reply → Life × R × Reply → Type 0
  Agrees x y = (view x.0 ≡ some y.0) × (x.1 ≡ y.1) × (x.2 ≡ y.2)

  control_refines :
      (keys : TransportKeys) (life : Life) (r : R) (c : Call)
      → c ≢ stages
      → c ≢ recovers
      → view keys ≡ some life
      → Agrees (step keys r c) (Lifecycle.step fill life r c)
  unfolding step Lifecycle.step mark_pending_verified reset_pending_verification discard_pending
      activate rollback_key retire_rollback
  control_refines keys life r stages n1 n2 h = absurd (n1 refl)
  control_refines keys life r recovers n1 n2 h = absurd (n2 refl)
  control_refines keys life r _ n1 n2 h = ground arith

  stage_refines :
      (keys : TransportKeys) (life : Life) (r : R)
      → view keys ≡ some life
      → Agrees (handing (stage fill keys r)) (Lifecycle.issue fill life r)
  unfolding stage Lifecycle.issue
  stage_refines keys life r h = ground arith

  pub view-cleared :
      (keys : TransportKeys) (life : Life)
      → view keys ≡ some life
      → view (cleared keys) ≡ some (Lifecycle.forget life)
  unfolding cleared Lifecycle.forget
  view-cleared keys life h = ground arith

  -- Every method does to the slots what its step does to the state they stand for: the same reply, the
  -- same bytes drawn, and slots that stand for the next state.
  keys-step_refines :
      (keys : TransportKeys) (life : Life) (r : R) (c : Call)
      → view keys ≡ some life
      → Agrees (step keys r c) (Lifecycle.step fill life r c)
  unfolding step Lifecycle.step recover
  keys-step_refines keys life r stages h = stage_refines keys life r h
  keys-step_refines keys life r recovers h =
      stage_refines (cleared keys) (Lifecycle.forget life) r (view-cleared keys life h)
  keys-step_refines keys life r marks_verified h =
      control_refines keys life r marks_verified (λ e. cc) (λ e. cc) h
  keys-step_refines keys life r resets_verification h =
      control_refines keys life r resets_verification (λ e. cc) (λ e. cc) h
  keys-step_refines keys life r discards h =
      control_refines keys life r discards (λ e. cc) (λ e. cc) h
  keys-step_refines keys life r activates h =
      control_refines keys life r activates (λ e. cc) (λ e. cc) h
  keys-step_refines keys life r rolls_back h =
      control_refines keys life r rolls_back (λ e. cc) (λ e. cc) h
  keys-step_refines keys life r retires h =
      control_refines keys life r retires (λ e. cc) (λ e. cc) h

  -- From slots that stand for a state of the specification, any history of calls gives the replies, leaves
  -- the random generator, and reaches slots that stand for the state, that the specification says.
  pub keys-run_refines :
      (keys : TransportKeys) (life : Life) (r : R) (cs : List Call)
      → view keys ≡ some life
      → (view (run keys r cs).0 ≡ some (Lifecycle.run fill life r cs).0)
        × ((run keys r cs).1 ≡ (Lifecycle.run fill life r cs).1)
        × ((run keys r cs).2 ≡ (Lifecycle.run fill life r cs).2)
  unfolding run Lifecycle.run
  keys-run_refines keys life r [] h = (h, refl, refl)
  keys-run_refines keys life r (c ∷ cs) h =
      let (v, drawn, reply) = keys-step_refines keys life r c h in
      let (v2, drawn2, replies) =
        keys-run_refines (step keys r c).0 (Lifecycle.step fill life r c).0 (step keys r c).1 cs
          v in
      rw (← drawn) (v2, drawn2, ap₂ ◌∷◌ reply replies)
