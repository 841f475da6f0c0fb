-- ===== src/Transport/Keys/Validity.antt =====
-- `validate` of firmware/streamline/src/transport.rs accepts whatever the methods leave.
use esp32_streamline.Prelude.{
  ℕ, true, false, List, [], ◌∷◌, some, ok, ◌≡◌, refl, arith, Bool-cases, inl, inr,
}
use esp32_streamline.Prelude.Bytes.{text_eq, text_eq_iff, text_eq_refl}
use esp32_streamline.Transport.Keys.{
  TransportKey, TransportKeys, valid_key_id, validate, key_id_random_bytes, default_keys,
}
use esp32_streamline.Transport.Keys.Lifecycle
use esp32_streamline.Transport.Keys.Lifecycle.{
  Life, unkeyed, first, active, rotating, retained, Call, stages, recovers, marks_verified,
  resets_verification, discards, activates, rolls_back, retires, Reply, draw, add_key, forget,
  control,
}
use esp32_streamline.Transport.Keys.Refine.{view, run, keys-run_refines}
use esp32_streamline.Transport.Keys.Ids.{FillsBytes, valid_key_id-make_key}

abbrev IsValidKey : TransportKey → Type 0
IsValidKey k = valid_key_id k.id ≡ true

-- Every key held has a valid id, and two keys differ in theirs.
abbrev IsGood : Life → Type 0
IsGood unkeyed = Unit
IsGood (first k v) = IsValidKey k
IsGood (active a) = IsValidKey a
IsGood (rotating a p v) =
    IsValidKey a × IsValidKey p × (text_eq a.id p.id ≡ false) × (text_eq p.id a.id ≡ false)
IsGood (retained a r) =
    IsValidKey a × IsValidKey r × (text_eq a.id r.id ≡ false) × (text_eq r.id a.id ≡ false)

text_eq_comm : (s t : List ℕ) → text_eq s t ≡ false → text_eq t s ≡ false
text_eq_comm s t h = elim (Bool-cases (text_eq t s)) [
  | inl e ↦ cc (rw ((text_eq_iff t s).0 e, text_eq_refl) at h)
  | inr e ↦ e
]

add_key-IsGood : (l : Life) (k : TransportKey) → IsValidKey k → IsGood l → IsGood (add_key l k).0
unfolding add_key
add_key-IsGood (active a) k v h = ground (arith, text_eq_comm a.id k.id)
add_key-IsGood unkeyed k v h = v
add_key-IsGood (first p w) k v h = h
add_key-IsGood (rotating a p w) k v h = h
add_key-IsGood (retained a r) k v h = h

forget-IsGood : (l : Life) → IsGood l → IsGood (forget l)
unfolding forget
forget-IsGood l h = ground arith

control-IsGood : (l : Life) (c : Call) → IsGood l → IsGood (control l c).0
unfolding control
control-IsGood l c h = ground arith

validate_of_IsGood :
    (keys : TransportKeys) (life : Life)
    → view keys ≡ some life
    → IsGood life
    → validate keys ≡ ok tt
unfolding validate
validate_of_IsGood keys life v h = ground arith

module _ {R : Type 0} (fill : ℕ → R → List ℕ × R) (random : FillsBytes fill) where
  draw-IsValidKey : (r : R) → IsValidKey (draw fill r).0
  unfolding draw
  draw-IsValidKey r =
      valid_key_id-make_key _ _ (random.fills key_id_random_bytes r)
        (random.bytes_only key_id_random_bytes r)

  step-IsGood : (l : Life) (r : R) (c : Call) → IsGood l → IsGood (Lifecycle.step fill l r c).0
  unfolding Lifecycle.step
  step-IsGood l r stages h = add_key-IsGood l _ (draw-IsValidKey r) h
  step-IsGood l r recovers h = add_key-IsGood (forget l) _ (draw-IsValidKey r) (forget-IsGood l h)
  step-IsGood l r marks_verified h = control-IsGood l marks_verified h
  step-IsGood l r resets_verification h = control-IsGood l resets_verification h
  step-IsGood l r discards h = control-IsGood l discards h
  step-IsGood l r activates h = control-IsGood l activates h
  step-IsGood l r rolls_back h = control-IsGood l rolls_back h
  step-IsGood l r retires h = control-IsGood l retires h

  run-IsGood : (l : Life) (r : R) (cs : List Call) → IsGood l → IsGood (Lifecycle.run fill l r cs).0
  unfolding Lifecycle.run
  run-IsGood l r [] h = h
  run-IsGood l r (c ∷ cs) h =
      run-IsGood (Lifecycle.step fill l r c).0 (Lifecycle.step fill l r c).1 cs
        (step-IsGood l r c h)

  -- After any history of calls on a fresh device, successful or refused, `validate` accepts the keys. (The
  -- random generator fills its buffer with bytes.)
  pub validate-run : (r : R) (cs : List Call) → validate (run fill default_keys r cs).0 ≡ ok tt
  unfolding default_keys
  validate-run r cs =
      validate_of_IsGood _ _ (keys-run_refines fill default_keys unkeyed r cs refl).0
        (run-IsGood unkeyed r cs tt)
