-- ===== src/Transport/Keys/Tests.antt =====
-- A generator that counts, and a device that stages, verifies, activates, and rotates its keys with it.
use esp32_streamline.Prelude.{
  ℕ, zero, suc, ◌+◌, ◌%◌, ◌≡◌, refl, arith, some, ok, List, [], ◌∷◌, replicate, length-replicate,
  true,
}
use esp32_streamline.Prelude.Bytes.{IsBytes}
use esp32_streamline.Transport.Keys.{
  TransportKey, TransportKeys, default_keys, validate, slot_a, slot_b,
}
use esp32_streamline.Transport.Keys.Lifecycle.{
  Life, Call, unkeyed, active, retained, stages, recovers, marks_verified, activates, rolls_back,
  discards, draw,
}
use esp32_streamline.Transport.Keys.Lifecycle
use esp32_streamline.Transport.Keys.Refine.{view, step, run, keys-run_refines}
use esp32_streamline.Transport.Keys.Ids.{FillsBytes}
use esp32_streamline.Transport.Keys.Validity.{validate-run}
use esp32_streamline.Transport.Keys.Safety.{Changes, step-Changes}

abbrev count : ℕ → ℕ → List ℕ × ℕ
count n r = (replicate n (r % 256), r + 1)

IsBytes-replicate : (n b : ℕ) → IsBytes (replicate n (b % 256))
IsBytes-replicate zero b = tt
IsBytes-replicate (suc n) b = (omega arith, IsBytes-replicate n b)

count-FillsBytes : FillsBytes count
count-FillsBytes = record {
  fills = λ n r. length-replicate n (r % 256);
  bytes_only = λ n r. IsBytes-replicate n r;
}

abbrev history : List Call
history =
    stages ∷ activates ∷ marks_verified ∷ activates ∷ stages ∷ recovers ∷ marks_verified ∷ activates
    ∷ rolls_back ∷ []

keys-run_refines_example :
    (view (run count default_keys 7 history).0 ≡ some (Lifecycle.run count unkeyed 7 history).0)
    × ((run count default_keys 7 history).1 ≡ (Lifecycle.run count unkeyed 7 history).1)
    × ((run count default_keys 7 history).2 ≡ (Lifecycle.run count unkeyed 7 history).2)
unfolding default_keys
keys-run_refines_example = keys-run_refines count default_keys unkeyed 7 history refl

validate-run_example : validate (run count default_keys 7 history).0 ≡ ok tt
validate-run_example = validate-run count count-FillsBytes 7 history

abbrev one : TransportKey
one = record { id = 1 ∷ []; psk = 1 ∷ [] }

abbrev two : TransportKey
two = record { id = 2 ∷ []; psk = 2 ∷ [] }

-- Key two is staged beside the active key one, and verified.
abbrev verified : TransportKeys
verified = record {
  key_a = some one;
  key_b = some two;
  active = some slot_a;
  pending = some slot_b;
  pending_verified = true;
}

step-Changes_example : Changes verified activates (step count verified 7 activates).0
step-Changes_example =
    step-Changes count verified (Lifecycle.rotating one two true) 7 activates refl
