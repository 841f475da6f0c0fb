-- ===== src/Prelude/Decimal.antt =====
-- `Display` of Rust's unsigned integers: the decimal digits, without leading zeros.
use Prim.Native.Nat.{ℕ, zero, suc, ◌+◌, ◌/◌, ◌%◌}
use mathlib.Core.List.{[], ◌∷◌}
use esp32_streamline.Prelude.Tests.{ltb, if◌then◌else◌}
use esp32_streamline.Prelude.Bytes.{Text}

-- The digits go in front of those that stand already. A turn divides by ten, so `n` turns are enough.
unfoldable pub digits_onto : ℕ → ℕ → Text → Text
digits_onto zero n done = (b'0' + n % 10) ∷ done
digits_onto (suc fuel) n done =
    let more = digits_onto fuel (n / 10) ((b'0' + n % 10) ∷ done) in
    if ltb n 10 then (b'0' + n) ∷ done else more

unfoldable pub decimal : ℕ → Text
unfolding digits_onto
decimal n = digits_onto n n []
