-- ===== src/Codec/Codes.antt =====
-- What the ES8388 takes for a gain and for an attenuation.
use Prim.Native.Nat.{bit_or}
use esp32_streamline.Prelude.{
  ℕ, zero, suc, ◌+◌, ◌*◌, ◌/◌, ◌%◌, ◌≤◌, ◌≡◌, refl, arith, leb, inl, inr, Bool-cases, if◌then◌else◌,
}
use esp32_streamline.Codec.{input_gain_register, attenuation_register}

-- Half a decibel a unit, and 255 at most.
abbrev pub attenuation_code : ℕ → ℕ
attenuation_code db = if leb db 127 then db + db else 255

-- A percentage is one of nine steps, for both channels: a nibble each.
abbrev pub gain_code : ℕ → ℕ
gain_code gain = if leb gain 100 then 17 * (gain * 8 / 100) else input_gain_register gain

pub attenuation_register_lem : (db : ℕ) → attenuation_register db ≡ attenuation_code db
unfolding attenuation_register
attenuation_register_lem db = ground arith

both_nibbles : (step : ℕ) → step ≤ 8 → bit_or ((step * 16) % 256) step ≡ 17 * step
both_nibbles zero h = refl
both_nibbles (suc zero) h = refl
both_nibbles (suc (suc zero)) h = refl
both_nibbles (suc (suc (suc zero))) h = refl
both_nibbles (suc (suc (suc (suc zero)))) h = refl
both_nibbles (suc (suc (suc (suc (suc zero))))) h = refl
both_nibbles (suc (suc (suc (suc (suc (suc zero)))))) h = refl
both_nibbles (suc (suc (suc (suc (suc (suc (suc zero))))))) h = refl
both_nibbles (suc (suc (suc (suc (suc (suc (suc (suc zero)))))))) h = refl
both_nibbles (suc (suc (suc (suc (suc (suc (suc (suc (suc n))))))))) h = absurd (omega arith)

pub input_gain_register_lem : (gain : ℕ) → input_gain_register gain ≡ gain_code gain
unfolding input_gain_register
input_gain_register_lem gain = elim (Bool-cases (leb gain 100)) [
  | inr over ↦ rw over refl
  | inl percent ↦
      let small : gain * 8 / 100 ≤ 8 = ground (arith, percent) in
      let fits : (gain * 8 / 100) % 256 ≡ gain * 8 / 100 = ground (arith, small) in
      rw (percent, fits) (both_nibbles (gain * 8 / 100) small)
]
