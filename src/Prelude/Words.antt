-- ===== src/Prelude/Words.antt =====
-- Fixed-width unsigned arithmetic of Rust. `saturating_sub` is the native `-`, which stops at 0.
use Prim.Native.Nat.{ℕ, ◌+◌, ◌-◌, ◌%◌, ◌*◌, min}

abbrev u8_max : ℕ
u8_max = 255

abbrev pub u16_mod : ℕ
u16_mod = 65536

abbrev pub u32_mod : ℕ
u32_mod = 4294967296

abbrev pub u64_mod : ℕ
u64_mod = 18446744073709551616

-- `a.saturating_add(b)` at u8, u32 and u64.
abbrev pub sat_add8 : ℕ → ℕ → ℕ
sat_add8 a b = min (a + b) u8_max

abbrev pub sat_add32 : ℕ → ℕ → ℕ
sat_add32 a b = min (a + b) (u32_mod - 1)

abbrev pub sat_add64 : ℕ → ℕ → ℕ
sat_add64 a b = min (a + b) (u64_mod - 1)

abbrev pub sat_mul64 : ℕ → ℕ → ℕ
sat_mul64 a b = min (a * b) (u64_mod - 1)

-- `a + b` at u32 and u64, which wraps in a release build.
abbrev pub add32 : ℕ → ℕ → ℕ
add32 a b = (a + b) % u32_mod

abbrev pub add64 : ℕ → ℕ → ℕ
add64 a b = (a + b) % u64_mod
