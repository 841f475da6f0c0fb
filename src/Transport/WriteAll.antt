-- ===== src/Transport/WriteAll.antt =====
-- `write_all_with` of firmware/streamline/src/transport.rs: complete a write over a transport that may
-- accept only a prefix.

pub mod Complete
use esp32_streamline.Prelude.{
  ℕ, zero, suc, true, false, ◌||◌, Option, none, some, Result, ok, err, [], ◌∷◌, length, drop, ltb,
  ◌==◌,
}
use esp32_streamline.Prelude.Bytes.{Text}

pub data WriteAllError (E : Type 0) : Type 0 where
  write_failed : E → WriteAllError E
  closed : WriteAllError E

-- The loop, at `rest = &bytes[sent..]`; its outer `none` means that the fuel ran out. `write` is the
-- transport's, with its state.
module _ {W E : Type 0} (write : W → Text → W × Result E ℕ) where
  pub write_loop : ℕ → W → Text → Option (W × Result (WriteAllError E) (Unit {0}))
  write_loop fuel w [] = some (w, ok tt)
  write_loop zero w (b ∷ rest) = none
  write_loop (suc fuel) w (b ∷ rest) =
      let (w', result) = write w (b ∷ rest) in
      elim result [
        | err e ↦ some (w', err (write_failed e))
        | ok n ↦ elim ((n == 0) || ltb (length (b ∷ rest)) n) [
          | true ↦ some (w', err closed)
          | false ↦ write_loop fuel w' (drop n (b ∷ rest))
        ]
      ]

  -- A round without an error sends a byte or more, so as many rounds as bytes are enough.
  pub write_all_with : W → Text → Option (W × Result (WriteAllError E) (Unit {0}))
  unfolding write_loop
  write_all_with w bytes = write_loop (length bytes) w bytes
