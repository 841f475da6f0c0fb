-- ===== src/Logs/Tests.antt =====
-- Chunks of a boot in a buffer of the device's size.
use esp32_streamline.Prelude.{◌≡◌, refl, [], ◌∷◌, ◌++◌, arith}
use esp32_streamline.Prelude.Bytes.{bytes}
use esp32_streamline.Logs.{new, reset, append, sanitize, copy_into}
use esp32_streamline.Logs.Accounts.{IsSound, append_all, reset-append_all-IsSound}

reset-append_all-IsSound_example :
    IsSound 4096
      (append_all 4096 (reset new 7) ((bytes "I (1) wifi:" ++ []) ∷ (bytes "up" ++ 10 ∷ []) ∷ []))
reset-append_all-IsSound_example =
    reset-append_all-IsSound 4096 new 7 ((bytes "I (1) wifi:" ++ []) ∷ (bytes "up" ++ 10 ∷ []) ∷ [])
      (omega arith)

-- A space at the end of a chunk is cut, also inside a line.
joined :
    (append_all 4096 (reset new 7) (bytes "I (1) " ∷ (bytes "up" ++ 10 ∷ []) ∷ [])).held
    ≡ bytes "I (1)up" ++ 10 ∷ []
unfolding append_all append reset
joined = refl

colour : sanitize (27 ∷ bytes "[0;32mok" ++ 27 ∷ bytes "[0m  ") ≡ bytes "ok"
unfolding sanitize
colour = refl

exact_fit :
    (copy_into 4 4 (record {
      layout = 0;
      boot = 0;
      next_sequence = 2;
      dropped = 0;
      held = 97 ∷ 10 ∷ 98 ∷ 10 ∷ [];
    })).held
    ≡ 98 ∷ 10 ∷ []
unfolding copy_into
exact_fit = refl
