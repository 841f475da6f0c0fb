-- ===== src/Transport/Keys/Ids.antt =====
-- Key ids: what `stage` makes is what `valid_key_id` of firmware/streamline/src/transport.rs accepts.
use esp32_streamline.Prelude.{ℕ, ◌/◌, ◌%◌, ◌≡◌, refl, true, List, [], ◌∷◌, length, get_or, arith}
use esp32_streamline.Prelude.Bytes.{all_bytes, starts_with, IsBytes}
use esp32_streamline.Prelude.Tables.{every_below, every_below_sound}
use esp32_streamline.Hex.{digits, encode}
use esp32_streamline.Hex.RoundTrip.{length-encode}
use esp32_streamline.Transport.Keys.{key_id_random_bytes, lower_hex, valid_key_id, make_key}

-- What the program relies on of the chip's random generator: it fills the buffer with bytes.
pub record FillsBytes {R : Type 0} (fill : ℕ → R → List ℕ × R) : Type 0 where
  pub fills : (n : ℕ) (r : R) → length (fill n r).0 ≡ n
  pub bytes_only : (n : ℕ) (r : R) → IsBytes (fill n r).0

digit_table : every_below 16 (λ n. lower_hex (get_or digits n 0)) ≡ true
unfolding every_below
digit_table = refl

all_bytes-encode : (bs : List ℕ) → IsBytes bs → all_bytes lower_hex (encode bs) ≡ true
unfolding all_bytes encode
all_bytes-encode [] h = refl
all_bytes-encode (b ∷ bs) h =
    rw
      (
        every_below_sound 16 (λ n. lower_hex (get_or digits n 0)) (b / 16) digit_table
            (omega arith),
        every_below_sound 16 (λ n. lower_hex (get_or digits n 0)) (b % 16) digit_table
            (omega arith),
      )
      (all_bytes-encode bs h.1)

pub valid_key_id-make_key :
    (id psk : List ℕ)
    → length id ≡ key_id_random_bytes
    → IsBytes id
    → valid_key_id (make_key id psk).id ≡ true
unfolding valid_key_id make_key starts_with
valid_key_id-make_key id psk n h = rw (length-encode id, n, all_bytes-encode id h)
