-- ===== src/Hex.antt =====
-- Lowercase hexadecimal text: `encode` of firmware/streamline/src/hex.rs, and the decoder
-- `decode_hex` of firmware/streamline/src/transport.rs.
pub mod RoundTrip
mod Tests
use esp32_streamline.Prelude.{
  ℕ, ◌+◌, ◌-◌, ◌*◌, ◌/◌, ◌%◌, Bool, ◌&&◌, List, [], ◌∷◌, Option, none, some, leb, ◌==◌, length,
  get_or, if◌then◌else◌, and_then,
}
use esp32_streamline.Prelude.Bytes.{Text, bytes}

-- The table `DIGITS`.
abbrev pub digits : Text
digits = bytes "0123456789abcdef"

-- Two digits for each byte: `byte >> 4`, then `byte & 0x0f`.
unfoldable pub encode : List ℕ → Text
encode [] = []
encode (b ∷ bs) = get_or digits (b / 16) 0 ∷ get_or digits (b % 16) 0 ∷ encode bs

pub nibble : ℕ → Option ℕ
nibble c =
    if leb b'0' c && leb c b'9'
    then some (c - b'0')
    else if leb b'a' c && leb c b'f'
    then some (c - b'a' + 10)
    else none

-- The loop over the pairs of digits (`chunks_exact(2)`, which leaves an odd last byte out). `<< 4`
-- and `|` of two nibbles are `* 16` and `+`.
pub decode_pairs : Text → Option (List ℕ)
decode_pairs [] = some []
decode_pairs (c ∷ []) = some []
decode_pairs (c ∷ d ∷ cs) =
    let rest = decode_pairs cs in
    and_then (nibble c)
      λ hi. and_then (nibble d) λ lo. and_then rest λ bs. some ((hi * 16 + lo) ∷ bs)

abbrev pub psk_bytes : ℕ
psk_bytes = 32

pub decode_hex : Text → Option (List ℕ)
decode_hex text = if length text == psk_bytes * 2 then decode_pairs text else none
