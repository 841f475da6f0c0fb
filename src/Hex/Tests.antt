-- ===== src/Hex/Tests.antt =====
-- A key of 32 bytes and its text.
use esp32_streamline.Prelude.{ℕ, ◌≡◌, refl, List, replicate, length}
use esp32_streamline.Prelude.Bytes.{Text, IsBytes}
use esp32_streamline.Hex.{nibble, decode_pairs, encode, decode_hex, psk_bytes}
use esp32_streamline.Hex.RoundTrip.{encode-decode_hex}

abbrev key : List ℕ
key = replicate 32 171

abbrev text : Text
text = encode key

encode-decode_hex_example : (encode key ≡ text) × (length key ≡ psk_bytes) × IsBytes key
unfolding decode_hex encode decode_pairs nibble
encode-decode_hex_example = encode-decode_hex text key refl
