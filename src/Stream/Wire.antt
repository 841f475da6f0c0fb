-- ===== src/Stream/Wire.antt =====
-- The bytes of a PCM packet: firmware/streamline/src/protocol.rs and firmware/streamline/src/packet.rs.
pub mod Decode
use esp32_streamline.Prelude.{
  ℕ, ◌+◌, ◌*◌, ◌/◌, ◌%◌, Bool, true, false, if◌then◌else◌, List, [], ◌∷◌, ◌++◌, take, drop,
  replicate, get_or,
}
use esp32_streamline.Prelude.Bytes.{Text, bytes}

abbrev pub magic : Text
magic = bytes "ELI1"

abbrev version : ℕ
version = 2

abbrev pub header_len : ℕ
header_len = 24

abbrev pub sample_rate_hz : ℕ
sample_rate_hz = 48000

abbrev channels : ℕ
channels = 2

abbrev bits_per_sample : ℕ
bits_per_sample = 16

abbrev pub frames_per_packet : ℕ
frames_per_packet = 256

abbrev pub bytes_per_frame : ℕ
bytes_per_frame = 4

abbrev pub payload_size : ℕ
payload_size = frames_per_packet * bytes_per_frame

abbrev max_packet_bytes : ℕ
max_packet_bytes = header_len + payload_size

-- `u32::to_le_bytes` and `u32::from_le_bytes`.
abbrev pub to_le_bytes : ℕ → List ℕ
to_le_bytes n = n % 256 ∷ n / 256 % 256 ∷ n / 65536 % 256 ∷ n / 16777216 % 256 ∷ []

abbrev pub from_le_bytes : List ℕ → ℕ
from_le_bytes (a ∷ b ∷ c ∷ d ∷ []) = a + b * 256 + c * 65536 + d * 16777216
from_le_bytes _ = 0

pub record PacketHeader : Type 0 where
  pub sequence : ℕ  -- u32
  is_silence : Bool  -- the field `silence`

abbrev pub new : ℕ → PacketHeader
new sequence = record { sequence = sequence; is_silence = false }

abbrev silence_header : ℕ → PacketHeader
silence_header sequence = record { sequence = sequence; is_silence = true }

unfoldable pub encode : PacketHeader → List ℕ
encode h =
    magic
    ++ (version ∷ header_len ∷ channels ∷ bits_per_sample ∷ [])
    ++ to_le_bytes h.sequence
    ++ to_le_bytes sample_rate_hz
    ++ to_le_bytes frames_per_packet
    ++ to_le_bytes (if h.is_silence then 0 else payload_size)

-- An `AudioPacket` is its array of 1048 bytes.
pub from_pcm : ℕ → List ℕ → List ℕ
unfolding encode
from_pcm sequence pcm = encode (new sequence) ++ pcm

pub silence : ℕ → List ℕ
unfolding encode
silence sequence = encode (silence_header sequence) ++ replicate payload_size 0

unfoldable pub payload_bytes : List ℕ → ℕ
payload_bytes packet = from_le_bytes (take 4 (drop 20 packet))

unfoldable pub as_bytes : List ℕ → List ℕ
unfolding payload_bytes
as_bytes packet = take (header_len + payload_bytes packet) packet
