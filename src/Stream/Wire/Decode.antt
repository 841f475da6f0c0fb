-- ===== src/Stream/Wire/Decode.antt =====
-- What a receiver reads back from the bytes that the device sends.
use esp32_streamline.Prelude.{
  ℕ, ◌+◌, ◌<◌, ◌≡◌, refl, if◌then◌else◌, List, [], ◌∷◌, take, drop, length, arith, ap, Option, none,
  some, ◌&&◌, ◌==◌,
}
use mathlib.Core.Path.{subst}
use esp32_streamline.Prelude.Bytes.{text_eq}
use esp32_streamline.Prelude.Words.{u32_mod}
use esp32_streamline.Stream.Wire.{
  magic, header_len, payload_size, to_le_bytes, from_le_bytes, from_pcm, silence, as_bytes,
  frames_per_packet, sample_rate_hz,
}

from_le_bytes-to_le_bytes : (n : ℕ) → n < u32_mod → from_le_bytes (to_le_bytes n) ≡ n
from_le_bytes-to_le_bytes n h = omega arith

-- The bridge's view of a header: the sequence number and the payload's length, if all else is as agreed.
pub read_header : List ℕ → Option (ℕ × ℕ)
read_header
      (m0 ∷ m1 ∷ m2 ∷ m3 ∷ v ∷ n ∷ c ∷ b ∷ s0 ∷ s1 ∷ s2 ∷ s3 ∷ r0 ∷ r1 ∷ r2 ∷ r3 ∷ f0 ∷ f1 ∷ f2 ∷ f3
        ∷ p0 ∷ p1 ∷ p2 ∷ p3 ∷ rest) =
    if text_eq (m0 ∷ m1 ∷ m2 ∷ m3 ∷ []) magic
      && (v == 2)
      && (n == header_len)
      && (c == 2)
      && (b == 16)
      && (from_le_bytes (r0 ∷ r1 ∷ r2 ∷ r3 ∷ []) == sample_rate_hz)
      && (from_le_bytes (f0 ∷ f1 ∷ f2 ∷ f3 ∷ []) == frames_per_packet)
    then some (from_le_bytes (s0 ∷ s1 ∷ s2 ∷ s3 ∷ []), from_le_bytes (p0 ∷ p1 ∷ p2 ∷ p3 ∷ []))
    else none
read_header _ = none

take-all : (xs : List ℕ) → take (length xs) xs ≡ xs
take-all [] = refl
take-all (x ∷ xs) = ap (λ t. x ∷ t) (take-all xs)

-- A packet of 1024 bytes of PCM under a u32 sequence number is sent whole, and reads back as that number
-- and the payload.
pub as_bytes-from_pcm :
    (sequence : ℕ) (pcm : List ℕ)
    → sequence < u32_mod
    → length pcm ≡ payload_size
    → (read_header (as_bytes (from_pcm sequence pcm)) ≡ some (sequence, payload_size))
      × (drop header_len (as_bytes (from_pcm sequence pcm)) ≡ pcm)
      × (length (as_bytes (from_pcm sequence pcm)) ≡ header_len + payload_size)
unfolding as_bytes from_pcm read_header text_eq
as_bytes-from_pcm sequence pcm h n =
    let whole : take payload_size pcm ≡ pcm = subst (λ k. take k pcm ≡ pcm) n (take-all pcm) in
    (ap (λ k. some (k, payload_size)) (from_le_bytes-to_le_bytes sequence h), whole, rw (whole, n))

-- A silence record is the header alone: its sequence number, and a payload of no bytes.
as_bytes-silence :
    (sequence : ℕ)
    → sequence < u32_mod
    → (read_header (as_bytes (silence sequence)) ≡ some (sequence, 0))
      × (length (as_bytes (silence sequence)) ≡ header_len)
unfolding as_bytes silence read_header text_eq
as_bytes-silence sequence h = (ap (λ k. some (k, 0)) (from_le_bytes-to_le_bytes sequence h), refl)
