-- ===== src/Hex/RoundTrip.antt =====
-- Encoding and decoding undo one another.
use esp32_streamline.Prelude.{
  ℕ, zero, suc, ◌+◌, ◌*◌, ◌/◌, ◌%◌, ◌<◌, ◌≡◌, refl, ap, ap₂, ◌∙◌, List, [], ◌∷◌, some, inl, inr,
  Bool-cases, and_then-eq_some, true, length, get_or, ltb, ◌==◌, ==_iff, if◌then◌else◌, arith,
}
use mathlib.Core.Option.{some-injective}
use mathlib.Core.Path.{subst}
use esp32_streamline.Prelude.Bytes.{Text, IsBytes}
use esp32_streamline.Prelude.Tables.{every_below, every_below_sound}
use esp32_streamline.Hex.{digits, encode, nibble, decode_pairs, decode_hex, psk_bytes}

digit_table :
    every_below 16 (λ n. get_or digits n 0 == (if ltb n 10 then n + 48 else n + 87)) ≡ true
unfolding every_below
digit_table = refl

digit_lem : (n : ℕ) → n < 16 → get_or digits n 0 ≡ (if ltb n 10 then n + 48 else n + 87)
digit_lem n h = (==_iff _ _).0 (every_below_sound 16 _ n digit_table h)

-- The digit of a nibble reads back as the nibble.
nibble-digit : (n : ℕ) → n < 16 → nibble (get_or digits n 0) ≡ some n
unfolding nibble
nibble-digit n h = rw (digit_lem n h) (ground arith)

-- What `nibble` reads is the digit of its value.
digit-nibble : (c n : ℕ) → nibble c ≡ some n → (n < 16) × (get_or digits n 0 ≡ c)
unfolding nibble
digit-nibble c n e = (bound, digit_lem n bound ∙ ground arith)
  where
    bound : n < 16
    bound = ground arith

pub length-encode : (bs : List ℕ) → length (encode bs) ≡ 2 * length bs
unfolding encode
length-encode [] = refl
length-encode (b ∷ bs) = omega (arith, length-encode bs)

decode_pairs-encode : (bs : List ℕ) → IsBytes bs → decode_pairs (encode bs) ≡ some bs
unfolding decode_pairs encode
decode_pairs-encode [] h = refl
decode_pairs-encode (b ∷ bs) h =
    rw
      (
        nibble-digit (b / 16) (omega arith),
        nibble-digit (b % 16) (omega arith),
        decode_pairs-encode bs h.1,
      )
      (ap (λ x. some (x ∷ bs)) (omega arith))

-- A pre-shared key of 32 bytes is read back from its text.
decode_hex-encode :
    (bs : List ℕ) → length bs ≡ psk_bytes → IsBytes bs → decode_hex (encode bs) ≡ some bs
unfolding decode_hex
decode_hex-encode bs n h = rw (length-encode bs, n) (decode_pairs-encode bs h)

pair_step :
    {n c d : ℕ} {cs : Text} {bs : List ℕ} (hi lo : ℕ) (rest : List ℕ)
    → nibble c ≡ some hi
    → nibble d ≡ some lo
    → some ((hi * 16 + lo) ∷ rest) ≡ some bs
    → (encode rest ≡ cs) × (length rest ≡ n) × IsBytes rest
    → (encode bs ≡ c ∷ d ∷ cs) × (length bs ≡ suc n) × IsBytes bs
unfolding encode
pair_step {n = n} {c = c} {d = d} {cs = cs} hi lo rest p q e ih =
    subst (λ b. (encode b ≡ c ∷ d ∷ cs) × (length b ≡ suc n) × IsBytes b) (some-injective _ _ e)
      (
        ap₂ ◌∷◌ (ap (λ k. get_or digits k 0) (omega (arith, high, low)) ∙ high.1)
            (ap₂ ◌∷◌ (ap (λ k. get_or digits k 0) (omega (arith, high, low)) ∙ low.1) ih.0),
        omega (arith, high, low),
        (omega (arith, high, low), ih.2),
      )
  where
    high : (hi < 16) × (get_or digits hi 0 ≡ c)
    high = digit-nibble c hi p

    low : (lo < 16) × (get_or digits lo 0 ≡ d)
    low = digit-nibble d lo q

-- A successful read of `n` pairs gives `n` bytes, whose text is what was read.
encode-decode_pairs :
    (n : ℕ) (cs : Text) (bs : List ℕ)
    → length cs ≡ 2 * n
    → decode_pairs cs ≡ some bs
    → (encode bs ≡ cs) × (length bs ≡ n) × IsBytes bs
unfolding decode_pairs encode
encode-decode_pairs zero [] bs l e = ground arith
encode-decode_pairs (suc n) [] bs l e = absurd (omega arith)
encode-decode_pairs n (c ∷ []) bs l e = absurd (omega arith)
encode-decode_pairs zero (c ∷ d ∷ cs) bs l e = absurd (omega arith)
encode-decode_pairs (suc n) (c ∷ d ∷ cs) bs l e =
    let (hi, p, e1) = and_then-eq_some (nibble c) _ e in
    let (lo, q, e2) = and_then-eq_some (nibble d) _ e1 in
    let (rest, r, e3) = and_then-eq_some (decode_pairs cs) _ e2 in
    pair_step hi lo rest p q e3 (encode-decode_pairs n cs rest (omega arith) r)

-- Whatever text decodes, encoding the key gives that text back: the key has one representation, and has 32
-- bytes.
pub encode-decode_hex :
    (text : Text) (bs : List ℕ)
    → decode_hex text ≡ some bs
    → (encode bs ≡ text) × (length bs ≡ psk_bytes) × IsBytes bs
unfolding decode_hex
encode-decode_hex text bs e = elim (Bool-cases (length text == psk_bytes * 2)) [
  | inl same ↦ encode-decode_pairs 32 text bs ((==_iff _ _).0 same) (rw same at e)
  | inr other ↦ cc (rw other at e)
]
