-- ===== src/Auth/Turns.antt =====
-- The loop of `parse_digest_fields` ends: each turn leaves a shorter rest.
use esp32_streamline.Prelude.{
  sym, ℕ, zero, suc, ◌≤◌, ◌<◌, some, List, [], ◌∷◌, ◌==◌, length, ◌≡◌, refl, arith, Option-cases,
  Bool-cases, inl, inr,
}
use mathlib.Core.Option.{some-injective}
use esp32_streamline.Prelude.Bytes.{Text, bytes}
use esp32_streamline.Prelude.Strings.{strip_prefix, split_once}
use esp32_streamline.Auth.Header.{strip_commas, parse_value, advance, parse_fields}

split_once-shorter :
    (c : ℕ) (s : Text) {parts : Text × Text}
    → split_once (c ∷ []) s ≡ some parts
    → length parts.1 < length s
unfolding split_once strip_prefix
split_once-shorter c [] e = cc
split_once-shorter c (x ∷ s) {parts} e = elim (Bool-cases (c == x)) [
  | inl same ↦ let here = rw same at e in rw (sym (some-injective _ _ here)) (ground arith)
  | inr other ↦ elim (Option-cases (split_once (c ∷ []) s)) [
    | inl absent ↦ let nowhere = rw (other, absent) at e in cc
    | inr (later, cut) ↦
        let there = rw (other, cut) at e in
        rw (sym (some-injective _ _ there)) (ground (arith, split_once-shorter c s cut))
  ]
]

strip_prefix-shorter :
    (c : ℕ) (s : Text) {rest : Text} → strip_prefix (c ∷ []) s ≡ some rest → length rest ≤ length s
unfolding strip_prefix
strip_prefix-shorter c [] e = cc
strip_prefix-shorter c (x ∷ s) e = elim (Bool-cases (c == x)) [
  | inl same ↦ let here = rw same at e in rw (sym (some-injective _ _ here)) (ground arith)
  | inr other ↦ let nowhere = rw other at e in cc
]

length-strip_commas : (s : Text) → length (strip_commas s) ≤ length s
unfolding strip_commas
length-strip_commas [] = ground arith
length-strip_commas (c ∷ s) = ground (arith, length-strip_commas s)

module _ (trim_start trim : Text → Text)
    (shorter : (s : Text) → length (trim_start s) ≤ length s) where
  length-advance : (s : Text) → length (advance trim_start trim s) ≤ length s
  unfolding advance
  length-advance s =
      ground (
        arith,
        shorter s,
        length-strip_commas (trim_start s),
        shorter (strip_commas (trim_start s)),
      )

  parse_value-shorter :
      (after : Text) {found : Text × Text}
      → parse_value trim_start trim after ≡ some found
      → length found.1 ≤ length after
  unfolding parse_value
  parse_value-shorter after e = elim (Option-cases (strip_prefix (bytes "\"") after)) [
    | inl plain ↦ elim (Option-cases (split_once (bytes ",") after)) [
      | inl last ↦
          let token = rw (plain, last) at e in rw (sym (some-injective _ _ token)) (ground arith)
      | inr (parts, cut) ↦
          let token = rw (plain, cut) at e in
          rw (sym (some-injective _ _ token)) (ground (arith, split_once-shorter b',' after cut))
    ]
    | inr (quoted, prefixed) ↦
        let inside = rw prefixed at e in
        ground
          (arith, split_once-shorter b'"' quoted inside, strip_prefix-shorter b'"' after prefixed)
  ]

  -- Any two fuels that are at least the length of the text give the same result.
  parse_fields-turns :
      (turns : ℕ) (more : ℕ) (rest : Text) (entries : List (Text × Text))
      → length rest ≤ turns
      → length rest ≤ more
      → parse_fields trim_start trim turns rest entries
        ≡ parse_fields trim_start trim more rest entries
  unfolding parse_fields
  parse_fields-turns zero zero rest entries enough more_enough = refl
  parse_fields-turns zero (suc more) [] entries enough more_enough = refl
  parse_fields-turns zero (suc more) (c ∷ cs) entries enough more_enough = ground (arith, enough)
  parse_fields-turns (suc turns) zero [] entries enough more_enough = refl
  parse_fields-turns (suc turns) zero (c ∷ cs) entries enough more_enough =
      ground (arith, more_enough)
  parse_fields-turns (suc turns) (suc more) [] entries enough more_enough = refl
  parse_fields-turns (suc turns) (suc more) (c ∷ cs) entries enough more_enough =
      elim (Option-cases (split_once (bytes "=") (c ∷ cs))) [
        | inl absent ↦ rw absent refl
        | inr (parts, cut) ↦ elim (Option-cases (parse_value trim_start trim parts.1)) [
          | inl unread ↦ rw (cut, unread) refl
          | inr (found, read) ↦
              let cut_shorter = split_once-shorter b'=' (c ∷ cs) cut in
              let read_shorter = parse_value-shorter parts.1 read in
              let rest_shorter = length-advance found.1 in
              rw (cut, read)
                (parse_fields-turns turns more (advance trim_start trim found.1) _
                  (ground (arith, cut_shorter, read_shorter, rest_shorter, enough))
                  (ground (arith, cut_shorter, read_shorter, rest_shorter, more_enough)))
        ]
      ]
