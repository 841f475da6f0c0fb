-- ===== src/Ota/Release/Order.antt =====
-- The order of versions, and what a parsed release is.
use esp32_streamline.Prelude.{
  Result, ok, err, suc, ap₂, ◌||◌, leb, ℕ, ◌≡◌, ◌≢◌, refl, ap, sym, ◌∙◌, Bool, true, false, ◌&&◌,
  Bool-cases, Option, none, some, Option-cases, List, [], ◌∷◌, ◌++◌, length, arith, inl, inr,
  and_then-eq_some,
}
use mathlib.Core.Path.{subst}
use mathlib.Core.Option.{some-injective}
use mathlib.Core.List.{reverse, reverse-reverse, reverse-append}
use esp32_streamline.Prelude.Bytes.{Text, all_bytes}
use esp32_streamline.Prelude.Strings.{
  strip_prefix, strip_suffix, ends_with, lines, to_ascii_lowercase, is_ascii_digit,
  is_ascii_hexdigit,
}
use esp32_streamline.Ota.Release.{
  OtaRelease, is_sha256_hex, version_from_filename, columns, release_of, entry, parse_lines,
  parse_release, parse_body, check_release, release_or_error, first_entry, ota_asset_suffix,
  asset_prefix, tuple_less, newer_of, is_newer, parse_semver,
}

tuple_less_trans :
    (u v w : ℕ × ℕ × ℕ) → tuple_less u v ≡ true → tuple_less v w ≡ true → tuple_less u w ≡ true
tuple_less_trans (a, b, c) (d, e, f) (g, h, i) p q = ground arith

tuple_less_irrefl : (u : ℕ × ℕ × ℕ) → tuple_less u u ≡ false
tuple_less_irrefl (a, b, c) = ground arith

newer_of_trans :
    (u v w : Option (ℕ × ℕ × ℕ)) → newer_of u v ≡ true → newer_of v w ≡ true → newer_of u w ≡ true
unfolding newer_of
newer_of_trans (some u) (some v) (some w) p q = tuple_less_trans u v w p q
newer_of_trans none (some v) (some w) p q = refl
newer_of_trans none none w p q = cc
newer_of_trans (some u) none w p q = cc
newer_of_trans none (some v) none p q = cc
newer_of_trans (some u) (some v) none p q = cc

no_cycle : (b : Bool) → b ≡ true → b ≢ false
no_cycle b p q = ground arith

newer_of_irrefl : (u : Option (ℕ × ℕ × ℕ)) → newer_of u u ≡ false
unfolding newer_of
newer_of_irrefl none = refl
newer_of_irrefl (some u) = tuple_less_irrefl u

-- `is_newer` is a strict order on all version texts, those that do not parse included: it is transitive, and
-- never holds in both directions.
is_newer-strict :
    (u v w : Text)
    → is_newer u v ≡ true
    → is_newer v w ≡ true
    → (is_newer u w ≡ true) × (is_newer w u ≡ false)
unfolding is_newer
is_newer-strict u v w p q =
    let r = newer_of_trans (parse_semver u) (parse_semver v) (parse_semver w) p q in
    (
      r,
      elim (Bool-cases (is_newer w u)) [
        | inl back ↦ absurd (
            no_cycle (is_newer u u)
              (newer_of_trans (parse_semver u) (parse_semver w) (parse_semver u) r back)
              (newer_of_irrefl (parse_semver u)))
        | inr none_back ↦ none_back
      ],
    )

pub strip_prefix-eq : (p s : Text) {rest : Text} → strip_prefix p s ≡ some rest → s ≡ p ++ rest
unfolding strip_prefix
strip_prefix-eq [] s e = ground arith
strip_prefix-eq (c ∷ p) [] e = cc
strip_prefix-eq (c ∷ p) (x ∷ s) {rest} e = ground (arith, strip_prefix-eq p s {rest = rest})

strip_suffix-eq : (s p : Text) {rest : Text} → strip_suffix s p ≡ some rest → s ≡ rest ++ p
unfolding strip_suffix
strip_suffix-eq s p {rest} e =
    let (back, f, g) =
      and_then-eq_some (strip_prefix (reverse p) (reverse s)) (λ r. some (reverse r)) e in
    let r : reverse back ≡ rest = cc in
    sym (reverse-reverse s)
    ∙ ap reverse (strip_prefix-eq (reverse p) (reverse s) f)
    ∙ reverse-append (reverse p) back
    ∙ ap₂ ◌++◌ r (reverse-reverse p)

version_from_filename-eq :
    (filename : Text) {version : Text}
    → version_from_filename filename ≡ some version
    → filename ≡ asset_prefix ++ version ++ ota_asset_suffix
unfolding version_from_filename
version_from_filename-eq filename {version} e =
    let (rest, f, g) =
      and_then-eq_some (strip_prefix asset_prefix filename) (λ r. strip_suffix r ota_asset_suffix)
        e in
    strip_prefix-eq asset_prefix filename f
    ∙ ap (λ r. asset_prefix ++ r) (strip_suffix-eq rest ota_asset_suffix g)

-- Lowercase hexadecimal digits.
abbrev is_lower_hexdigit : ℕ → Bool
is_lower_hexdigit c = is_ascii_digit c || (leb b'a' c && leb c b'f')

to_ascii_lowercase-hex :
    (s : Text)
    → all_bytes is_ascii_hexdigit s ≡ true
    → all_bytes is_lower_hexdigit (to_ascii_lowercase s) ≡ true
unfolding all_bytes
to_ascii_lowercase-hex [] h = refl
to_ascii_lowercase-hex (c ∷ s) h = ground (arith, to_ascii_lowercase-hex s)

length-to_ascii_lowercase : (s : Text) → length (to_ascii_lowercase s) ≡ length s
length-to_ascii_lowercase [] = refl
length-to_ascii_lowercase (c ∷ s) = ap suc (length-to_ascii_lowercase s)

-- A digest as the installer compares it.
pub IsDigest : Text → Type 0
IsDigest s = (length s ≡ 64) × (all_bytes is_lower_hexdigit s ≡ true)

pub to_ascii_lowercase-IsDigest :
    (s : Text) → is_sha256_hex s ≡ true → IsDigest (to_ascii_lowercase s)
unfolding is_sha256_hex IsDigest
to_ascii_lowercase-IsDigest s h =
    let n : length s ≡ 64 = ground arith in
    let b : all_bytes is_ascii_hexdigit s ≡ true = ground arith in
    (length-to_ascii_lowercase s ∙ n, to_ascii_lowercase-hex s b)

-- A release that is fit to install.
pub record IsSound (r : OtaRelease) : Type 0 where
  pub named : r.filename ≡ asset_prefix ++ r.version ++ ota_asset_suffix
  pub digest : IsDigest r.sha256

release_of-IsSound :
    (digest filename : Text) (version : Option Text) {r : OtaRelease}
    → version_from_filename filename ≡ version
    → is_sha256_hex digest ≡ true
    → release_of digest filename version ≡ some r
    → IsSound r
unfolding release_of
release_of-IsSound digest filename none v h e = cc
release_of-IsSound digest filename (some version) {r} v h e =
    let s : IsSound
        (record { version = version; filename = filename; sha256 = to_ascii_lowercase digest }) =
      record {
        named = version_from_filename-eq filename v;
        digest = to_ascii_lowercase-IsDigest digest h;
      } in
    subst IsSound (some-injective _ _ e) s

module _ (trim : Text → Text) where
  entry-IsSound :
      (parts : Option (Text × Text)) {r : OtaRelease} → entry trim parts ≡ some (some r) → IsSound r
  unfolding entry
  entry-IsSound none = λ e. cc
  entry-IsSound (some (digest, name)) {r} =
      let filename = trim name in
      elim (Bool-cases (ends_with filename ota_asset_suffix)) [
        | inr other ↦ rw (other, entry) (λ e. cc)
        | inl asset ↦ elim (Bool-cases (is_sha256_hex (trim digest))) [
          | inr malformed ↦ rw (asset, malformed, entry) (λ e. cc)
          | inl hex ↦
              rw (asset, hex, entry)
                (λ e.
                  release_of-IsSound (trim digest) filename (version_from_filename filename) refl
                    hex (some-injective _ _ e))
        ]
      ]

  first_entry-IsSound :
      (parts : Option (Text × Text)) (rest : Option OtaRelease) {r : OtaRelease}
      → (rest ≡ some r → IsSound r)
      → first_entry (entry trim parts) rest ≡ some r
      → IsSound r
  first_entry-IsSound parts rest {r} later e = elim (Option-cases (entry trim parts)) [
    | inl f ↦ later (ground (arith, f, e))
    | inr (returned, f) ↦ entry-IsSound parts (ground (arith, f, e))
  ]

  parse_lines-IsSound :
      (listing : List Text) {r : OtaRelease} → parse_lines trim listing ≡ some r → IsSound r
  unfolding parse_lines
  parse_lines-IsSound [] e = cc
  parse_lines-IsSound (line ∷ rest) {r} e =
      first_entry-IsSound (columns line) (parse_lines trim rest) (λ h. parse_lines-IsSound rest h) e

  release_or_error-IsSound :
      (parsed : Option OtaRelease) {r : OtaRelease}
      → ((r' : OtaRelease) → parsed ≡ some r' → IsSound r')
      → release_or_error parsed ≡ ok r
      → IsSound r
  release_or_error-IsSound none h e = cc
  release_or_error-IsSound (some release) {r} h e = h r (cc)

  parse_body-IsSound :
      (body : Result Text Text) {r : OtaRelease} → parse_body trim body ≡ ok r → IsSound r
  unfolding parse_body parse_release
  parse_body-IsSound (err failure) e = cc
  parse_body-IsSound (ok body) e =
      release_or_error-IsSound (parse_release trim body)
        (λ r' h. parse_lines-IsSound (lines body) h) e

  -- A release that the check finds, at the first or the second fetch, has the name of an OTA image with its
  -- version in it, and a digest of 64 lowercase hexadecimal digits.
  pub check_release-IsSound :
      (fetched again : Result Text Text) {r : OtaRelease}
      → check_release trim fetched again ≡ ok r
      → IsSound r
  unfolding check_release
  check_release-IsSound (ok body) again e = parse_body-IsSound (ok body) e
  check_release-IsSound (err failure) again e = parse_body-IsSound again e
