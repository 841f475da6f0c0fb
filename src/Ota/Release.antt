-- ===== src/Ota/Release.antt =====
-- Releases and their versions: `parse_release`, `is_newer` and `parse_semver` of
-- firmware/streamline/src/update.rs, and `check_release` of firmware/streamline/src/update/check.rs.
-- `str::trim` is a parameter.
pub mod Order
pub mod Versions
use esp32_streamline.Prelude.{
  ℕ, Bool, true, false, not, ◌&&◌, ◌||◌, Option, none, some, Result, ok, err, List, [], ◌∷◌, ltb,
  ◌==◌, length, if◌then◌else◌, and_then,
}
use esp32_streamline.Prelude.Bytes.{Text, bytes, all_bytes}
use esp32_streamline.Prelude.Strings.{
  split_once, strip_prefix, strip_suffix, ends_with, lines, split, parse_u32, to_ascii_lowercase,
  is_ascii_hexdigit,
}

abbrev pub ota_asset_suffix : Text
ota_asset_suffix = bytes "-ota.bin"

abbrev pub asset_prefix : Text
asset_prefix = bytes "streamline-"

pub record OtaRelease : Type 0 where
  pub version : Text
  pub filename : Text
  pub sha256 : Text

unfoldable pub is_sha256_hex : Text → Bool
unfolding all_bytes
is_sha256_hex digest = (length digest == 64) && all_bytes is_ascii_hexdigit digest

pub version_from_filename : Text → Option Text
version_from_filename filename =
    and_then (strip_prefix asset_prefix filename) (λ rest. strip_suffix rest ota_asset_suffix)

abbrev or_else : Option (Text × Text) → Option (Text × Text) → Option (Text × Text)
or_else none second = second
or_else (some parts) second = some parts

-- `line.split_once("  ").or_else(|| line.split_once(' '))`.
pub columns : Text → Option (Text × Text)
columns line = or_else (split_once (bytes "  ") line) (split_once (bytes " ") line)

pub release_of : Text → Text → Option Text → Option OtaRelease
release_of digest filename none = none
release_of digest filename (some version) =
    some (record { version = version; filename = filename; sha256 = to_ascii_lowercase digest })

abbrev pub first_entry : Option (Option OtaRelease) → Option OtaRelease → Option OtaRelease
first_entry (some returned) rest = returned
first_entry none rest = rest

abbrev pub release_or_error : Option OtaRelease → Result Text OtaRelease
release_or_error (some release) = ok release
release_or_error none = err (bytes "release has no OTA image")

module _ (trim : Text → Text) where
  -- One line: `none` where the loop goes on, and else what it returns.
  pub entry : Option (Text × Text) → Option (Option OtaRelease)
  unfolding is_sha256_hex version_from_filename release_of
  entry none = none
  entry (some (digest, name)) =
      let filename = trim name in
      let digest = trim digest in
      if not (ends_with filename ota_asset_suffix)
      then none
      else (if is_sha256_hex digest
          then some (release_of digest filename (version_from_filename filename))
          else some none)

  pub parse_lines : List Text → Option OtaRelease
  unfolding columns entry
  parse_lines [] = none
  parse_lines (line ∷ rest) = first_entry (entry (columns line)) (parse_lines rest)

  pub parse_release : Text → Option OtaRelease
  unfolding parse_lines lines
  parse_release sums = parse_lines (lines sums)

  pub parse_body : Result Text Text → Result Text OtaRelease
  unfolding parse_release
  parse_body (err failure) = err failure
  parse_body (ok body) = release_or_error (parse_release body)

  -- The first answer of `fetch`, and the second one if `retry` is called.
  unfoldable pub check_release : Result Text Text → Result Text Text → Result Text OtaRelease
  unfolding parse_body
  check_release (ok body) again = parse_body (ok body)
  check_release (err failure) again = parse_body again

-- The three numbers, where no other part follows.
pub semver_of : List Text → Option (ℕ × ℕ × ℕ)
unfolding parse_u32
semver_of (major ∷ minor ∷ patch ∷ []) =
    and_then (parse_u32 major)
      (λ a. and_then (parse_u32 minor) (λ b. and_then (parse_u32 patch) (λ c. some (a, b, c))))
semver_of _ = none

pub parse_semver : Text → Option (ℕ × ℕ × ℕ)
unfolding semver_of split
parse_semver version = semver_of (split b'.' version)

-- The order of tuples: `a < b`.
abbrev pub tuple_less : ℕ × ℕ × ℕ → ℕ × ℕ × ℕ → Bool
tuple_less (a, b, c) (x, y, z) = ltb a x || ((a == x) && (ltb b y || ((b == y) && ltb c z)))

pub newer_of : Option (ℕ × ℕ × ℕ) → Option (ℕ × ℕ × ℕ) → Bool
newer_of (some current) (some candidate) = tuple_less current candidate
newer_of none (some candidate) = true
newer_of _ none = false

pub is_newer : Text → Text → Bool
unfolding newer_of parse_semver
is_newer current candidate = newer_of (parse_semver current) (parse_semver candidate)
