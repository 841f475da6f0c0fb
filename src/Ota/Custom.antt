-- ===== src/Ota/Custom.antt =====
-- The image of an update request: `custom_image_from_form` of firmware/streamline/src/update.rs.
-- `str::trim` is a parameter.
pub mod Accepted
use esp32_streamline.Prelude.{
  ℕ, Bool, true, false, not, ◌||◌, ◌&&◌, Option, none, some, Result, ok, err, List, [], ◌∷◌, leb,
  ◌==◌, if◌then◌else◌, refuse_if, ◌>>◌, ◌>>=◌,
}
use esp32_streamline.Prelude.Bytes.{Text, bytes, contains_byte, starts_with}
use esp32_streamline.Prelude.Strings.{strip_prefix, to_ascii_lowercase}
use esp32_streamline.Ota.Release.{is_sha256_hex}

pub record CustomImage : Type 0 where
  pub url : Text
  pub sha256 : Text

unfoldable needs_tls : CustomImage → Bool
unfolding starts_with
needs_tls image = starts_with (bytes "https://") image.url

-- `byte.is_ascii_whitespace() || byte.is_ascii_control()`: tab, line feed, form feed, carriage return and
-- space are white space, and all below 32 and 127 are control characters.
abbrev pub is_blank_or_control : ℕ → Bool
is_blank_or_control byte =
    (byte == 9 || byte == 10 || byte == 12 || byte == 13 || byte == 32)
    || (leb byte 31 || byte == 127)

pub any_byte : (ℕ → Bool) → Text → Bool
any_byte p [] = false
any_byte p (x ∷ xs) = p x || any_byte p xs

-- `split_once(['/', '?'])`, and its first part, or all without one.
pub authority_of : Text → Text
authority_of [] = []
authority_of (x ∷ xs) =
    let rest = authority_of xs in if x == b'/' || x == b'?' then [] else x ∷ rest

abbrev pub after_scheme : Option Text → Option Text → Result Text Text
after_scheme (some rest) second = ok rest
after_scheme none (some rest) = ok rest
after_scheme none none = err (bytes "url must start with http:// or https://")

abbrev pub is_empty : Text → Bool
is_empty [] = true
is_empty (x ∷ xs) = false

pub validate_custom_image_url : Text → Result Text (Unit {0})
unfolding strip_prefix any_byte contains_byte authority_of
validate_custom_image_url url = do
  authority_and_path ←
      after_scheme (strip_prefix (bytes "http://") url) (strip_prefix (bytes "https://") url)
  refuse_if (any_byte is_blank_or_control url)
      (bytes "url must not contain whitespace or control characters")
  refuse_if (contains_byte b'#' url) (bytes "url fragments are not supported")
  refuse_if (is_empty (authority_of authority_and_path)) (bytes "url must include a host")
  refuse_if (contains_byte b'@' (authority_of authority_and_path))
      (bytes "url userinfo is not supported")
  ok tt

pub custom_image : Text → Text → Result Text CustomImage
unfolding validate_custom_image_url is_sha256_hex
custom_image url sha256 = do
  validate_custom_image_url url
  refuse_if (not (is_sha256_hex sha256)) (bytes "sha256 must be 64 hex characters")
  ok (record { url = url; sha256 = to_ascii_lowercase sha256 })

module _ (trim : Text → Text) where
  -- `map(str::trim).filter(|value| !value.is_empty())`.
  abbrev pub filled : Option Text → Option Text
  filled none = none
  filled (some value) = if is_empty (trim value) then none else some (trim value)

  pub image_or_error : Option Text → Option Text → Result Text (Option CustomImage)
  unfolding custom_image
  image_or_error none none = ok none
  image_or_error (some url) (some sha256) = do image ← custom_image url sha256; ok (some image)
  image_or_error _ _ = err (bytes "url and sha256 must be provided together")

  unfoldable pub custom_image_from_form :
      Option Text → Option Text → Result Text (Option CustomImage)
  unfolding image_or_error
  custom_image_from_form url sha256 = image_or_error (filled url) (filled sha256)
