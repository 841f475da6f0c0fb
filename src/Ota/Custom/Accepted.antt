-- ===== src/Ota/Custom/Accepted.antt =====
-- What an accepted custom image is.
use esp32_streamline.Prelude.{
  ok-injective, refuse_if-passes, >>-eq-ok, ℕ, [], ◌∷◌, ◌==◌, leb, ◌&&◌, ◌||◌, Bool-cases, ◌≡◌,
  refl, ap, ◌∙◌, Bool, true, false, not, Option, none, some, ok, ◌++◌, >>=-eq-ok, inl, inr, ◌⊎◌,
  arith,
}
use mathlib.Core.Path.{subst}
use mathlib.Core.Option.{some-injective}
use esp32_streamline.Prelude.Bytes.{Text, bytes, contains_byte, all_bytes}
use esp32_streamline.Prelude.Strings.{strip_prefix, to_ascii_lowercase}
use esp32_streamline.Ota.Release.{is_sha256_hex}
use esp32_streamline.Ota.Release.Order.{IsDigest, to_ascii_lowercase-IsDigest, strip_prefix-eq}
use esp32_streamline.Ota.Custom.{
  CustomImage, is_blank_or_control, any_byte, authority_of, after_scheme, is_empty,
  validate_custom_image_url, custom_image, image_or_error, custom_image_from_form, filled,
}

-- A visible byte other than the number sign: above the space, and not 127.
abbrev is_url_byte : ℕ → Bool
is_url_byte c = leb 33 c && not (c == 127) && not (c == b'#')

-- A byte of an authority that is a host, with or without a port.
abbrev is_host_byte : ℕ → Bool
is_host_byte c = not (c == b'/') && not (c == b'?') && not (c == b'@')

-- What follows the authority: nothing, a path or a query.
abbrev IsTail : Text → Type 0
IsTail [] = Unit {0}
IsTail (c ∷ cs) = (c ≡ b'/') ⊎ (c ≡ b'?')

-- A scheme, a host with its port, and a path or query, in visible bytes.
pub record IsPlainUrl (url : Text) : Type 0 where
  pub first : ℕ
  pub host : Text
  pub tail : Text
  scheme :
      (url ≡ bytes "http://" ++ first ∷ host ++ tail)
      ⊎ (url ≡ bytes "https://" ++ first ∷ host ++ tail)
  visible : all_bytes is_url_byte url ≡ true
  anonymous : all_bytes is_host_byte (first ∷ host) ≡ true
  ended : IsTail tail

all-url_byte :
    (s : Text)
    → any_byte is_blank_or_control s ≡ false
    → contains_byte b'#' s ≡ false
    → all_bytes is_url_byte s ≡ true
unfolding any_byte contains_byte all_bytes
all-url_byte [] h k = refl
all-url_byte (c ∷ s) h k = ground (arith, all-url_byte s)

-- The authority is the text up to the first slash or question mark.
authority-parts :
    (rest : Text)
    → contains_byte b'@' (authority_of rest) ≡ false
    → (tail : Text) × (rest ≡ authority_of rest ++ tail)
      × (all_bytes is_host_byte (authority_of rest) ≡ true)
      × IsTail tail
unfolding authority_of contains_byte all_bytes
authority-parts [] h = ([], refl, refl, tt)
authority-parts (x ∷ xs) h = elim (Bool-cases (x == b'/' || x == b'?')) [
  | inl ends ↦ rw ends (x ∷ xs, refl, refl, ground (arith, ends))
  | inr goes ↦
      let h' = rw goes at h in
      let (tail, parts, plain, ended) = authority-parts xs (ground (arith, h')) in
      rw goes (tail, ap (λ s. x ∷ s) parts, ground (arith, goes, plain, h'), ended)
]

filled-cons : (s : Text) → is_empty s ≡ false → (c : ℕ) × (cs : Text) × (s ≡ c ∷ cs)
filled-cons [] h = cc
filled-cons (c ∷ cs) h = (c, cs, refl)

after_scheme-cases :
    (first second : Option Text) {rest : Text}
    → after_scheme first second ≡ ok rest
    → (first ≡ some rest) ⊎ (second ≡ some rest)
after_scheme-cases (some a) second h = inl (ap some (ok-injective h))
after_scheme-cases none (some b) h = inr (ap some (ok-injective h))
after_scheme-cases none none h = cc

after_scheme-eq :
    (url : Text) {rest : Text}
    → after_scheme (strip_prefix (bytes "http://") url) (strip_prefix (bytes "https://") url)
      ≡ ok rest
    → (url ≡ bytes "http://" ++ rest) ⊎ (url ≡ bytes "https://" ++ rest)
after_scheme-eq url {rest} h =
    elim (after_scheme-cases (strip_prefix (bytes "http://") url)
      (strip_prefix (bytes "https://") url) h) [
        | inl e ↦ inl (strip_prefix-eq (bytes "http://") url e)
        | inr e ↦ inr (strip_prefix-eq (bytes "https://") url e)
      ]

validate_custom_image_url-IsPlainUrl :
    (url : Text) → validate_custom_image_url url ≡ ok tt → IsPlainUrl url
unfolding validate_custom_image_url
validate_custom_image_url-IsPlainUrl url h =
    let (rest, scheme, h1) =
      >>=-eq-ok
        (after_scheme (strip_prefix (bytes "http://") url) (strip_prefix (bytes "https://") url)) _
        h in
    let (clean, h2) = refuse_if-passes (any_byte is_blank_or_control url) _ _ h1 in
    let (whole, h3) = refuse_if-passes (contains_byte b'#' url) _ _ h2 in
    let (hosted, h4) = refuse_if-passes (is_empty (authority_of rest)) _ _ h3 in
    let (anonymous, h5) = refuse_if-passes (contains_byte b'@' (authority_of rest)) _ _ h4 in
    let (tail, parts, plain, ended) = authority-parts rest anonymous in
    let (first, host, found) = filled-cons (authority_of rest) hosted in
    let whole_rest : rest ≡ first ∷ host ++ tail = parts ∙ ap (λ a. a ++ tail) found in
    record {
      first = first;
      host = host;
      tail = tail;
      scheme =
          subst (λ r. (url ≡ bytes "http://" ++ r) ⊎ (url ≡ bytes "https://" ++ r)) whole_rest
            (after_scheme-eq url scheme);
      visible = all-url_byte url clean whole;
      anonymous = subst (λ a. all_bytes is_host_byte a ≡ true) found plain;
      ended = ended;
    }

not-false : (b : Bool) → not b ≡ false → b ≡ true
not-false b h = ground arith

-- What an accepted image promises.
pub IsAcceptable : CustomImage → Type 0
IsAcceptable image = IsPlainUrl image.url × IsDigest image.sha256

custom_image-IsAcceptable :
    (url sha256 : Text) {image : CustomImage}
    → custom_image url sha256 ≡ ok image
    → IsAcceptable image
unfolding custom_image IsAcceptable
custom_image-IsAcceptable url sha256 {image} h =
    let (valid, h1) = >>-eq-ok (validate_custom_image_url url) _ h in
    let (hex, h2) = refuse_if-passes (not (is_sha256_hex sha256)) _ _ h1 in
    let e : record { url = url; sha256 = to_ascii_lowercase sha256 } ≡ image = ok-injective h2 in
    subst IsAcceptable e (
      validate_custom_image_url-IsPlainUrl url valid,
      to_ascii_lowercase-IsDigest sha256 (not-false (is_sha256_hex sha256) hex),
    )

module _ (trim : Text → Text) where
  image_or_error-IsAcceptable :
      (url sha256 : Option Text) {image : CustomImage}
      → image_or_error trim url sha256 ≡ ok (some image)
      → IsAcceptable image
  unfolding image_or_error
  image_or_error-IsAcceptable none none h = cc
  image_or_error-IsAcceptable none (some sha256) h = cc
  image_or_error-IsAcceptable (some url) none h = cc
  image_or_error-IsAcceptable (some url) (some sha256) {image} h =
      let (found, accepted, e) = >>=-eq-ok (custom_image url sha256) _ h in
      subst IsAcceptable (some-injective _ _ (ok-injective e))
        (custom_image-IsAcceptable url sha256 accepted)

  -- A custom image that is accepted has an address that consists of http:// or https://, an authority that is not
  -- empty and has no slash, question mark or at sign, and then nothing or a text that begins with a slash or a
  -- question mark; its bytes are above the space, and none is 127 or a number sign; and its digest is 64
  -- lowercase hexadecimal digits.
  pub custom_image_from_form-IsAcceptable :
      (url sha256 : Option Text) {image : CustomImage}
      → custom_image_from_form trim url sha256 ≡ ok (some image)
      → IsAcceptable image
  unfolding custom_image_from_form
  custom_image_from_form-IsAcceptable url sha256 h =
      image_or_error-IsAcceptable (filled trim url) (filled trim sha256) h
