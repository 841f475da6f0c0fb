-- ===== src/Ota/Tests.antt =====
-- Runs of the update: a listing, a request, an installation and two requests for the worker.
use esp32_streamline.Prelude.Strings.{ends_with, split_once}
use esp32_streamline.Prelude.{
  arith, ◌≡◌, ◌≤◌, refl, true, false, some, Result, ok, err, List, [], ◌∷◌, ◌++◌, replicate,
  if◌then◌else◌,
}
use esp32_streamline.Prelude.Bytes.{Text, bytes, contains_byte}
use esp32_streamline.Hex.{encode}
use esp32_streamline.Ota.Release.{OtaRelease, is_newer, check_release}
use esp32_streamline.Ota.Release.Versions.{Version, print, Fits, IsJudged, is_newer-print}
use esp32_streamline.Ota.Release.Order.{IsSound, check_release-IsSound}
use esp32_streamline.Ota.Custom.{CustomImage, custom_image_from_form}
use esp32_streamline.Ota.Custom.Accepted.{IsAcceptable, custom_image_from_form-IsAcceptable}
use esp32_streamline.Ota.Install.{install_verified, image_of}
use esp32_streamline.Ota.Install.Verified.{
  install_verified_lem, install_verified-outcome, spec_install,
}
use esp32_streamline.Ota.Progress.{new_progress, is_busy, from_u8, failed}
use esp32_streamline.Ota.Progress.Reservation.{calls, advances, works, run, owners, begin-exclusive}

abbrev old_version : Version
old_version = record { major = 0; minor = 9; patch = 12 }

abbrev new_version : Version
new_version = record { major = 0; minor = 10; patch = 3 }

is_newer-print_example :
    IsJudged old_version new_version
      (is_newer (print old_version) (print new_version))
      (is_newer (print new_version) (print old_version))
    × (is_newer (bytes "dev") (print new_version) ≡ true)
    × (is_newer (print new_version) (bytes "dev") ≡ false)
    × (is_newer (bytes "dev") (bytes "dev") ≡ false)
unfolding Fits contains_byte
is_newer-print_example =
    is_newer-print old_version new_version (bytes "dev") (omega arith, omega arith, omega arith)
      (omega arith, omega arith, omega arith) refl

abbrev untrimmed : Text → Text
untrimmed text = text

abbrev digest_text : Text
digest_text = replicate 64 b'a'

abbrev listing : Text
listing =
    bytes "cafe  streamline-1.2.0.bin"
    ++ 10 ∷ digest_text
    ++ bytes "  streamline-1.2.0-ota.bin"
    ++ 10 ∷ []

abbrev release : OtaRelease
release = record {
  version = bytes "1.2.0";
  filename = bytes "streamline-1.2.0-ota.bin";
  sha256 = digest_text;
}

check_release-IsSound_example : IsSound release
unfolding check_release split_once ends_with
check_release-IsSound_example =
    check_release-IsSound untrimmed (err (bytes "timed out")) (ok listing) refl

abbrev image : CustomImage
image = record { url = bytes "http://host/a?b"; sha256 = digest_text }

custom_image_from_form-IsAcceptable_example : IsAcceptable image
unfolding custom_image_from_form
custom_image_from_form-IsAcceptable_example =
    custom_image_from_form-IsAcceptable untrimmed (some (bytes "http://host/a?b"))
      (some (replicate 64 b'A')) refl

abbrev store : Text → Text → Text × Result Text (Unit {0})
store held chunk = (held ++ chunk, ok tt)

abbrev contents : Text → Text
contents held = held

-- A digest that keeps one byte.
abbrev toy_digest : Text → Text
toy_digest [] = []
toy_digest (b ∷ bs) = b ∷ []

abbrev reads : List (Result Text Text)
reads = ok (7 ∷ 8 ∷ []) ∷ ok (9 ∷ []) ∷ ok [] ∷ []

install_verified_lem_example :
    (found : Text) × (image_of reads ≡ ok found)
    × (contents (install_verified store toy_digest [] reads (bytes "07")).sink ≡ [] ++ found)
    × (encode (toy_digest found) ≡ bytes "07")
unfolding install_verified
install_verified_lem_example =
    install_verified_lem store toy_digest contents (λ k chunk e. refl) [] reads (bytes "07") refl

install_verified-outcome_example :
    (install_verified store toy_digest [] reads (bytes "08")).result
    ≡ spec_install toy_digest (bytes "08") [] (image_of reads)
install_verified-outcome_example =
    install_verified-outcome store toy_digest (λ k chunk. refl) [] reads (bytes "08")

begin-exclusive_example :
    let (reached, callers) =
      run
        (new_progress, replicate 2 calls)
        (advances 0 ∷ advances 1 ∷ advances 1 ∷ advances 0 ∷ works 1 failed ∷ []) in
    owners callers ≤ (if is_busy (from_u8 reached.phase) then 1 else 0)
begin-exclusive_example =
    begin-exclusive new_progress 2
      (advances 0 ∷ advances 1 ∷ advances 1 ∷ advances 0 ∷ works 1 failed ∷ [])
