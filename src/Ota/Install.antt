-- ===== src/Ota/Install.antt =====
-- `install_verified` of firmware/streamline/src/update.rs. The source is the answers that it gives to
-- the reads, in order, and end of stream after the last. The sink, and SHA-256 of all that the hasher was
-- given, are parameters; `InstallProgress` is the list of its calls, the latest first.
pub mod Verified
use esp32_streamline.Prelude.{
  ℕ, ◌≡◌, Bool, true, false, Option, none, some, Result, ok, err, List, [], ◌∷◌, ◌++◌, length,
  if◌then◌else◌,
}
use esp32_streamline.Prelude.Words.{sat_add32}
use esp32_streamline.Prelude.Bytes.{Text, text_eq}
use esp32_streamline.Hex.{encode}

pub data InstallError : Type 0 where
  source_failed : Text → InstallError
  sink_failed : Text → InstallError
  checksum : Text → Text → InstallError  -- expected, actual

-- The calls of `InstallProgress`.
pub data Progress : Type 0 where
  downloaded : ℕ → Progress
  verifying : Progress

pub record Installed (K : Type 0) : Type 0 where
  pub sink : K
  pub progress : List Progress
  pub result : Result InstallError (Unit {0})

module _ {K : Type 0} (write : K → Text → K × Result Text (Unit {0})) (sha256 : Text → Text) where
  -- After the loop, with all that was hashed.
  pub verify : K → Text → Text → List Progress → Installed K
  unfolding encode text_eq
  verify sink expected hashed progress =
      let actual = encode (sha256 hashed) in
      record {
        sink = sink;
        progress = verifying ∷ progress;
        result = if text_eq actual expected then ok tt else err (checksum expected actual);
      }

  pub download : K → Text → Text → ℕ → List Progress → List (Result Text Text) → Installed K
  unfolding verify
  download sink expected hashed written progress [] = verify sink expected hashed progress
  download sink expected hashed written progress (err failure ∷ reads) = record {
    sink = sink;
    progress = progress;
    result = err (source_failed failure);
  }
  download sink expected hashed written progress (ok [] ∷ reads) =
      verify sink expected hashed progress
  download sink expected hashed written progress (ok (b ∷ bs) ∷ reads) =
      let chunk = b ∷ bs in
      let (sink', stored) = write sink chunk in
      let written' = sat_add32 written (length chunk) in
      let rest =
        download sink' expected (hashed ++ chunk) written' (downloaded written' ∷ progress) reads in
      elim stored [
        | err failure ↦ record {
          sink = sink';
          progress = progress;
          result = err (sink_failed failure);
        }
        | ok _ ↦ rest
      ]

  unfoldable pub install_verified : K → List (Result Text Text) → Text → Installed K
  unfolding download
  install_verified sink reads expected = download sink expected [] 0 [] reads

-- A chunk that comes before the rest.
abbrev pub before : Text → Result Text Text → Result Text Text
before chunk (err failure) = err failure
before chunk (ok rest) = ok (chunk ++ rest)

-- What the source delivers up to its first error.
pub image_of : List (Result Text Text) → Result Text Text
image_of [] = ok []
image_of (err failure ∷ reads) = err failure
image_of (ok [] ∷ reads) = ok []
image_of (ok (b ∷ bs) ∷ reads) = before (b ∷ bs) (image_of reads)
