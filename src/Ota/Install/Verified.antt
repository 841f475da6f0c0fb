-- ===== src/Ota/Install/Verified.antt =====
-- An update is committed only if the sink holds an image whose digest is the expected one.
use esp32_streamline.Prelude.{
  ℕ, ◌≡◌, refl, ap, sym, ◌∙◌, Bool-cases, Result, Result-cases, ok, err, List, [], ◌∷◌, ◌++◌,
  length, inl, inr, arith, if◌then◌else◌,
}
use mathlib.Core.List.{append_assoc, append-nil}
use esp32_streamline.Prelude.Words.{sat_add32}
use esp32_streamline.Prelude.Bytes.{Text, text_eq, eq_of_text_eq}
use esp32_streamline.Hex.{encode}
use esp32_streamline.Ota.Install.{
  InstallError, source_failed, checksum, Progress, downloaded, verify, download, install_verified,
  image_of, before,
}

module _ {K : Type 0} (write : K → Text → K × Result Text (Unit {0})) (sha256 : Text → Text)
    (contents : K → Text)
    (appends : (k : K) (chunk : Text)
      → (write k chunk).1 ≡ ok tt
      → contents (write k chunk).0 ≡ contents k ++ chunk) where
  -- The digest of what was hashed before and what is still to come.
  record Completes (sink0 : K) (expected hashed : Text) (reads : List (Result Text Text)) (sink : K)
      : Type 0 where
    image : Text
    delivered : image_of reads ≡ ok image
    stored : contents sink ≡ contents sink0 ++ image
    digest : encode (sha256 (hashed ++ image)) ≡ expected

  verify-Completes :
      (sink : K) (expected hashed : Text) (progress : List Progress)
      (reads : List (Result Text Text))
      → image_of reads ≡ ok []
      → (verify write sha256 sink expected hashed progress).result ≡ ok tt
      → Completes sink expected hashed reads
          (verify write sha256 sink expected hashed progress).sink
  unfolding verify
  verify-Completes sink expected hashed progress reads d e =
      elim (Bool-cases (text_eq (encode (sha256 hashed)) expected)) [
        | inl same ↦ record {
          image = [];
          delivered = d;
          stored = sym (append-nil (contents sink));
          digest = ap (λ h. encode (sha256 h)) (append-nil hashed) ∙ eq_of_text_eq _ _ same;
        }
        | inr other ↦ absurd (ground (arith, other, e))
      ]

  download-Completes :
      (sink : K) (expected hashed : Text) (written : ℕ) (progress : List Progress)
      (reads : List (Result Text Text))
      → (download write sha256 sink expected hashed written progress reads).result ≡ ok tt
      → Completes sink expected hashed reads
          (download write sha256 sink expected hashed written progress reads).sink
  unfolding download image_of
  download-Completes sink expected hashed written progress [] =
      verify-Completes sink expected hashed progress [] refl
  download-Completes sink expected hashed written progress (err failure ∷ reads) = λ e. cc
  download-Completes sink expected hashed written progress (ok [] ∷ reads) =
      verify-Completes sink expected hashed progress (ok [] ∷ reads) refl
  download-Completes sink expected hashed written progress (ok (b ∷ bs) ∷ reads) =
      let chunk = b ∷ bs in
      let sink' = (write sink chunk).0 in
      let written' = sat_add32 written (length chunk) in
      elim (Result-cases (write sink chunk).1) [
        | inr (failure, f) ↦ rw (f, download) (λ e. cc)
        | inl (done, f) ↦
            rw (f, download)
              (λ e.
                let c =
                  download-Completes sink' expected (hashed ++ chunk) written'
                    (downloaded written' ∷ progress) reads e in
                record {
                  image = chunk ++ c.image;
                  delivered = rw (c.delivered) refl;
                  stored =
                      c.stored
                      ∙ ap (λ t. t ++ c.image) (appends sink chunk f)
                      ∙ append_assoc (contents sink) chunk c.image;
                  digest =
                      ap (λ h. encode (sha256 h)) (sym (append_assoc hashed chunk c.image))
                      ∙ c.digest;
                })
      ]

  -- An installation that succeeds has appended to the sink exactly the bytes that the source delivered, and
  -- their digest is the expected one. (A write that succeeds appends its chunk.)
  pub install_verified_lem :
      (sink : K) (reads : List (Result Text Text)) (expected : Text)
      → (install_verified write sha256 sink reads expected).result ≡ ok tt
      → (image : Text) × (image_of reads ≡ ok image)
        × (contents (install_verified write sha256 sink reads expected).sink
            ≡ contents sink ++ image)
        × (encode (sha256 image) ≡ expected)
  unfolding install_verified
  install_verified_lem sink reads expected e =
      let c = download-Completes sink expected [] 0 [] reads e in
      (c.image, c.delivered, c.stored, c.digest)

-- The outcome with a sink that stores whatever it is given.
pub spec_install : (Text → Text) → Text → Text → Result Text Text → Result InstallError (Unit {0})
spec_install sha256 expected hashed (err failure) = err (source_failed failure)
spec_install sha256 expected hashed (ok image) =
    let actual = encode (sha256 (hashed ++ image)) in
    if text_eq actual expected then ok tt else err (checksum expected actual)

spec_install-before :
    (sha256 : Text → Text) (expected hashed chunk : Text) (rest : Result Text Text)
    → spec_install sha256 expected (hashed ++ chunk) rest
      ≡ spec_install sha256 expected hashed (before chunk rest)
unfolding spec_install
spec_install-before sha256 expected hashed chunk (err failure) = refl
spec_install-before sha256 expected hashed chunk (ok rest) =
    rw (append_assoc hashed chunk rest) refl

module _ {K : Type 0} (write : K → Text → K × Result Text (Unit {0})) (sha256 : Text → Text)
    (stores : (k : K) (chunk : Text) → (write k chunk).1 ≡ ok tt) where
  download-outcome :
      (sink : K) (expected hashed : Text) (written : ℕ) (progress : List Progress)
      (reads : List (Result Text Text))
      → (download write sha256 sink expected hashed written progress reads).result
        ≡ spec_install sha256 expected hashed (image_of reads)
  unfolding download image_of spec_install verify
  download-outcome sink expected hashed written progress [] = rw (append-nil hashed) refl
  download-outcome sink expected hashed written progress (err failure ∷ reads) = refl
  download-outcome sink expected hashed written progress (ok [] ∷ reads) =
      rw (append-nil hashed) refl
  download-outcome sink expected hashed written progress (ok (b ∷ bs) ∷ reads) =
      let chunk = b ∷ bs in
      let sink' = (write sink chunk).0 in
      let written' = sat_add32 written (length chunk) in
      rw (stores sink chunk, download)
        (download-outcome sink' expected (hashed ++ chunk) written' (downloaded written' ∷ progress)
            reads
          ∙ spec_install-before sha256 expected hashed chunk (image_of reads))

  -- With a sink that stores whatever it is given, the outcome is that of the specification on every branch: the
  -- source's own error where it fails before its end, a checksum error with both digests where the digest of
  -- the image differs, and success otherwise.
  pub install_verified-outcome :
      (sink : K) (reads : List (Result Text Text)) (expected : Text)
      → (install_verified write sha256 sink reads expected).result
        ≡ spec_install sha256 expected [] (image_of reads)
  unfolding install_verified
  install_verified-outcome sink reads expected = download-outcome sink expected [] 0 [] reads
