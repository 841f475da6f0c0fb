-- ===== src/Ota/Release/Versions.antt =====
-- Versions as numbers: what `is_newer` says of three numbers that are printed.
use esp32_streamline.Prelude.{
  ℕ, zero, suc, ◌+◌, ◌/◌, ◌%◌, ◌≤◌, ◌<◌, ◌≡◌, refl, sym, ◌∙◌, Bool, true, false, Bool-cases, ◌⊎◌,
  inl, inr, none, some, [], ◌∷◌, ◌++◌, arith, ltb, ◌==◌,
}
use esp32_streamline.Prelude.Bytes.{Text, contains_byte, all_bytes}
use esp32_streamline.Prelude.Decimal.{decimal, digits_onto}
use esp32_streamline.Prelude.Strings.{
  split, parse_u32, parse_digits, parse_some_digits, is_ascii_digit,
}
use esp32_streamline.Prelude.Words.{u32_mod}
use esp32_streamline.Ota.Release.{is_newer, parse_semver, semver_of, newer_of, tuple_less}

pub record Version : Type 0 where
  pub major : ℕ
  pub minor : ℕ
  pub patch : ℕ

-- Three decimal numbers with dots between them.
pub print : Version → Text
print v = decimal v.major ++ (b'.' ∷ (decimal v.minor ++ (b'.' ∷ decimal v.patch)))

unfoldable pub Fits : Version → Type 0
Fits v = (v.major < u32_mod) × (v.minor < u32_mod) × (v.patch < u32_mod)

parse_digits-digits_onto :
    (fuel n : ℕ) (done : Text)
    → n ≤ fuel
    → n < u32_mod
    → parse_digits (digits_onto fuel n done) 0 ≡ parse_digits done n
unfolding digits_onto parse_digits
parse_digits-digits_onto zero n done enough fits = ground arith
parse_digits-digits_onto (suc fuel) n done enough fits =
    ground (arith, parse_digits-digits_onto fuel (n / 10) ((b'0' + n % 10) ∷ done))

all-digits_onto :
    (fuel n : ℕ) (done : Text)
    → all_bytes is_ascii_digit done ≡ true
    → all_bytes is_ascii_digit (digits_onto fuel n done) ≡ true
unfolding digits_onto all_bytes
all-digits_onto zero n done h = ground (arith, h)
all-digits_onto (suc fuel) n done h =
    ground (arith, h, all-digits_onto fuel (n / 10) ((b'0' + n % 10) ∷ done))

digits_onto-cons :
    (fuel n : ℕ) (done : Text) → (c : ℕ) × (cs : Text) × (digits_onto fuel n done ≡ c ∷ cs)
unfolding digits_onto
digits_onto-cons zero n done = (b'0' + n % 10, done, refl)
digits_onto-cons (suc fuel) n done = elim (Bool-cases (ltb n 10)) [
  | inl last ↦ rw last (b'0' + n, done, refl)
  | inr more ↦ rw more (digits_onto-cons fuel (n / 10) ((b'0' + n % 10) ∷ done))
]

all-decimal : (n : ℕ) → all_bytes is_ascii_digit (decimal n) ≡ true
unfolding decimal all_bytes
all-decimal n = all-digits_onto n n [] refl

parse_u32-digits :
    (s : Text) (c : ℕ) (cs : Text)
    → s ≡ c ∷ cs
    → all_bytes is_ascii_digit s ≡ true
    → parse_u32 s ≡ parse_digits s 0
unfolding parse_u32 parse_some_digits all_bytes
parse_u32-digits [] c cs e h = cc
parse_u32-digits (x ∷ xs) c cs e h = ground (arith, h)

-- A number of 32 bits is read back from its decimal print.
parse_u32-decimal : (n : ℕ) → n < u32_mod → parse_u32 (decimal n) ≡ some n
unfolding decimal parse_digits
parse_u32-decimal n fits =
    let (c, cs, e) = digits_onto-cons n n [] in
    parse_u32-digits (decimal n) c cs e (all-decimal n)
    ∙ parse_digits-digits_onto n n [] (omega arith) fits

split-absent : (s : Text) → contains_byte b'.' s ≡ false → split b'.' s ≡ s ∷ []
unfolding split contains_byte
split-absent [] h = refl
split-absent (x ∷ s) h = ground (arith, h, split-absent s)

split-found :
    (s rest : Text)
    → contains_byte b'.' s ≡ false
    → split b'.' (s ++ b'.' ∷ rest) ≡ s ∷ split b'.' rest
unfolding split contains_byte
split-found [] rest h = refl
split-found (x ∷ s) rest h = ground (arith, h, split-found s rest)

digits-contains_byte : (s : Text) → all_bytes is_ascii_digit s ≡ true → contains_byte b'.' s ≡ false
unfolding all_bytes contains_byte
digits-contains_byte [] h = refl
digits-contains_byte (c ∷ s) h = ground (arith, h, digits-contains_byte s)

no_dot : (n : ℕ) → contains_byte b'.' (decimal n) ≡ false
no_dot n = digits-contains_byte (decimal n) (all-decimal n)

split-print :
    (v : Version) → split b'.' (print v) ≡ decimal v.major ∷ decimal v.minor ∷ decimal v.patch ∷ []
unfolding print
split-print v =
    split-found (decimal v.major) (decimal v.minor ++ (b'.' ∷ decimal v.patch)) (no_dot v.major)
    ∙ rw (split-found (decimal v.minor) (decimal v.patch) (no_dot v.minor))
        (rw (split-absent (decimal v.patch) (no_dot v.patch)) refl)

parse_semver-print :
    (v : Version) → Fits v → parse_semver (print v) ≡ some (v.major, v.minor, v.patch)
unfolding parse_semver semver_of Fits
parse_semver-print v fits =
    rw
      (
        split-print v,
        parse_u32-decimal v.major fits.0,
        parse_u32-decimal v.minor fits.1,
        parse_u32-decimal v.patch fits.2,
      )
      refl

parse_semver-absent : (s : Text) → contains_byte b'.' s ≡ false → parse_semver s ≡ none
unfolding parse_semver semver_of
parse_semver-absent s h = rw (split-absent s h) refl

-- The first of the numbers that differ decides.
abbrev Precedes : Version → Version → Type 0
Precedes u v =
    (u.major < v.major)
    ⊎ ((u.major ≡ v.major) × ((u.minor < v.minor) ⊎ ((u.minor ≡ v.minor) × (u.patch < v.patch))))

-- The three cases of a comparison in both directions, and the only ones.
pub IsJudged : Version → Version → (newer older : Bool) → Type 0
IsJudged u v newer older =
    (Precedes u v × (newer ≡ true) × (older ≡ false))
    ⊎ ((u ≡ v) × (newer ≡ false) × (older ≡ false))
    ⊎ (Precedes v u × (newer ≡ false) × (older ≡ true))

tuples : Version → ℕ × ℕ × ℕ
tuples v = (v.major, v.minor, v.patch)

Compared : ℕ → ℕ → Type 0
Compared a b = (a < b) ⊎ ((a ≡ b) ⊎ (b < a))

compared : (a b : ℕ) → Compared a b
unfolding Compared
compared a b = elim (Bool-cases (ltb a b)) [
  | inl less ↦ inl (ground (arith, less))
  | inr not_less ↦ elim (Bool-cases (a == b)) [
    | inl same ↦ inr (inl (ground (arith, same)))
    | inr other ↦ inr (inr (ground (arith, not_less, other)))
  ]
]

tuple_less-Judged :
    (u v : Version)
    → IsJudged u v (tuple_less (tuples u) (tuples v)) (tuple_less (tuples v) (tuples u))
unfolding IsJudged tuples Compared
tuple_less-Judged u v = elim (compared u.major v.major) [
  | inl less ↦ inl (inl less, ground arith, ground arith)
  | inr (inr more) ↦ inr (inr (inl more, ground arith, ground arith))
  | inr (inl major) ↦ elim (compared u.minor v.minor) [
    | inl less ↦ inl (inr (major, inl less), ground arith, ground arith)
    | inr (inr more) ↦ inr (inr (inr (sym major, inl more), ground arith, ground arith))
    | inr (inl minor) ↦ elim (compared u.patch v.patch) [
      | inl less ↦ inl (inr (major, inr (minor, less)), ground arith, ground arith)
      | inr (inr more) ↦
          inr (inr (inr (sym major, inr (sym minor, more)), ground arith, ground arith))
      | inr (inl patch) ↦ inr (
          inl (
            λ i. record { major = major i; minor = minor i; patch = patch i },
            ground arith,
            ground arith,
          ))
    ]
  ]
]

-- Of two versions printed as three decimal numbers with dots, exactly the one is newer that is larger in the first
-- number that differs, and neither is if all three are equal. And a text without a dot is no version: every
-- printed version is newer than it, and it is newer than nothing of these. (The numbers fit u32.)
pub is_newer-print :
    (u v : Version) (s : Text)
    → Fits u
    → Fits v
    → contains_byte b'.' s ≡ false
    → IsJudged u v (is_newer (print u) (print v)) (is_newer (print v) (print u))
      × (is_newer s (print v) ≡ true)
      × (is_newer (print v) s ≡ false)
      × (is_newer s s ≡ false)
unfolding is_newer newer_of tuples
is_newer-print u v s fits_u fits_v no_dots =
    rw (parse_semver-print u fits_u, parse_semver-print v fits_v, parse_semver-absent s no_dots)
      (tuple_less-Judged u v, refl, refl, refl)
