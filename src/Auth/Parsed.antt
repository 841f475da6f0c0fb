-- ===== src/Auth/Parsed.antt =====
-- Every header that a client writes for its fields is read back as those fields, and the loop always has
-- turns enough.
use esp32_streamline.Prelude.{
  &&-both, ℕ, zero, suc, ◌≤◌, Bool, true, false, not, ◌&&◌, none, some, List, [], ◌∷◌, ◌++◌, ◌==◌,
  and_then, length, ◌≡◌, refl, ap, ap₂, ==_iff, ◌∙◌, sym, arith, leb, length-append, Bool-cases,
  inl, inr,
}
use mathlib.Core.List.{append-nil}
use esp32_streamline.Prelude.Bytes.{Text, bytes, contains_byte, all_bytes}
use esp32_streamline.Prelude.Strings.{strip_prefix, split_once, to_ascii_lowercase}
use esp32_streamline.Auth.Header.{
  strip_commas, parse_value, bare, advance, parse_fields, parse_digest_fields,
}

-- A field as a client writes it, with its value in quotes or bare.
pub record Field : Type 0 where
  pub name : Text
  pub value : Text
  pub quoted : Bool

render_value : Bool → Text → Text → Text
render_value true value rest = b'"' ∷ (value ++ b'"' ∷ rest)
render_value false value rest = value ++ rest

-- The fields, with a comma and a space between two of them.
pub render : List Field → Text
unfolding render_value
render [] = []
render (f ∷ []) = f.name ++ b'=' ∷ render_value f.quoted f.value []
render (f ∷ g ∷ fs) = f.name ++ b'=' ∷ render_value f.quoted f.value (b',' ∷ b' ' ∷ render (g ∷ fs))

-- A visible ASCII byte.
abbrev pub is_graphic : ℕ → Bool
is_graphic c = leb 33 c && leb c 126

-- A name: visible, in lower case, and without `=`; it does not begin with a comma.
abbrev is_name_byte : ℕ → Bool
is_name_byte c =
    is_graphic c && not (c == b'=') && not (c == b',') && not (leb b'A' c && leb c b'Z')

abbrev is_token_byte : ℕ → Bool
is_token_byte c = is_graphic c && not (c == b',') && not (c == b'"')

abbrev is_empty : Text → Bool
is_empty [] = true
is_empty (_ ∷ _) = false

abbrev is_value : Bool → Text → Bool
is_value true value = not (contains_byte b'"' value)
is_value false value = not (is_empty value) && all_bytes is_token_byte value

abbrev IsField : Field → Type 0
IsField f =
    (is_empty f.name ≡ false)
    × (all_bytes is_name_byte f.name ≡ true)
    × (is_value f.quoted f.value ≡ true)

abbrev AreFields : List Field → Type 0
AreFields [] = Unit {0}
AreFields (f ∷ fs) = IsField f × AreFields fs

-- The entries that the fields leave, the last one first.
abbrev pub entries_onto : List Field → List (Text × Text) → List (Text × Text)
entries_onto [] entries = entries
entries_onto (f ∷ fs) entries = entries_onto fs ((f.name, f.value) ∷ entries)

split_once-found :
    (c : ℕ) (a rest : Text)
    → contains_byte c a ≡ false
    → split_once (c ∷ []) (a ++ c ∷ rest) ≡ some (a, rest)
unfolding split_once strip_prefix contains_byte
split_once-found c [] rest h = ground arith
split_once-found c (x ∷ a) rest h = ground (arith, split_once-found c a rest)

split_once-absent : (c : ℕ) (a : Text) → contains_byte c a ≡ false → split_once (c ∷ []) a ≡ none
unfolding split_once strip_prefix contains_byte
split_once-absent c [] h = refl
split_once-absent c (x ∷ a) h = ground (arith, split_once-absent c a)

lowercase_names : (a : Text) → all_bytes is_name_byte a ≡ true → to_ascii_lowercase a ≡ a
unfolding all_bytes
lowercase_names [] h = refl
lowercase_names (x ∷ a) h =
    ap₂ (λ y ys. y ∷ ys) (ground (arith, h)) (lowercase_names a (ground (arith, h)))

length-render_value :
    (quoted : Bool) (value rest : Text) → length rest ≤ length (render_value quoted value rest)
unfolding render_value
length-render_value true value rest = rw length-append (ground arith)
length-render_value false value rest = rw length-append (ground arith)

length-render : (fs : List Field) → length fs ≤ length (render fs)
unfolding render
length-render [] = ground arith
length-render (f ∷ []) = rw length-append (ground arith)
length-render (f ∷ g ∷ fs) = rw length-append (
    ground (
      arith,
      length-render (g ∷ fs),
      length-render_value f.quoted f.value (b',' ∷ b' ' ∷ render (g ∷ fs)),
    ))

not-true : (b : Bool) → not b ≡ true → b ≡ false
not-true b h = ground (arith, h)

-- What passes a test has none of the bytes that fail it.
all_bytes-avoids :
    (p : ℕ → Bool) (c : ℕ) (a : Text)
    → p c ≡ false
    → all_bytes p a ≡ true
    → contains_byte c a ≡ false
unfolding all_bytes contains_byte
all_bytes-avoids p c [] bad h = refl
all_bytes-avoids p c (x ∷ a) bad h = elim (Bool-cases (x == c)) [
  | inl same ↦
      let clash =
        sym bad ∙ ap p (sym ((==_iff x c).0 same)) ∙ (&&-both (p x) (all_bytes p a) h).0 in
      cc
  | inr other ↦ rw (other, all_bytes-avoids p c a bad (&&-both (p x) (all_bytes p a) h).1) refl
]

all_bytes-weaken :
    (p q : ℕ → Bool) (a : Text)
    → ((c : ℕ) → p c ≡ true → q c ≡ true)
    → all_bytes p a ≡ true
    → all_bytes q a ≡ true
unfolding all_bytes
all_bytes-weaken p q [] weaker h = refl
all_bytes-weaken p q (x ∷ a) weaker h =
    let (first, rest) = &&-both (p x) (all_bytes p a) h in
    rw (weaker x first, all_bytes-weaken p q a weaker rest) refl

module _ (trim_start trim : Text → Text)
    (on_graphic : (c : ℕ) (s : Text) → is_graphic c ≡ true → trim_start (c ∷ s) ≡ c ∷ s)
    (on_space : (s : Text) → trim_start (b' ' ∷ s) ≡ trim_start s) (on_empty : trim_start [] ≡ [])
    (trim_word : (s : Text) → all_bytes is_graphic s ≡ true → trim s ≡ s) where
  trim_start_name :
      (name rest : Text)
      → is_empty name ≡ false
      → all_bytes is_name_byte name ≡ true
      → trim_start (name ++ rest) ≡ name ++ rest
  unfolding all_bytes
  trim_start_name [] rest filled h = cc
  trim_start_name (c ∷ name) rest filled h = on_graphic c (name ++ rest) (ground (arith, h))

  -- The next field, after a comma and a space, or after the space alone.
  advance_space :
      (name rest : Text)
      → is_empty name ≡ false
      → all_bytes is_name_byte name ≡ true
      → advance trim_start trim (b' ' ∷ (name ++ rest)) ≡ name ++ rest
  unfolding advance strip_commas all_bytes
  advance_space [] rest filled h = cc
  advance_space (c ∷ name) rest filled h =
      let other : (c == b',') ≡ false = ground (arith, h) in
      let starts = on_graphic c (name ++ rest) (ground (arith, h)) in
      rw (on_space, starts, other) starts

  advance_comma :
      (name rest : Text)
      → is_empty name ≡ false
      → all_bytes is_name_byte name ≡ true
      → advance trim_start trim (b',' ∷ b' ' ∷ (name ++ rest)) ≡ name ++ rest
  unfolding advance strip_commas
  advance_comma name rest filled h =
      rw (on_graphic b',' (b' ' ∷ (name ++ rest)) refl, on_space)
        (trim_start_name name rest filled h)

  advance_end : advance trim_start trim [] ≡ []
  unfolding advance strip_commas
  advance_end = rw (on_empty) on_empty

  -- A token does not begin with a quote.
  parse_value-bare :
      (value rest : Text)
      → is_value false value ≡ true
      → parse_value trim_start trim (value ++ rest)
        ≡ some (bare trim_start trim (value ++ rest) (split_once (bytes ",") (value ++ rest)))
  unfolding parse_value strip_prefix all_bytes
  parse_value-bare [] rest h = cc
  parse_value-bare (c ∷ value) rest h = ground (arith, h)

  token_word : (value : Text) → is_value false value ≡ true → trim value ≡ value
  token_word value h = trim_word value (
      all_bytes-weaken is_token_byte is_graphic value (λ c g. ground (arith, g))
        (&&-both (not (is_empty value)) (all_bytes is_token_byte value) h).1)

  token_commas : (value : Text) → is_value false value ≡ true → contains_byte b',' value ≡ false
  token_commas value h =
      all_bytes-avoids is_token_byte b',' value refl
        (&&-both (not (is_empty value)) (all_bytes is_token_byte value) h).1

  -- The value is read, up to what follows it.
  parse_value-end :
      (quoted : Bool) (value : Text)
      → is_value quoted value ≡ true
      → parse_value trim_start trim (render_value quoted value []) ≡ some (value, [])
  unfolding parse_value render_value strip_prefix
  parse_value-end true value h =
      split_once-found b'"' value [] (not-true (contains_byte b'"' value) h)
  parse_value-end false value h =
      parse_value-bare value [] h
      ∙ rw (append-nil, split_once-absent b',' value (token_commas value h), token_word value h)
          refl

  abbrev after_value : Bool → Text → Text
  after_value true next = b',' ∷ b' ' ∷ next
  after_value false next = b' ' ∷ next

  parse_value-next :
      (quoted : Bool) (value next : Text)
      → is_value quoted value ≡ true
      → parse_value trim_start trim (render_value quoted value (b',' ∷ b' ' ∷ next))
        ≡ some (value, after_value quoted next)
  unfolding parse_value render_value strip_prefix
  parse_value-next true value next h =
      split_once-found b'"' value (b',' ∷ b' ' ∷ next) (not-true (contains_byte b'"' value) h)
  parse_value-next false value next h =
      parse_value-bare value (b',' ∷ b' ' ∷ next) h
      ∙ rw (split_once-found b',' value (b' ' ∷ next) (token_commas value h), token_word value h)
          refl

  advance_next :
      (quoted : Bool) (g : Field) (fs : List Field)
      → IsField g
      → advance trim_start trim (after_value quoted (render (g ∷ fs))) ≡ render (g ∷ fs)
  unfolding render
  advance_next true g [] good = advance_comma g.name _ good.0 good.1
  advance_next true g (h ∷ fs) good = advance_comma g.name _ good.0 good.1
  advance_next false g [] good = advance_space g.name _ good.0 good.1
  advance_next false g (h ∷ fs) good = advance_space g.name _ good.0 good.1

  -- One turn on a field whose name stands in front.
  parse_fields-name :
      (name rest : Text) (fuel : ℕ) (entries : List (Text × Text))
      → is_empty name ≡ false
      → all_bytes is_name_byte name ≡ true
      → parse_fields trim_start trim (suc fuel) (name ++ b'=' ∷ rest) entries
        ≡ and_then (parse_value trim_start trim rest) (λ found.
          parse_fields trim_start trim fuel
            (advance trim_start trim found.1)
            ((name, found.0) ∷ entries))
  unfolding parse_fields
  parse_fields-name [] rest fuel entries filled h = cc
  parse_fields-name (c ∷ name) rest fuel entries filled h =
      let absent = all_bytes-avoids is_name_byte b'=' (c ∷ name) refl h in
      let word =
        trim_word (c ∷ name)
          (all_bytes-weaken is_name_byte is_graphic (c ∷ name) (λ c g. ground (arith, g)) h) in
      rw (split_once-found b'=' (c ∷ name) rest absent, word, lowercase_names (c ∷ name) h) refl

  parse_fields-render :
      (fs : List Field) (fuel : ℕ) (entries : List (Text × Text))
      → AreFields fs
      → length fs ≤ fuel
      → parse_fields trim_start trim fuel (render fs) entries ≡ some (entries_onto fs entries)
  unfolding parse_fields render
  parse_fields-render [] zero entries good enough = refl
  parse_fields-render [] (suc fuel) entries good enough = refl
  parse_fields-render (f ∷ []) zero entries good enough = ground (arith, enough)
  parse_fields-render (f ∷ []) (suc fuel) entries good enough =
      parse_fields-name f.name (render_value f.quoted f.value []) fuel entries good.0.0 good.0.1
      ∙ rw (parse_value-end f.quoted f.value good.0.2, advance_end)
          (parse_fields-render [] fuel _ tt (ground (arith, enough)))
  parse_fields-render (f ∷ g ∷ fs) zero entries good enough = ground (arith, enough)
  parse_fields-render (f ∷ g ∷ fs) (suc fuel) entries good enough =
      parse_fields-name f.name (render_value f.quoted f.value (b',' ∷ b' ' ∷ render (g ∷ fs))) fuel
        entries good.0.0 good.0.1
      ∙ rw (parse_value-next f.quoted f.value (render (g ∷ fs)) good.0.2) (
          rw (advance_next f.quoted g fs good.1.0) (
            parse_fields-render (g ∷ fs) fuel ((f.name, f.value) ∷ entries) good.1
              (ground (arith, enough))))

  trim_start-render : (fs : List Field) → AreFields fs → trim_start (render fs) ≡ render fs
  unfolding render
  trim_start-render [] good = on_empty
  trim_start-render (f ∷ []) good = trim_start_name f.name _ good.0.0 good.0.1
  trim_start-render (f ∷ g ∷ fs) good = trim_start_name f.name _ good.0.0 good.0.1

  -- A header that is written from fields, each quoted or not, with a comma and a space between two, is read back
  -- as exactly these fields, the last one first. (A name is not empty, and of visible ASCII bytes other than
  -- capitals, `=` and the comma; a quoted value has no quote; a bare one is not empty, and of visible ASCII
  -- bytes other than the comma and the quote. `trim` leaves texts of such bytes alone, `trim_start` leaves
  -- the empty text and one that begins with such a byte alone, and skips a space.)
  pub parse_digest_fields-render :
      (fs : List Field)
      → AreFields fs
      → parse_digest_fields trim_start trim (bytes "Digest " ++ render fs)
        ≡ some (entries_onto fs [])
  unfolding parse_digest_fields strip_prefix
  parse_digest_fields-render fs good =
      rw (trim_start-render fs good)
        (parse_fields-render fs (length (render fs)) [] good (length-render fs))
