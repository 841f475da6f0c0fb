-- ===== src/Auth/Header.antt =====
-- The Authorization header: `parse_digest_fields` (firmware/streamline/src/auth.rs). `str::trim` and
-- `str::trim_start` are parameters; the `HashMap` is a list of pairs whose first entry for a name counts.
use esp32_streamline.Prelude.{
  ℕ, zero, suc, Option, none, some, List, [], ◌∷◌, if◌then◌else◌, ◌==◌, and_then, length,
}
use esp32_streamline.Prelude.Bytes.{Text, text_eq, bytes}
use esp32_streamline.Prelude.Strings.{strip_prefix, split_once, to_ascii_lowercase}
use esp32_streamline.Auth.{Fields, Request}

-- `trim_start_matches(',')`.
unfoldable pub strip_commas : Text → Text
strip_commas [] = []
strip_commas (c ∷ cs) = if c == b',' then strip_commas cs else c ∷ cs

-- `HashMap::get`; `insert` puts an entry in front.
unfoldable pub get : Text → List (Text × Text) → Option Text
unfolding text_eq
get name [] = none
get name (entry ∷ entries) = if text_eq entry.0 name then some entry.1 else get name entries

fields_of : List (Text × Text) → Fields
unfolding get
fields_of entries = record {
  username = get (bytes "username") entries;
  realm = get (bytes "realm") entries;
  nonce = get (bytes "nonce") entries;
  uri = get (bytes "uri") entries;
  response = get (bytes "response") entries;
  qop = get (bytes "qop") entries;
  nc = get (bytes "nc") entries;
  cnonce = get (bytes "cnonce") entries;
  algorithm = get (bytes "algorithm") entries;
}

module _ (trim_start trim : Text → Text) where
  -- A bare token ends at a comma, or at the end.
  abbrev pub bare : Text → Option (Text × Text) → Text × Text
  bare after none = (trim after, [])
  bare after (some (token, remainder)) = (trim token, remainder)

  -- A quoted value ends at the next quote, which has to be there.
  abbrev value_or_bare : Text → Option Text → Option (Text × Text)
  value_or_bare after (some quoted) = split_once (bytes "\"") quoted
  value_or_bare after none = some (bare after (split_once (bytes ",") after))

  unfoldable pub parse_value : Text → Option (Text × Text)
  unfolding split_once strip_prefix
  parse_value after = value_or_bare after (strip_prefix (bytes "\"") after)

  unfoldable pub advance : Text → Text
  unfolding strip_commas
  advance remainder = trim_start (strip_commas (trim_start remainder))

  -- The loop: a turn reads one field.
  unfoldable pub parse_fields : ℕ → Text → List (Text × Text) → Option (List (Text × Text))
  unfolding split_once parse_value advance
  parse_fields fuel [] entries = some entries
  parse_fields zero (c ∷ cs) entries = none
  parse_fields (suc fuel) (c ∷ cs) entries = and_then (split_once (bytes "=") (c ∷ cs)) (λ parts.
      and_then (parse_value parts.1) (λ found.
        parse_fields fuel (advance found.1)
          ((to_ascii_lowercase (trim parts.0), found.0) ∷ entries)))

  unfoldable pub parse_digest_fields : Text → Option (List (Text × Text))
  unfolding parse_fields strip_prefix
  parse_digest_fields header =
      and_then (strip_prefix (bytes "Digest ") header)
        (λ params. let rest = trim_start params in parse_fields (length rest) rest [])

  -- A request with its header, as `authorize` reads it.
  unfoldable pub request : Text → Text → Option Text → Request
  unfolding parse_digest_fields fields_of
  request method uri authorization = record {
    method = method;
    uri = uri;
    authorization =
        and_then authorization
          (λ header. and_then (parse_digest_fields header) (λ entries. some (fields_of entries)));
  }
