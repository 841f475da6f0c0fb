-- ===== src/Auth/Tests.antt =====
-- A request that is accepted, and its replay.
use esp32_streamline.Hex.{encode}
use esp32_streamline.Prelude.{
  true, false, ℕ, ◌+◌, ◌≢◌, refl, arith, Option, none, some, List, [], ◌∷◌, replicate,
}
use esp32_streamline.Prelude.Bytes.{contains_byte, text_eq, Text, bytes}
use esp32_streamline.Auth.{
  differing_bits, constant_time_eq, is_live, find_nonce, judge, record_verdict, check_count,
  is_foreign, required, check_claim, Nonce, Fields, Claim, Request, authorize, authorized, claim_of,
  username, realm, sha256_hex, response_hash,
}
use esp32_streamline.Prelude.{false, &&-both, ◌≡◌, if◌then◌else◌, ◌==◌, ◌++◌}
use esp32_streamline.Prelude.Bytes.{all_bytes}
use esp32_streamline.Auth.Header.{parse_digest_fields}
use esp32_streamline.Auth.Parsed.{
  Field, render, is_graphic, entries_onto, parse_digest_fields-render,
}
use esp32_streamline.Auth.Replay.{Event, challenged, requested, run, no_replay}

abbrev count_of : Text → Option ℕ
count_of [] = none
count_of (c ∷ cs) = some c

abbrev constant_digest : Text → Text
constant_digest t = replicate 32 0

abbrev draw : ℕ → ℕ → List ℕ × ℕ
draw n r = (replicate n (r + 1), r + 1)

abbrev nonce : Text
nonce = bytes "n"

abbrev fields : Fields
fields = record {
  username = some username;
  realm = some realm;
  nonce = some nonce;
  uri = some (bytes "/");
  response = some (replicate 64 48);
  qop = some (bytes "auth");
  nc = some (3 ∷ []);
  cnonce = some [];
  algorithm = none;
}

abbrev claim : Claim
claim = record {
  username = username;
  realm = realm;
  nonce = nonce;
  uri = bytes "/";
  response = replicate 64 48;
  qop = bytes "auth";
  nc = 3 ∷ [];
  cnonce = [];
  algorithm = none;
}

abbrev request : Request
request = record { method = bytes "PUT"; uri = bytes "/"; authorization = some fields }

abbrev table : List Nonce
table = record { value = nonce; issued_at_ms = 0; last_nc = 2 } ∷ []

abbrev between : List Event
between = challenged 60 true ∷ requested request 70 ∷ []

no_replay_example :
    (authorize constant_digest count_of
      (run draw constant_digest count_of
        (1 ∷ [])
        ((authorize constant_digest count_of table (1 ∷ []) request 50).0, 4)
        between).0
      (1 ∷ [])
      request
      90).1
    ≢ authorized
unfolding authorize check_claim claim_of required is_foreign text_eq check_count record_verdict
    judge find_nonce is_live constant_time_eq response_hash sha256_hex encode differing_bits
no_replay_example =
    no_replay draw constant_digest count_of 1 [] table 4 request request 50 90 claim claim 3 3
      between refl refl refl ((λ e. tt), tt) ((λ e. ground arith), tt) refl refl refl (omega arith)

-- `str::trim_start` and `str::trim` on spaces.
abbrev skip_spaces : Text → Text
skip_spaces [] = []
skip_spaces (c ∷ cs) = if c == b' ' then skip_spaces cs else c ∷ cs

abbrev keep_front : ℕ → Text → Text
keep_front c [] = if c == b' ' then [] else c ∷ []
keep_front c (d ∷ ds) = c ∷ d ∷ ds

abbrev skip_end : Text → Text
skip_end [] = []
skip_end (c ∷ cs) = keep_front c (skip_end cs)

abbrev trim_both : Text → Text
trim_both s = skip_end (skip_spaces s)

skip_spaces_graphic : (c : ℕ) (s : Text) → is_graphic c ≡ true → skip_spaces (c ∷ s) ≡ c ∷ s
skip_spaces_graphic c s g = ground (arith, g)

keep_front_graphic : (c : ℕ) (s : Text) → is_graphic c ≡ true → keep_front c s ≡ c ∷ s
keep_front_graphic c [] g = ground (arith, g)
keep_front_graphic c (d ∷ ds) g = refl

skip_end_word : (s : Text) → all_bytes is_graphic s ≡ true → skip_end s ≡ s
unfolding all_bytes
skip_end_word [] h = refl
skip_end_word (c ∷ s) h =
    let (first, rest) = &&-both (is_graphic c) (all_bytes is_graphic s) h in
    rw (skip_end_word s rest) (keep_front_graphic c s first)

trim_both_word : (s : Text) → all_bytes is_graphic s ≡ true → trim_both s ≡ s
unfolding all_bytes
trim_both_word [] h = refl
trim_both_word (c ∷ s) h =
    let (first, rest) = &&-both (is_graphic c) (all_bytes is_graphic s) h in
    rw (skip_spaces_graphic c s first) (skip_end_word (c ∷ s) h)

abbrev sent : List Field
sent =
    record { name = bytes "username"; value = bytes "admin"; quoted = true }
    ∷ record { name = bytes "uri"; value = bytes "/a,b=c"; quoted = true }
    ∷ record { name = bytes "nc"; value = bytes "0000002a"; quoted = false }
    ∷ []

parse_digest_fields-render_example :
    parse_digest_fields skip_spaces trim_both (bytes "Digest " ++ render sent)
    ≡ some (entries_onto sent [])
unfolding all_bytes contains_byte
parse_digest_fields-render_example =
    parse_digest_fields-render skip_spaces trim_both skip_spaces_graphic (λ s. refl) refl
      trim_both_word sent ((refl, refl, refl), ((refl, refl, refl), ((refl, refl, refl), tt)))

-- A quote that is not closed makes the header no digest header.
unclosed_quote : parse_digest_fields skip_spaces trim_both (bytes "Digest nc=1, uri=\"") ≡ none
unfolding parse_digest_fields
unclosed_quote = refl
