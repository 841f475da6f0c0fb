-- ===== src/Auth.antt =====
-- Digest authentication (firmware/streamline/src/auth.rs): the table of nonces and the verdict on a request.
-- A request carries the fields that `Header.parse_digest_fields` reads from its header, or `none`.
pub mod Spent
pub mod Replay
pub mod Header
pub mod Parsed
pub mod Turns
mod Tests
use Prim.Native.Nat.{bit_or, bit_xor}
use esp32_streamline.Prelude.{
  ℕ, ◌+◌, ◌-◌, ◌*◌, Bool, true, false, not, ◌||◌, Option, none, some, Result, ok, err, List, [],
  ◌∷◌, ◌++◌, length, ltb, leb, ◌==◌, if◌then◌else◌, is_some_and, and_then, drop,
}
use esp32_streamline.Prelude.Bytes.{Text, text_eq, bytes}
use esp32_streamline.Hex.{encode}

abbrev pub username : Text
username = bytes "admin"

abbrev pub realm : Text
realm = bytes "streamline"

abbrev nonce_ttl_ms : ℕ
nonce_ttl_ms = 60 * 60 * 1000

abbrev pub nonce_bytes : ℕ
nonce_bytes = 16

abbrev max_nonces : ℕ
max_nonces = 4

pub data Verdict : Type 0 where
  authorized : Verdict
  denied : (stale : Bool) → Verdict

pub record Nonce : Type 0 where
  pub value : Text
  pub issued_at_ms : ℕ
  pub last_nc : ℕ

pub is_live : ℕ → Nonce → Bool
is_live now n = ltb (now - n.issued_at_ms) nonce_ttl_ms

pub retain_live : ℕ → List Nonce → List Nonce
retain_live now [] = []
retain_live now (n ∷ ns) = if is_live now n then n ∷ retain_live now ns else retain_live now ns

pub make_room : List Nonce → List Nonce
make_room ns = if leb max_nonces (length ns) then drop 1 ns else ns

unfoldable header : Text → Bool → Text
header value stale =
    bytes "Digest realm=\"streamline\", qop=\"auth\", algorithm=SHA-256, nonce=\""
    ++ value
    ++ bytes "\""
    ++ (if stale then bytes ", stale=true" else [])

-- `RandomBytes` of random.rs, as in the transport keys: `fill n` gives `n` bytes and the generator's state.
module _ {R : Type 0} (fill : ℕ → R → List ℕ × R) where
  pub challenge : List Nonce → R → ℕ → Bool → List Nonce × R × Text
  challenge ns r now stale =
      let (random, r') = fill nonce_bytes r in
      let value = encode random in
      (
        make_room (retain_live now ns)
            ++ (record { value = value; issued_at_ms = now; last_nc = 0 } ∷ []),
        r',
        header value stale,
      )

pub differing_bits : Text → Text → ℕ → ℕ
differing_bits (x ∷ xs) (y ∷ ys) diff = differing_bits xs ys (bit_or diff (bit_xor x y))
differing_bits _ _ diff = diff

pub constant_time_eq : Text → Text → Bool
constant_time_eq a b = if not (length a == length b) then false else differing_bits a b 0 == 0

-- `iter_mut().find(|entry| entry.value == nonce)`, and the write of `last_nc` through what it found.
pub find_nonce : Text → List Nonce → Option Nonce
find_nonce value [] = none
find_nonce value (n ∷ ns) = if text_eq n.value value then some n else find_nonce value ns

pub count_up : Text → ℕ → List Nonce → List Nonce
count_up value count [] = []
count_up value count (n ∷ ns) =
    if text_eq n.value value then record n { last_nc = count } ∷ ns else n ∷ count_up value count ns

pub record_verdict : Text → ℕ → List Nonce → Verdict → List Nonce × Verdict
record_verdict value count ns authorized = (count_up value count ns, authorized)
record_verdict value count ns (denied stale) = (ns, denied stale)

pub record Fields : Type 0 where
  pub username : Option Text
  pub realm : Option Text
  pub nonce : Option Text
  pub uri : Option Text
  pub response : Option Text
  pub qop : Option Text
  pub nc : Option Text
  pub cnonce : Option Text
  pub algorithm : Option Text

-- The eight fields that a request must have.
pub record Claim : Type 0 where
  pub username : Text
  pub realm : Text
  pub nonce : Text
  pub uri : Text
  pub response : Text
  pub qop : Text
  pub nc : Text
  pub cnonce : Text
  pub algorithm : Option Text

pub required : Fields → Option Claim
required f = and_then f.username (λ username. and_then f.realm (λ realm. and_then f.nonce (λ nonce.
    and_then f.uri (λ uri. and_then f.response (λ response. and_then f.qop (λ qop.
      and_then f.nc (λ nc. and_then f.cnonce (λ cnonce. some (record {
        username = username;
        realm = realm;
        nonce = nonce;
        uri = uri;
        response = response;
        qop = qop;
        nc = nc;
        cnonce = cnonce;
        algorithm = f.algorithm;
      })))))))))

pub record Request : Type 0 where
  pub method : Text
  pub uri : Text
  pub authorization : Option Fields

pub claim_of : Request → Option Claim
claim_of q = and_then q.authorization required

pub is_foreign : Request → Claim → Bool
is_foreign q c =
    not (text_eq c.username username)
    || not (text_eq c.realm realm)
    || not (text_eq c.uri q.uri)
    || not (text_eq c.qop (bytes "auth"))
    || is_some_and c.algorithm (λ a. not (text_eq a (bytes "SHA-256")))

abbrev colon : Text
colon = bytes ":"

-- `digest` is SHA-256 and `parse_count` is `u32::from_str_radix(_, 16)`, both of libraries.
module _ (digest : Text → Text) (parse_count : Text → Option ℕ) where
  pub sha256_hex : Text → Text
  sha256_hex input = encode (digest input)

  pub response_hash : Text → Request → Claim → Text
  response_hash secret q c =
      let ha1 = sha256_hex (username ++ colon ++ realm ++ colon ++ secret) in
      let ha2 = sha256_hex (q.method ++ colon ++ q.uri) in
      sha256_hex
        (ha1 ++ colon ++ c.nonce ++ colon ++ c.nc ++ colon ++ c.cnonce ++ bytes ":auth:" ++ ha2)

  pub judge : Text → Request → Claim → ℕ → ℕ → Option Nonce → Verdict
  judge secret q c count now none = denied true
  judge secret q c count now (some entry) =
      if not (is_live now entry)
      then denied true
      else if leb count entry.last_nc
      then denied true
      else if not (constant_time_eq (response_hash secret q c) c.response)
      then denied false
      else authorized

  pub check_count : Text → Request → Claim → ℕ → Option ℕ → List Nonce → List Nonce × Verdict
  check_count secret q c now none ns = (ns, denied false)
  check_count secret q c now (some count) ns =
      record_verdict c.nonce count ns (judge secret q c count now (find_nonce c.nonce ns))

  pub check_claim : Text → Request → ℕ → Option Claim → List Nonce → List Nonce × Verdict
  check_claim secret q now none ns = (ns, denied false)
  check_claim secret q now (some c) ns =
      if is_foreign q c
      then (ns, denied false)
      else check_count secret q c now (parse_count c.nc) ns

  pub authorize : List Nonce → Text → Request → ℕ → List Nonce × Verdict
  authorize ns [] q now = (ns, authorized)
  authorize ns (k ∷ secret) q now = check_claim (k ∷ secret) q now (claim_of q) ns
