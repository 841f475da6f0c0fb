-- ===== src/Portal.antt =====
-- The name server of the setup network: `dns_reply` of firmware/streamline/src/captive_portal.rs. A packet
-- is its bytes; an index is a `usize`, whose `checked_add` cannot fail below the length of a packet. The
-- response is the bytes written, where the caller's buffer of a given size has room for them.
pub mod Replies
pub mod Fuel
mod Tests
use esp32_streamline.Prelude.{
  ℕ, zero, suc, ◌+◌, ◌-◌, ◌*◌, ◌/◌, ◌%◌, Bool, true, false, not, ◌&&◌, ◌||◌, Option, none, some,
  List, [], ◌∷◌, ◌++◌, length, take, drop, get_elem?, ltb, leb, ◌==◌, if◌then◌else◌, and_then,
}

abbrev pub header_bytes : ℕ
header_bytes = 12

abbrev pub max_name_bytes : ℕ
max_name_bytes = 255

abbrev pub answer_bytes : ℕ
answer_bytes = 16

abbrev ttl_seconds : ℕ
ttl_seconds = 60

pub read_u16 : List ℕ → ℕ → Option ℕ
read_u16 packet offset =
    and_then (get_elem? packet offset)
      (λ high. and_then (get_elem? packet (offset + 1)) (λ low. some (high * 256 + low)))

pub record Question : Type 0 where
  pub end : ℕ
  pub kind : ℕ
  pub class : ℕ

abbrev pub question_at : ℕ → Option ℕ → Option ℕ → Option Question
question_at cursor (some kind) (some class) =
    some (record { end = cursor + 4; kind = kind; class = class })
question_at cursor _ _ = none

-- After the name.
pub read_kind : List ℕ → ℕ → Option Question
unfolding read_u16
read_kind packet cursor =
    if ltb max_name_bytes (cursor - header_bytes)
    then none
    else question_at cursor (read_u16 packet cursor) (read_u16 packet (cursor + 2))

-- The loop over the labels. Each moves the cursor by one byte at least, and no further than
-- `MAX_NAME_BYTES` past the header, so 256 turns are enough.
pub labels : ℕ → List ℕ → ℕ → Option Question
unfolding read_kind
labels zero packet cursor = none
labels (suc fuel) packet cursor =
    let label_len = get_elem? packet cursor in
    elim label_len [
      | none ↦ none
      | some n ↦
          let next = cursor + 1 + n in
          let further = labels fuel packet next in
          if n == 0
          then read_kind packet (cursor + 1)
          else (if ltb 63 n then none else (elim (get_elem? packet (next - 1)) [
            | none ↦ none
            | some _ ↦ if ltb max_name_bytes (next - header_bytes) then none else further
          ]))
    ]

pub parse : List ℕ → Option Question
unfolding labels
parse packet = labels 256 packet header_bytes

abbrev to_be_bytes : ℕ → List ℕ
to_be_bytes n = n / 256 % 256 ∷ n % 256 ∷ []

-- `kind == TYPE_A && class == CLASS_IN`.
abbrev pub has_answer : Question → Bool
has_answer q = (q.kind == 1) && (q.class == 1)

abbrev pub response_len : Question → ℕ
response_len q = q.end + (if has_answer q then answer_bytes else 0)

-- `address` is its four octets.
pub answer : List ℕ → List ℕ
answer address =
    (192 ∷ 12 ∷ [])
    ++ to_be_bytes 1
    ++ to_be_bytes 1
    ++ (0 ∷ 0 ∷ 0 ∷ ttl_seconds ∷ [])
    ++ to_be_bytes 4
    ++ address

-- `0x8400 | (flags & 0x0100)`.
abbrev reply_flags : ℕ → ℕ
reply_flags flags = 33792 + flags / 256 % 2 * 256

-- All after the identifier.
pub after_id : List ℕ → List ℕ → ℕ → Question → List ℕ
unfolding answer
after_id query address flags q =
    to_be_bytes (reply_flags flags)
    ++ to_be_bytes 1
    ++ to_be_bytes (if has_answer q then 1 else 0)
    ++ (0 ∷ 0 ∷ 0 ∷ 0 ∷ [])
    ++ take (q.end - header_bytes) (drop header_bytes query)
    ++ (if has_answer q then answer address else [])

pub written : List ℕ → List ℕ → ℕ → Question → List ℕ
unfolding after_id
written query address flags q = take 2 query ++ after_id query address flags q

-- `flags & 0x8000 != 0 || flags & 0x7800 != 0`.
abbrev pub is_no_query : ℕ → Bool
is_no_query flags = not (flags / 32768 % 2 == 0) || not (flags / 2048 % 16 == 0)

abbrev pub reply_to : List ℕ → List ℕ → ℕ → ℕ → Option Question → Option (List ℕ)
reply_to query address room flags none = none
reply_to query address room flags (some q) =
    if ltb room (response_len q) then none else some (written query address flags q)

pub checked : List ℕ → List ℕ → ℕ → Option ℕ → Option ℕ → Option (List ℕ)
unfolding parse written
checked query address room (some flags) (some questions) =
    if is_no_query flags || not (questions == 1)
    then none
    else reply_to query address room flags (parse query)
checked query address room _ _ = none

-- The bytes of the response, whose number the code returns; `room` is the size of the buffer.
pub dns_reply : List ℕ → List ℕ → ℕ → Option (List ℕ)
unfolding checked read_u16
dns_reply query address room = checked query address room (read_u16 query 2) (read_u16 query 4)
