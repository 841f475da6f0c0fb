-- ===== src/Portal/Replies.antt =====
-- A reply stays within the packet that it copies from and the buffer that it is written to.
use esp32_streamline.Prelude.{
  ℕ, zero, suc, ◌+◌, ◌-◌, ◌≤◌, ◌<◌, ◌≡◌, refl, Bool-cases, not, ◌||◌, Option, none, some,
  Option-cases, List, [], ◌∷◌, ◌++◌, length, take, drop, length-append, length-take, length-drop,
  get_elem?, ltb, ◌==◌, if◌then◌else◌, and_then-eq_some, inl, inr, arith,
}
use mathlib.Core.Path.{subst}
use esp32_streamline.Portal.{
  header_bytes, max_name_bytes, answer_bytes, read_u16, Question, question_at, read_kind, labels,
  parse, has_answer, response_len, answer, after_id, written, reply_to, checked, dns_reply,
  is_no_query,
}

get_elem?-lt : (xs : List ℕ) (i : ℕ) {a : ℕ} → get_elem? xs i ≡ some a → i < length xs
get_elem?-lt [] i e = cc
get_elem?-lt (x ∷ xs) zero e = omega arith
get_elem?-lt (x ∷ xs) (suc i) e = omega (arith, get_elem?-lt xs i e)

read_u16-lt :
    (packet : List ℕ) (offset : ℕ) {v : ℕ}
    → read_u16 packet offset ≡ some v
    → offset + 1 < length packet
unfolding read_u16
read_u16-lt packet offset e =
    let (high, f, g) = and_then-eq_some (get_elem? packet offset) _ e in
    let (low, f', g') = and_then-eq_some (get_elem? packet (offset + 1)) _ g in
    get_elem?-lt packet (offset + 1) f'

-- The question ends within the packet, after the name from the cursor on.
abbrev EndsWithin : List ℕ → ℕ → Option Question → Type 0
EndsWithin packet cursor none = Unit
EndsWithin packet cursor (some q) = (q.end ≤ length packet) × (cursor ≤ q.end)

question_at-EndsWithin :
    (packet : List ℕ) (cursor : ℕ) (kind class : Option ℕ)
    → read_u16 packet (cursor + 2) ≡ class
    → EndsWithin packet cursor (question_at cursor kind class)
question_at-EndsWithin packet cursor none class e = tt
question_at-EndsWithin packet cursor (some kind) none e = tt
question_at-EndsWithin packet cursor (some kind) (some class) e =
    (omega (arith, read_u16-lt packet (cursor + 2) e), omega arith)

read_kind-EndsWithin :
    (packet : List ℕ) (cursor : ℕ) → EndsWithin packet cursor (read_kind packet cursor)
unfolding read_kind
read_kind-EndsWithin packet cursor =
    elim (Bool-cases (ltb max_name_bytes (cursor - header_bytes))) [
      | inl long ↦ rw (long) tt
      | inr short ↦ rw (short, read_kind) (question_at-EndsWithin packet cursor _ _ refl)
    ]

weaker :
    (packet : List ℕ) (cursor next : ℕ) (q : Option Question)
    → cursor ≤ next
    → EndsWithin packet next q
    → EndsWithin packet cursor q
weaker packet cursor next none h e = tt
weaker packet cursor next (some q) h (within, after) = (within, omega (arith, h, after))

labels-EndsWithin :
    (fuel : ℕ) (packet : List ℕ) (cursor : ℕ) → EndsWithin packet cursor (labels fuel packet cursor)
unfolding labels
labels-EndsWithin zero packet cursor = tt
labels-EndsWithin (suc fuel) packet cursor = elim (Option-cases (get_elem? packet cursor)) [
  | inl past ↦ rw (past, labels) tt
  | inr (n, e) ↦
      let next = cursor + 1 + n in
      elim (Bool-cases (n == 0)) [
        | inl last ↦
            rw (e, last, labels)
              (weaker packet cursor (cursor + 1) _ (omega arith)
                (read_kind-EndsWithin packet (cursor + 1)))
        | inr more ↦ elim (Bool-cases (ltb 63 n)) [
          | inl extended ↦ rw (e, more, extended, labels) tt
          | inr label ↦ elim (Option-cases (get_elem? packet (next - 1))) [
            | inl cut ↦ rw (e, more, label, cut, labels) tt
            | inr (b, f) ↦ elim (Bool-cases (ltb max_name_bytes (next - header_bytes))) [
              | inl long ↦ rw (e, more, label, f, long, labels) tt
              | inr short ↦
                  rw (e, more, label, f, short, labels)
                    (weaker packet cursor next _ (omega arith) (labels-EndsWithin fuel packet next))
            ]
          ]
        ]
      ]
]

-- What the sender of a query can rely on.
pub record IsReply (query : List ℕ) (room : ℕ) (response : List ℕ) : Type 0 where
  pub fits : length response ≤ room
  pub small : length response ≤ length query + answer_bytes
  same_id : take 2 response ≡ take 2 query

take-take-append :
    (query rest : List ℕ) → 2 ≤ length query → take 2 (take 2 query ++ rest) ≡ take 2 query
take-take-append [] rest h = absurd (omega (arith, h))
take-take-append (a ∷ []) rest h = absurd (omega (arith, h))
take-take-append (a ∷ b ∷ query) rest h = refl

module _ (address : List ℕ) (four : length address ≡ 4) where
  answer-length :
      (q : Question)
      → length (if has_answer q then answer address else [])
        ≡ (if has_answer q then answer_bytes else 0)
  unfolding answer
  answer-length q = elim (Bool-cases (has_answer q)) [
    | inl yes_answer ↦ rw (yes_answer) (omega (arith, four))
    | inr no_answer ↦ rw (no_answer) refl
  ]

  written-length :
      (query : List ℕ) (flags : ℕ) (q : Question)
      → 12 ≤ q.end
      → q.end ≤ length query
      → length (written query address flags q) ≡ response_len q
  unfolding written after_id
  written-length query flags q low high =
      let name = take (q.end - header_bytes) (drop header_bytes query) in
      let last = if has_answer q then answer address else [] in
      omega (
        arith,
        low,
        high,
        answer-length q,
        length-append name last,
        length-append (take 2 query) (after_id query address flags q),
        length-take 2 query,
        length-take (q.end - header_bytes) (drop header_bytes query),
        length-drop header_bytes query,
      )

  answer_bound : (q : Question) → (if has_answer q then answer_bytes else 0) ≤ 16
  answer_bound q = elim (Bool-cases (has_answer q)) [
    | inl a ↦ rw (a) (omega arith)
    | inr a ↦ rw (a) (omega arith)
  ]

  reply_to-IsReply :
      (query : List ℕ) (room flags : ℕ) (parsed : Option Question) {response : List ℕ}
      → EndsWithin query header_bytes parsed
      → reply_to query address room flags parsed ≡ some response
      → IsReply query room response
  unfolding written
  reply_to-IsReply query room flags none h e = cc
  reply_to-IsReply query room flags (some q) {response} (high, low) e =
      elim (Bool-cases (ltb room (response_len q))) [
        | inl small_room ↦ absurd (ground (arith, small_room, e))
        | inr enough ↦
            let f : written query address flags q ≡ response = ground (arith, enough, e) in
            let n = written-length query flags q low high in
            subst (IsReply query room) f (record {
              fits = ground (arith, enough, n);
              small = omega (arith, n, high, answer_bound q);
              same_id =
                  take-take-append query (after_id query address flags q)
                    (omega (arith, low, high));
            })
      ]

  checked-IsReply :
      (query : List ℕ) (room : ℕ) (flags questions : Option ℕ) {response : List ℕ}
      → checked query address room flags questions ≡ some response
      → IsReply query room response
  unfolding checked parse
  checked-IsReply query room none questions = λ e. cc
  checked-IsReply query room (some flags) none = λ e. cc
  checked-IsReply query room (some flags) (some questions) =
      elim (Bool-cases (is_no_query flags || not (questions == 1))) [
        | inl refused ↦ rw (refused, checked) (λ e. cc)
        | inr query_only ↦
            rw (query_only, checked)
              (λ e.
                reply_to-IsReply query room flags (parse query)
                  (labels-EndsWithin 256 query header_bytes) e)
      ]

  -- For an address of four bytes, a reply fits the buffer it is written to, is at most 16 bytes longer than
  -- the query, and carries the query's identifier.
  pub dns_reply-IsReply :
      (query : List ℕ) (room : ℕ) {response : List ℕ}
      → dns_reply query address room ≡ some response
      → IsReply query room response
  unfolding dns_reply
  dns_reply-IsReply query room e =
      checked-IsReply query room (read_u16 query 2) (read_u16 query 4) e
