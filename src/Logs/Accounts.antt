-- ===== src/Logs/Accounts.antt =====
-- Every line begun is held or counted as dropped, and the buffer never overruns.
use esp32_streamline.Prelude.{
  ℕ, zero, suc, ◌+◌, ◌-◌, ◌/◌, ◌%◌, ◌≤◌, ◌<◌, min, max, ◌≡◌, refl, ap, sym, ◌∙◌, Bool, true,
  Bool-cases, List, [], ◌∷◌, ◌++◌, length, take, length-append, length-take, ltb, ◌==◌,
  if◌then◌else◌, arith, inl, inr,
}
use esp32_streamline.Prelude.Words.{add64, u64_mod}
use esp32_streamline.Prelude.Strings.{split}
use esp32_streamline.Logs.{
  LogBuffer, reset, Mode, text, escape, sequence, scan, trim_end, cons_trimmed, sanitize, newlines,
  ends_open, drop_line, evict_lines, is_open, open_length, evict, make_room, write, extend,
  terminate, append_rest, append_segments, append, max_line_bytes,
}

abbrev bit : Bool → ℕ
bit b = if b then 1 else 0

-- The lines of stored bytes, as `stored_line_count` counts them.
abbrev line_count : List ℕ → ℕ
line_count bs = newlines bs + bit (ends_open bs)

drop_line-count : (b : ℕ) (bs : List ℕ) → line_count (drop_line (b ∷ bs)) + 1 ≡ line_count (b ∷ bs)
drop_line-count b [] = ground arith
drop_line-count b (c ∷ bs) = ground (arith, drop_line-count c bs)

drop_line-shrinks :
    (b : ℕ) (bs : List ℕ)
    → (length (drop_line (b ∷ bs)) ≤ length bs)
      × (bit (ends_open (drop_line (b ∷ bs))) ≤ bit (ends_open (b ∷ bs)))
drop_line-shrinks b [] = ground arith
drop_line-shrinks b (c ∷ bs) = ground (arith, drop_line-shrinks c bs)

-- What the loop of `evict` leaves.
record Evicted (keep : ℕ) (rest : List ℕ) (dropped : ℕ) (r : List ℕ × ℕ) : Type 0 where
  counted : (r.1 + line_count r.0) % u64_mod ≡ (dropped + line_count rest) % u64_mod
  kept : length r.0 ≤ keep
  shorter : length r.0 ≤ length rest
  closed : bit (ends_open r.0) ≤ bit (ends_open rest)

evict_lines-Evicted :
    (fuel keep : ℕ) (rest : List ℕ) (dropped : ℕ)
    → length rest ≤ fuel
    → Evicted keep rest dropped (evict_lines fuel keep rest dropped)
unfolding evict_lines
evict_lines-Evicted zero keep [] dropped h = record {
  counted = refl;
  kept = omega arith;
  shorter = omega arith;
  closed = omega arith;
}
evict_lines-Evicted zero keep (b ∷ bs) dropped h = absurd (omega (arith, h))
evict_lines-Evicted (suc fuel) keep [] dropped h = record {
  counted = ground arith;
  kept = ground arith;
  shorter = ground arith;
  closed = ground arith;
}
evict_lines-Evicted (suc fuel) keep (b ∷ bs) dropped h =
    let (l, o) = drop_line-shrinks b bs in
    let c = drop_line-count b bs in
    let e =
      evict_lines-Evicted fuel keep (drop_line (b ∷ bs)) (add64 dropped 1) (omega (arith, h, l)) in
    elim (Bool-cases (ltb keep (length (b ∷ bs)))) [
      | inl more ↦
          rw (more, evict_lines)
            (record {
              counted = omega (arith, e.counted, c);
              kept = e.kept;
              shorter = omega (arith, e.shorter, l);
              closed = omega (arith, e.closed, o);
            })
      | inr enough ↦
          rw (enough, evict_lines)
            (record {
              counted = refl;
              kept = ground arith;
              shorter = omega arith;
              closed = omega arith;
            })
    ]

newlines-append : (xs ys : List ℕ) → newlines (xs ++ ys) ≡ newlines xs + newlines ys
newlines-append [] ys = omega arith
newlines-append (x ∷ xs) ys = omega (arith, newlines-append xs ys)

ends_open-append :
    (xs : List ℕ) (y : ℕ) (ys : List ℕ) → ends_open (xs ++ y ∷ ys) ≡ ends_open (y ∷ ys)
ends_open-append [] y ys = refl
ends_open-append (x ∷ []) y ys = refl
ends_open-append (x ∷ z ∷ xs) y ys = ends_open-append (z ∷ xs) y ys

-- A segment without newlines leaves its line open.
ends_open-segment : (y : ℕ) (ys : List ℕ) → newlines (y ∷ ys) ≡ 0 → ends_open (y ∷ ys) ≡ true
ends_open-segment y [] h = ground arith
ends_open-segment y (z ∷ ys) h = ends_open-segment z ys (ground arith)

newlines-scan : (m : Mode) (bs : List ℕ) → newlines (scan m bs) ≡ 0
unfolding scan
newlines-scan text [] = refl
newlines-scan escape [] = refl
newlines-scan sequence [] = refl
newlines-scan text (b ∷ bs) = ground (arith, newlines-scan text bs, newlines-scan escape bs)
newlines-scan escape (b ∷ bs) =
    ground (arith, newlines-scan text bs, newlines-scan escape bs, newlines-scan sequence bs)
newlines-scan sequence (b ∷ bs) = ground (arith, newlines-scan text bs, newlines-scan sequence bs)

newlines-take : (n : ℕ) (bs : List ℕ) → newlines (take n bs) ≤ newlines bs
newlines-take zero bs = omega arith
newlines-take (suc n) [] = omega arith
newlines-take (suc n) (b ∷ bs) = omega (arith, newlines-take n bs)

newlines-cons_trimmed : (b : ℕ) (bs : List ℕ) → newlines (cons_trimmed b bs) ≤ newlines (b ∷ bs)
newlines-cons_trimmed b [] = ground arith
newlines-cons_trimmed b (c ∷ bs) = omega arith

newlines-trim_end : (bs : List ℕ) → newlines (trim_end bs) ≤ newlines bs
unfolding trim_end
newlines-trim_end [] = omega arith
newlines-trim_end (b ∷ []) = ground arith
newlines-trim_end (b ∷ c ∷ bs) =
    omega (arith, newlines-cons_trimmed b (trim_end (c ∷ bs)), newlines-trim_end (c ∷ bs))

newlines-sanitize : (raw : List ℕ) → newlines (sanitize raw) ≡ 0
unfolding sanitize
newlines-sanitize raw = omega (
  arith,
  newlines-trim_end (take max_line_bytes (scan text raw)),
  newlines-take max_line_bytes (scan text raw),
  newlines-scan text raw,
)

take-all : (n : ℕ) (bs : List ℕ) → length bs ≤ n → take n bs ≡ bs
take-all zero [] h = refl
take-all zero (b ∷ bs) h = absurd (omega (arith, h))
take-all (suc n) [] h = refl
take-all (suc n) (b ∷ bs) h = ap (λ r. b ∷ r) (take-all n bs (omega (arith, h)))

-- The sequence number is that of the next line: all lines before it are held or were dropped.
abbrev IsCounted : LogBuffer → Type 0
IsCounted b = b.next_sequence ≡ (b.dropped + line_count b.held) % u64_mod

module _ (N : ℕ) where
  -- An open line has room for its newline.
  pub record IsSound (b : LogBuffer) : Type 0 where
    pub fits : length b.held + (if ends_open b.held then 1 else 0) ≤ N
    pub counted :
        b.next_sequence
        ≡ (b.dropped + (newlines b.held + (if ends_open b.held then 1 else 0))) % u64_mod

  evict-IsSound :
      (b : LogBuffer)
      → IsSound b
      → IsSound (evict N b) × (length (evict N b).held ≤ N - max (N / 4) 1)
  unfolding evict
  evict-IsSound b h =
      let e =
        evict_lines-Evicted (length b.held) (N - max (N / 4) 1) b.held b.dropped (omega arith) in
      (
        record {
          fits = omega (arith, h.fits, e.shorter, e.closed);
          counted = h.counted ∙ sym e.counted;
        },
        e.kept,
      )

  make_room-IsSound :
      (b : LogBuffer) (room : ℕ)
      → 240 < N / 4
      → room ≤ 240
      → IsSound b
      → IsSound (make_room N 2 b room) × (length (make_room N 2 b room).held + room + 1 ≤ N)
  unfolding make_room
  make_room-IsSound b room large small h =
      let (h1, kept) = evict-IsSound b h in
      elim (Bool-cases (ltb N (length b.held + room + 1))) [
        | inr fits ↦ rw (fits, make_room) (h, ground arith)
        | inl full ↦ elim (Bool-cases (ltb N (length (evict N b).held + room + 1))) [
          | inr fits ↦ rw (full, fits, make_room) (h1, ground arith)
          | inl again ↦ absurd (ground (arith, again, kept, large, small))
        ]
      ]

  write-IsSound :
      (b : LogBuffer) (y : ℕ) (ys : List ℕ)
      → newlines (y ∷ ys) ≡ 0
      → length b.held + length (y ∷ ys) + 1 ≤ N
      → IsSound b
      → IsSound (write N b (y ∷ ys))
  unfolding write is_open
  write-IsSound b y ys plain room h =
      let taken = take-all N b.held (omega (arith, room)) in
      let ending = ends_open-append b.held y ys ∙ ends_open-segment y ys plain in
      let n = newlines-append b.held (y ∷ ys) in
      let l = length-append b.held (y ∷ ys) in
      elim (Bool-cases (ends_open b.held)) [
        | inl continues ↦
            let before : b.next_sequence ≡ (b.dropped + (newlines b.held + 1)) % u64_mod =
              ground (arith, h.counted, continues) in
            record {
              fits = rw (ending) (omega (arith, l, room));
              counted = rw (ending, taken, continues) (omega (arith, before, n, plain));
            }
        | inr starts ↦
            let before : b.next_sequence ≡ (b.dropped + newlines b.held) % u64_mod =
              ground (arith, h.counted, starts) in
            record {
              fits = rw (ending) (omega (arith, l, room));
              counted = rw (ending, taken, starts) (omega (arith, before, n, plain));
            }
      ]

  written :
      (b : LogBuffer) (segment : List ℕ) (room : ℕ)
      → length segment ≡ room
      → 0 < room
      → newlines segment ≡ 0
      → length b.held + room + 1 ≤ N
      → IsSound b
      → IsSound (write N b segment)
  written b [] room e some_bytes plain fits h = absurd (omega (arith, e, some_bytes))
  written b (y ∷ ys) room e some_bytes plain fits h =
      write-IsSound b y ys plain (omega (arith, e, fits)) h

  extend-IsSound :
      (b : LogBuffer) (raw : List ℕ) → 240 < N / 4 → IsSound b → IsSound (extend N b raw)
  unfolding extend
  extend-IsSound b raw large h =
      let segment = sanitize raw in
      let room = min (length segment) (max_line_bytes - open_length N b) in
      elim (Bool-cases (room == 0)) [
        | inl nothing ↦ rw (nothing, extend) h
        | inr some_bytes ↦
            let (h', fits) = make_room-IsSound b room large (omega arith) h in
            rw (some_bytes, extend)
              (written (make_room N 2 b room) (take room segment) room
                (length-take room segment ∙ omega arith) (ground (arith, some_bytes))
                (omega (arith, newlines-take room segment, newlines-sanitize raw)) fits h')
      ]

  terminate-IsSound : (b : LogBuffer) → IsSound b → IsSound (terminate N b)
  unfolding terminate is_open
  terminate-IsSound b h =
      let taken = take-all N b.held (ground (arith, h.fits)) in
      let n = newlines-append b.held (10 ∷ []) in
      let l = length-append b.held (10 ∷ []) in
      let ending = ends_open-append b.held 10 [] in
      elim (Bool-cases (ends_open b.held)) [
        | inr closed ↦ rw (taken, closed, terminate) h
        | inl ends ↦
            let before : b.next_sequence ≡ (b.dropped + (newlines b.held + 1)) % u64_mod =
              ground (arith, h.counted, ends) in
            let room : length b.held + 1 ≤ N = ground (arith, h.fits, ends) in
            rw (taken, ends, terminate)
              (record {
                fits = rw (ending) (omega (arith, l, room));
                counted = rw (ending) (omega (arith, before, n));
              })
      ]

  append_rest-IsSound :
      (b : LogBuffer) (segments : List (List ℕ))
      → 240 < N / 4
      → IsSound b
      → IsSound (append_rest N b segments)
  unfolding append_rest
  append_rest-IsSound b [] large h = h
  append_rest-IsSound b (segment ∷ segments) large h =
      append_rest-IsSound (extend N (terminate N b) segment) segments large
        (extend-IsSound (terminate N b) segment large (terminate-IsSound b h))

  append_segments-IsSound :
      (b : LogBuffer) (segments : List (List ℕ))
      → 240 < N / 4
      → IsSound b
      → IsSound (append_segments N b segments)
  unfolding append_segments
  append_segments-IsSound b [] large h = h
  append_segments-IsSound b (first ∷ segments) large h =
      append_rest-IsSound (extend N b first) segments large (extend-IsSound b first large h)

  -- All the chunks of a boot.
  unfoldable pub append_all : LogBuffer → List (List ℕ) → LogBuffer
  append_all b [] = b
  append_all b (chunk ∷ chunks) = append_all (append N b chunk) chunks

  append_all-IsSound :
      (b : LogBuffer) (chunks : List (List ℕ))
      → 240 < N / 4
      → IsSound b
      → IsSound (append_all b chunks)
  unfolding append_all append
  append_all-IsSound b [] large h = h
  append_all-IsSound b (chunk ∷ chunks) large h =
      append_all-IsSound (append N b chunk) chunks large
        (append_segments-IsSound b (split 10 chunk) large h)

  reset-IsSound : (b : LogBuffer) (boot : ℕ) → IsSound (reset b boot)
  unfolding reset
  reset-IsSound b boot = record { fits = omega arith; counted = refl }

  -- In a buffer of 964 bytes or more, after any chunks of a boot: the bytes held, with the newline that an
  -- open line will take, fit the buffer; and the sequence number counts, modulo 2^64, the lines that were
  -- dropped and those that are held.
  pub reset-append_all-IsSound :
      (b : LogBuffer) (boot : ℕ) (chunks : List (List ℕ))
      → 240 < N / 4
      → IsSound (append_all (reset b boot) chunks)
  reset-append_all-IsSound b boot chunks large =
      append_all-IsSound (reset b boot) chunks large (reset-IsSound b boot)
