-- ===== src/Stream/Capture/Alignment.antt =====
-- The capture task keeps stereo frames whole: what it assembles begins at a frame of the source, also
-- after a partial packet was dropped in the middle of a frame.
use native.Mathlib.Nat.{add-zero}
use mathlib.Core.Path.{subst}
use esp32_streamline.Prelude.{
  List, [], ◌∷◌, ◌∙◌, ap, ==_iff, ℕ, ◌+◌, ◌-◌, ◌%◌, ◌≤◌, ◌<◌, ◌≡◌, true, none, some, ok, err, arith,
  unwrap_or, take, ◌++◌, ltb, leb, ◌==◌, if◌then◌else◌, min, refl, is_some, Bool-cases,
  Result-cases, inl, inr, ◌⊎◌,
}
use esp32_streamline.Stream.Status.{StreamStatus, record_read_error, record_short_read}
use esp32_streamline.Stream.Wire.{payload_size, bytes_per_frame}
use esp32_streamline.Stream.Capture.{
  new, after_read, copy_within, CaptureEngine, Reading, Packets, lost_frames, observe_time, accept,
  fail_read, backoff, complete, step, relearn_if_asked,
}

-- `received` bytes of PCM were taken from the source so far, the last of them at time `seen`.
pub record IsAligned (received seen : ℕ) (e : CaptureEngine) : Type 0 where
  pub within : e.filled < payload_size
  small : e.skip_bytes < bytes_per_frame
  phase : (received + e.skip_bytes) % bytes_per_frame ≡ e.filled % bytes_per_frame
  pub skipping : 0 < e.skip_bytes → (e.packet_started_ms ≡ none) × (0 < e.charged_frames)
  pub charged : (e.charged_frames ≡ 0) ⊎ (0 < lost_frames e seen)
  ordered :
      unwrap_or e.last_packet_ms 0 ≤ unwrap_or e.packet_started_ms (unwrap_or e.last_packet_ms 0)
  pub fresh : e.last_packet_ms ≡ none → e.packet_started_ms ≡ none
  clocked : unwrap_or e.last_packet_ms 0 ≤ seen

observe_time-IsAligned :
    (received seen now : ℕ) (e : CaptureEngine) (s : StreamStatus)
    → is_some e.last_packet_ms ≡ true
    → seen ≤ now
    → IsAligned received seen e
    → IsAligned received now (observe_time e now s).0
unfolding observe_time lost_frames
observe_time-IsAligned received seen now e s l le v = ground arith

-- The bytes that a step takes from the source (none if the read fails, delivers nothing, or reports more
-- than was asked for), and when it last looked at the clock.
abbrev taken : ℕ → Reading → ℕ
taken offset r = elim r.result [
  | err _ ↦ 0
  | ok bytes ↦ if leb bytes (payload_size - offset) then bytes else 0
]

abbrev looked : ℕ → Reading → ℕ
looked offset r = if taken offset r == 0 then r.later else r.now

relearn_lem :
    (e : CaptureEngine) (s : StreamStatus)
    → let e' = (relearn_if_asked e s).0 in
      (e'.filled ≡ e.filled)
      × (e'.skip_bytes ≡ e.skip_bytes)
      × (e'.packet_started_ms ≡ e.packet_started_ms)
      × (e'.last_packet_ms ≡ e.last_packet_ms)
      × (e'.charged_frames ≡ e.charged_frames)
      × (e'.buffered_frames ≡ e.buffered_frames)
unfolding relearn_if_asked
relearn_lem e s = ground arith

observe_time-filled :
    (e : CaptureEngine) (now : ℕ) (s : StreamStatus)
    → ((observe_time e now s).0.filled ≤ e.filled)
      × (is_some (observe_time e now s).0.last_packet_ms ≡ true)
      × (unwrap_or (observe_time e now s).0.last_packet_ms 0 ≡ unwrap_or e.last_packet_ms now)
unfolding observe_time
observe_time-filled e now s = ground arith

-- What happens before the read: a pending relearn request, and the first look at the clock.
begin-IsAligned :
    (received seen : ℕ) (e : CaptureEngine) (s : StreamStatus) (r : Reading)
    → seen ≤ r.started
    → IsAligned received seen e
    → let e1 = (relearn_if_asked e s).0 in
      IsAligned received r.started (record e1 {
        last_packet_ms = some (unwrap_or e1.last_packet_ms r.started);
        pcm = take e1.filled e1.pcm ++ r.tail;
      })
unfolding lost_frames
begin-IsAligned received seen e s r le v = ground (arith, relearn_lem e s)

later-IsAligned :
    (received seen later : ℕ) (e : CaptureEngine)
    → seen ≤ later
    → is_some e.last_packet_ms ≡ true
    → IsAligned received seen e
    → IsAligned received later e
unfolding lost_frames
later-IsAligned received seen later e le l v = ground arith

fail_read-IsAligned :
    (received : ℕ) (e : CaptureEngine) (r : Reading) (s : StreamStatus) (q : Packets)
    → is_some e.last_packet_ms ≡ true
    → r.now ≤ r.later
    → IsAligned received r.now e
    → IsAligned (received + 0) r.later (fail_read e r s q).0
unfolding fail_read backoff
fail_read-IsAligned received e r s q l late v =
    rw add-zero (observe_time-IsAligned received r.now r.later e s l late v)

-- The clock does not run backwards, within a step and from one step to the next.
abbrev IsMonotonic : ℕ → List Reading → Type 0
IsMonotonic seen [] = Unit
IsMonotonic seen (r ∷ rs) =
    (seen ≤ r.started) × (r.started ≤ r.now) × (r.now ≤ r.later) × IsMonotonic r.later rs

IsMonotonic-mono : (a b : ℕ) (rs : List Reading) → a ≤ b → IsMonotonic b rs → IsMonotonic a rs
IsMonotonic-mono a b [] le m = tt
IsMonotonic-mono a b (r ∷ rs) le m = (omega arith, m.1, m.2, m.3)

IsMonotonic-looked :
    (offset : ℕ) (r : Reading) (rs : List Reading)
    → r.now ≤ r.later
    → IsMonotonic r.later rs
    → IsMonotonic (looked offset r) rs
IsMonotonic-looked offset r rs le m = IsMonotonic-mono _ r.later rs (ground arith) m

new-IsAligned : (buffered : ℕ) → IsAligned 0 0 (new buffered)
unfolding new
new-IsAligned buffered = ground arith

module _ (root_mean : ℕ → ℕ → ℕ) where
  complete_lem :
      (e : CaptureEngine) (now : ℕ) (s : StreamStatus) (q : Packets)
      → let e' = (complete root_mean e now s q).0 in
        (e'.filled ≡ 0)
        × (e'.skip_bytes ≡ e.skip_bytes)
        × (e'.packet_started_ms ≡ none)
        × (e'.last_packet_ms ≡ some now)
        × (e'.charged_frames ≡ 0)
  unfolding complete
  complete_lem e now s q = ground arith

  accept-IsAligned :
      (received offset bytes : ℕ) (e : CaptureEngine) (r : Reading) (s : StreamStatus) (q : Packets)
      → e.filled ≤ offset
      → offset + bytes ≤ payload_size
      → is_some e.last_packet_ms ≡ true
      → unwrap_or e.last_packet_ms 0 ≤ r.started
      → r.started ≤ r.now
      → IsAligned received r.now e
      → IsAligned (received + bytes) r.now (accept root_mean e offset bytes r s q).0
  unfolding accept lost_frames
  accept-IsAligned received offset bytes e r s q le room l before after v = ground (
    arith,
    complete_lem
        (record e {
          skip_bytes = e.skip_bytes - min e.skip_bytes bytes;
          pcm = copy_within e.pcm (offset + min e.skip_bytes bytes) (offset + bytes) e.filled;
          filled = e.filled + (bytes - min e.skip_bytes bytes);
          packet_started_ms = some (unwrap_or e.packet_started_ms r.started);
        })
        r.now s q,
  )

  -- A step that read from the source after a look at the clock at `r.now`.
  finish-IsAligned :
      (received offset : ℕ) (e : CaptureEngine) (r : Reading) (s : StreamStatus) (q : Packets)
      → e.filled ≤ offset
      → offset < payload_size
      → is_some e.last_packet_ms ≡ true
      → unwrap_or e.last_packet_ms 0 ≤ r.started
      → r.started ≤ r.now
      → r.now ≤ r.later
      → IsAligned received r.now e
      → IsAligned
          (received + taken offset r)
          (looked offset r)
          (after_read root_mean e offset r s q).0
  unfolding after_read fail_read backoff
  finish-IsAligned received offset e r s q le room l before after late v =
      elim (Result-cases r.result) [
        | inr (u, h) ↦
            rw (h, after_read) (fail_read-IsAligned received e r (record_read_error s) q l late v)
        | inl (n, h) ↦ elim (Bool-cases (n == 0)) [
          | inl z ↦
              let h0 : r.result ≡ ok 0 = h ∙ ap ok ((==_iff n 0).0 z) in
              let short : leb 0 (payload_size - offset) ≡ true = ground arith in
              rw (h0, after_read, short)
                (fail_read-IsAligned received e r (record_short_read s) q l late v)
          | inr nz ↦ elim (Bool-cases (leb n (payload_size - offset))) [
            | inl fits ↦
                rw (h, after_read, fits, nz)
                  (accept-IsAligned received offset n e r
                    (if ltb n (payload_size - offset) then record_short_read s else s) q le
                    (ground arith) l before after v)
            | inr over ↦
                rw (h, after_read, nz, over)
                  (fail_read-IsAligned received e r (record_read_error s) q l late v)
          ]
        ]
      ]

  -- Whatever the driver returns, each step keeps the alignment, if the clock does not run backwards.
  step-IsAligned :
      (received seen : ℕ) (e : CaptureEngine) (r : Reading) (s : StreamStatus) (q : Packets)
      → seen ≤ r.started
      → r.started ≤ r.now
      → r.now ≤ r.later
      → IsAligned received seen e
      → IsAligned (received + taken e.filled r) (looked e.filled r) (step root_mean e r s q).0
  unfolding step
  step-IsAligned received seen e r s q before after late v =
      let (e1, s1) = relearn_if_asked e s in
      let e2 : CaptureEngine = record e1 {
        last_packet_ms = some (unwrap_or e1.last_packet_ms r.started);
        pcm = take e1.filled e1.pcm ++ r.tail;
      } in
      let v2 = begin-IsAligned received seen e s r before v in
      let v3 = observe_time-IsAligned received r.started r.now e2 s1 refl after v2 in
      let (f, l, t) = observe_time-filled e2 r.now s1 in
      let same = (relearn_lem e s).0 in
      subst (λ k. IsAligned (received + taken k r) (looked k r) (step root_mean e r s q).0) same
        (finish-IsAligned received e1.filled (observe_time e2 r.now s1).0 r
          (observe_time e2 r.now s1).1 q f (omega (arith, v2.within)) l
          (omega (arith, t, v2.clocked)) after late v3)

  -- The task's loop over what the environment does.
  unfoldable pub run : CaptureEngine → List Reading → StreamStatus → Packets → CaptureEngine
  run e [] s q = e
  run e (r ∷ rs) s q = let (e', s', q') = step root_mean e r s q in run e' rs s' q'

  -- All the bytes that a run takes from the source.
  pub all_taken : CaptureEngine → List Reading → StreamStatus → Packets → ℕ
  all_taken e [] s q = 0
  all_taken e (r ∷ rs) s q =
      let (e', s', q') = step root_mean e r s q in taken e.filled r + all_taken e' rs s' q'

  run-IsAligned_from :
      (received seen : ℕ) (e : CaptureEngine) (rs : List Reading) (s : StreamStatus) (q : Packets)
      → IsMonotonic seen rs
      → IsAligned received seen e
      → let e' = run e rs s q in
        (received + all_taken e rs s q + e'.skip_bytes) % bytes_per_frame
        ≡ e'.filled % bytes_per_frame
  unfolding run all_taken
  run-IsAligned_from received seen e [] s q m v = rw add-zero v.phase
  run-IsAligned_from received seen e (r ∷ rs) s q m v =
      let (e', s', q') = step root_mean e r s q in
      omega (
        arith,
        run-IsAligned_from (received + taken e.filled r) (looked e.filled r) e' rs s' q'
            (IsMonotonic-looked e.filled r rs m.2 m.3)
            (step-IsAligned received seen e r s q m.0 m.1 m.2 v),
      )

  -- From start-up on, at any point of any run under a monotonic clock, the bytes taken from the source and
  -- those still to be skipped end as far into a stereo frame as the partial packet does: the packet's
  -- bytes begin at a frame boundary, and `skip_bytes` leads to the next one. (A read that fails, delivers
  -- nothing, or reports more than was asked for counts as taking no bytes.)
  pub run-IsAligned :
      (buffered : ℕ) (rs : List Reading) (s : StreamStatus) (q : Packets)
      → IsMonotonic 0 rs
      → let e = run (new buffered) rs s q in
        (all_taken (new buffered) rs s q + e.skip_bytes) % bytes_per_frame
        ≡ e.filled % bytes_per_frame
  run-IsAligned buffered rs s q m =
      omega (arith, run-IsAligned_from 0 0 (new buffered) rs s q m (new-IsAligned buffered))
