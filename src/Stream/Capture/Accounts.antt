-- ===== src/Stream/Capture/Accounts.antt =====
-- How the capture task charges an outage: every lost frame once, however often the clock is looked at.
use esp32_streamline.Prelude.{ℕ, ◌+◌, ◌-◌, ◌*◌, ◌/◌, ◌≤◌, ◌<◌, ◌≡◌, some, arith, ap}
use esp32_streamline.Prelude.Words.{u64_mod, add32, add64}
use esp32_streamline.Stream.Status.{
  StreamStatus, Totals, record_capture_loss, advance_sequence, set_playing,
}
use esp32_streamline.Stream.Wire.{frames_per_packet}
use esp32_streamline.Stream.Capture.{CaptureEngine, lost_frames, charge, observe_time}

-- Some hundred million years of milliseconds: no u64 operation of the accounting saturates.
abbrev far : ℕ
far = 4611686018427387904

-- Packets that an observation counts as lost.
newly_lost : CaptureEngine → ℕ → ℕ
newly_lost e now =
    (e.lost_frame_remainder + (lost_frames e now - e.charged_frames)) / frames_per_packet

-- The observation sees the charge, the reset of the partial packet aside.
observe_time-charge :
    (e : CaptureEngine) (now : ℕ) (s : StreamStatus)
    → ((observe_time e now s).0.lost_frame_remainder ≡ (charge e now s).0.lost_frame_remainder)
      × ((observe_time e now s).0.charged_frames ≡ (charge e now s).0.charged_frames)
      × ((observe_time e now s).0.last_packet_ms ≡ (charge e now s).0.last_packet_ms)
      × ((observe_time e now s).0.buffered_frames ≡ e.buffered_frames)
      × ((observe_time e now s).1.sequence ≡ (charge e now s).1.sequence)
      × ((observe_time e now s).1.totals ≡ (charge e now s).1.totals)
unfolding observe_time set_playing
observe_time-charge e now s = ground arith

charge_lem :
    (e : CaptureEngine) (now : ℕ) (s : StreamStatus)
    → e.lost_frame_remainder < frames_per_packet
    → now < far / 64
    → s.totals.capture_lost_packets < u64_mod
    → ((charge e now s).0.lost_frame_remainder < frames_per_packet)
      × ((charge e now s).0.charged_frames ≡ lost_frames e now)
      × (frames_per_packet * newly_lost e now + (charge e now s).0.lost_frame_remainder
          ≡ e.lost_frame_remainder + (lost_frames e now - e.charged_frames))
      × ((charge e now s).1.sequence ≡ add32 s.sequence (newly_lost e now))
      × ((charge e now s).1.totals.capture_lost_packets
          ≡ add64 s.totals.capture_lost_packets (newly_lost e now))
unfolding charge newly_lost record_capture_loss advance_sequence
charge_lem e now s r f c = ground arith

-- A look at the clock charges exactly the frames that were lost since the look before: in whole packets
-- that advance the sequence number and the counter of losses, with the rest kept as a remainder below one
-- packet. (The accounts and the time are in range.)
observe_time_lem :
    (e : CaptureEngine) (now : ℕ) (s : StreamStatus)
    → e.lost_frame_remainder < frames_per_packet
    → now < far / 64
    → s.totals.capture_lost_packets < u64_mod
    → let (e', s') = observe_time e now s in
      (e'.lost_frame_remainder < frames_per_packet)
      × (e'.charged_frames ≡ lost_frames e now)
      × (frames_per_packet * newly_lost e now + e'.lost_frame_remainder
          ≡ e.lost_frame_remainder + (lost_frames e now - e.charged_frames))
      × (s'.sequence ≡ add32 s.sequence (newly_lost e now))
      × (s'.totals.capture_lost_packets ≡ add64 s.totals.capture_lost_packets (newly_lost e now))
observe_time_lem e now s r f c =
    let (o1, o2, o3, o4, o5, o6) = observe_time-charge e now s in
    let (r1, c1, k1, q1, l1) = charge_lem e now s r f c in
    let same = ap (λ (t : Totals). t.capture_lost_packets) o6 in
    (omega arith, omega arith, omega arith, omega arith, omega arith)

-- The loss seen at `b` by an engine that already looked at `a`.
lost_frames-observe_time :
    (e : CaptureEngine) (a b last : ℕ) (s : StreamStatus)
    → e.last_packet_ms ≡ some last
    → lost_frames (observe_time e a s).0 b ≡ lost_frames e b
unfolding lost_frames
lost_frames-observe_time e a b last s h =
    let (o1, o2, o3, o4, o5, o6) = observe_time-charge e a s in
    let kept : (charge e a s).0.last_packet_ms ≡ some last = unfold charge in ground arith in
    ground arith

lost_frames_mono :
    (e : CaptureEngine) (a b last : ℕ)
    → e.last_packet_ms ≡ some last
    → a ≤ b
    → lost_frames e a ≤ lost_frames e b
unfolding lost_frames
lost_frames_mono e a b last h le = ground arith

-- Two looks at the clock during one outage charge what one look at the later time does: the same packets,
-- the same sequence number, and the same remainder of frames. (A packet was completed before, the accounts
-- are in range, and the times are too.)
pub observe_time_twice :
    (e : CaptureEngine) (a b last : ℕ) (s : StreamStatus)
    → e.last_packet_ms ≡ some last
    → e.lost_frame_remainder < frames_per_packet
    → e.charged_frames ≤ lost_frames e a
    → s.totals.capture_lost_packets < u64_mod
    → a ≤ b
    → b < far / 64
    → let (once, seen) = observe_time e b s in
      let (e1, s1) = observe_time e a s in
      let (twice, seen2) = observe_time e1 b s1 in
      (twice.lost_frame_remainder ≡ once.lost_frame_remainder)
      × (twice.charged_frames ≡ once.charged_frames)
      × (seen2.sequence ≡ seen.sequence)
      × (seen2.totals.capture_lost_packets ≡ seen.totals.capture_lost_packets)
observe_time_twice e a b last s h r c t le f =
    let (r1, c1, k1, q1, l1) = observe_time_lem e a s r (omega arith) t in
    let (r2, c2, k2, q2, l2) =
      observe_time_lem (observe_time e a s).0 b (observe_time e a s).1 r1 f (omega arith) in
    let (r3, c3, k3, q3, l3) = observe_time_lem e b s r f t in
    let m = lost_frames_mono e a b last h le in
    let same = lost_frames-observe_time e a b last s h in
    let sum : newly_lost (observe_time e a s).0 b + newly_lost e a ≡ newly_lost e b = omega arith in
    (omega arith, omega arith, omega arith, omega arith)
