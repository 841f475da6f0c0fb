-- ===== src/Stream/Play/Starting.antt =====
-- When the detector of play.rs starts a stream.
use esp32_streamline.Prelude.{
  ℕ, zero, suc, ◌+◌, ◌-◌, ◌*◌, ◌/◌, ◌≤◌, ◌<◌, ◌≡◌, refl, true, false, List, [], ◌∷◌, length, arith,
  leb, if◌then◌else◌, ◌⊎◌, inr,
}
use esp32_streamline.Stream.Levels.{LevelStats}
use esp32_streamline.Stream.Play.{
  PlayDetector, new, playing, update, packet_rms, start_rms_min, warmup_packets,
  start_after_packets,
}
use esp32_streamline.Stream.Play.Trace.{feed, loud_run}

update_early :
    (d : PlayDetector) (l : LevelStats) (n : ℕ)
    → d.is_playing ≡ false
    → d.relearn_hold ≡ 0
    → suc (suc n) ≤ d.warmup + (start_after_packets - d.signal_run)
    → ((update d l).is_playing ≡ false)
      × ((update d l).relearn_hold ≡ 0)
      × (suc n ≤ (update d l).warmup + (start_after_packets - (update d l).signal_run))
unfolding update
update_early d l n p h le = ground arith

feed_early :
    (d : PlayDetector) (n : ℕ) (ls : List LevelStats)
    → d.is_playing ≡ false
    → d.relearn_hold ≡ 0
    → suc n ≤ d.warmup + (start_after_packets - d.signal_run)
    → length ls ≤ n
    → playing (feed d ls) ≡ false
unfolding feed playing
feed_early d n [] p h le lt = ground arith
feed_early d zero (l ∷ ls) p h le lt = absurd (omega arith)
feed_early d (suc n) (l ∷ ls) p h le lt =
    let (p', h', le') = update_early d l n p h le in
    feed_early (update d l) n ls p' h' le' (omega arith)

-- Whatever the input does, a new detector does not play in its first 398 packets: the warm-up of 375,
-- then 23 short of the debounce window.
quiet_at_boot :
    (ls : List LevelStats)
    → length ls < warmup_packets + start_after_packets
    → playing (feed new ls) ≡ false
unfolding new
quiet_at_boot ls lt = feed_early new 398 ls refl refl (omega arith) (omega arith)

-- During the warm-up nothing is counted; after it a packet below the least start level resets the count.
abbrev Counts : PlayDetector → ℕ → Type 0
Counts d n = (d.signal_run ≤ n) × (0 < d.warmup → d.signal_run ≡ 0)

update-Counts :
    (d : PlayDetector) (l : LevelStats) (n : ℕ)
    → Counts d n
    → Counts (update d l) (if leb start_rms_min (packet_rms l) then n + 1 else 0)
unfolding update
update-Counts d l n h = ground arith

feed-Counts :
    (d : PlayDetector) (ls : List LevelStats) (n : ℕ)
    → Counts d n
    → Counts (feed d ls) (loud_run n ls)
unfolding feed loud_run
feed-Counts d [] n h = h
feed-Counts d (l ∷ ls) n h =
    feed-Counts (update d l) ls (if leb start_rms_min (packet_rms l) then n + 1 else 0)
      (update-Counts d l n h)

update_starts :
    (d : PlayDetector) (l : LevelStats) (n : ℕ)
    → Counts d n
    → d.is_playing ≡ false
    → (update d l).is_playing ≡ true
    → (start_rms_min ≤ packet_rms l) × (start_after_packets ≤ n + 1)
unfolding update
update_starts d l n h p q = ground arith

-- From boot, a stream starts only with a packet that ends a run of 24 packets or more, each at an RMS
-- level of 150 or more.
pub starts_after_loud_run :
    (ls : List LevelStats) (l : LevelStats)
    → (feed new ls).is_playing ≡ false
    → (update (feed new ls) l).is_playing ≡ true
    → (start_rms_min ≤ packet_rms l) × (start_after_packets ≤ loud_run 0 ls + 1)
unfolding new
starts_after_loud_run ls l p q =
    update_starts (feed new ls) l (loud_run 0 ls) (feed-Counts new ls 0 (omega arith)) p q

-- Every packet's level is at least `n`.
abbrev AllLoud : ℕ → List LevelStats → Type 0
AllLoud n [] = Unit
AllLoud n (l ∷ ls) = (n ≤ packet_rms l) × (packet_rms l < 65536) × AllLoud n ls

-- Ready to start after `k` more loud packets, the idle estimate still `k` steps below `top`.
record Rising (top k : ℕ) (d : PlayDetector) : Type 0 where
  warm : d.warmup ≡ 0
  low : d.idle_x256 + 64 * k ≤ top
  counted :
      (d.is_playing ≡ true) × (d.silence_charge ≡ 0)
      ⊎ (d.is_playing ≡ false)
        × (start_after_packets ≤ d.signal_run + k)
        × (d.signal_run < start_after_packets)

update-Rising :
    (d : PlayDetector) (l : LevelStats) (top k n : ℕ)
    → top < 65536 * 256
    → 3 * (top / 256) ≤ n
    → 150 ≤ n
    → n ≤ packet_rms l
    → packet_rms l < 65536
    → Rising top (suc k) d
    → Rising top k (update d l)
unfolding update
update-Rising d l top k n t a b c e h = ground arith

feed-Rising :
    (d : PlayDetector) (ls : List LevelStats) (top n : ℕ)
    → top < 65536 * 256
    → 3 * (top / 256) ≤ n
    → 150 ≤ n
    → AllLoud n ls
    → Rising top (length ls) d
    → Rising top 0 (feed d ls)
unfolding feed
feed-Rising d [] top n t a b h r = r
feed-Rising d (l ∷ ls) top n t a b h r =
    feed-Rising (update d l) ls top n t a b h.2
      (update-Rising d l top (length ls) n t a b h.0 h.1 r)

-- Past the warm-up, 24 packets in a row start a stream if each is at least 150 and three times the level
-- that the idle estimate can climb to meanwhile (six RMS units above the present one). (The detector has
-- counted fewer than 24 already, the estimate is in range, and the levels are u16 values.)
loud_starts :
    (d : PlayDetector) (ls : List LevelStats) (n : ℕ)
    → d.is_playing ≡ false
    → d.warmup ≡ 0
    → d.signal_run < start_after_packets
    → d.idle_x256 + 1536 < 65536 * 256
    → start_rms_min ≤ n
    → 3 * ((d.idle_x256 + 1536) / 256) ≤ n
    → length ls ≡ start_after_packets
    → AllLoud n ls
    → (feed d ls).is_playing ≡ true
loud_starts d ls n p w r i b a e h =
    let end =
      feed-Rising d ls (d.idle_x256 + 1536) n i a b h
        (record { warm = w; low = omega arith; counted = inr (p, omega arith, r) }) in
    ground (arith, end.counted)
