-- ===== src/Stream/Play/Stopping.antt =====
-- When the detector of play.rs stops a stream.
use esp32_streamline.Prelude.{
  ℕ, suc, ◌+◌, ◌≤◌, ◌<◌, ◌≡◌, true, false, List, [], ◌∷◌, length, arith, ◌⊎◌, inr,
}
use esp32_streamline.Stream.Levels.{LevelStats}
use esp32_streamline.Stream.Play.{
  PlayDetector, update, packet_rms, stop_rms_min, stop_after_packets, stop_threshold,
}
use esp32_streamline.Stream.Play.Trace.{feed}

update_gap :
    (d : PlayDetector) (l : LevelStats) (n : ℕ)
    → d.is_playing ≡ true
    → d.silence_charge + suc n < stop_after_packets
    → ((update d l).is_playing ≡ true) × ((update d l).silence_charge + n < stop_after_packets)
unfolding update
update_gap d l n p lt = ground arith

-- Once playing, a gap shorter than the rest of the two-second silence window does not stop the stream,
-- whatever its packets are.
gap_keeps_playing :
    (d : PlayDetector) (ls : List LevelStats)
    → d.is_playing ≡ true
    → d.silence_charge + length ls < stop_after_packets
    → (feed d ls).is_playing ≡ true
unfolding feed
gap_keeps_playing d [] p lt = p
gap_keeps_playing d (l ∷ ls) p lt =
    let (p', lt') = update_gap d l (length ls) p lt in gap_keeps_playing (update d l) ls p' lt'

abbrev pub AllQuiet : List LevelStats → Type 0
AllQuiet [] = Unit
AllQuiet (l ∷ ls) = (packet_rms l < stop_rms_min) × AllQuiet ls

-- After `k` quiet packets: stopped, or charged with `k`.
record Falling (k : ℕ) (d : PlayDetector) : Type 0 where
  warm : d.warmup ≡ 0
  counted :
      (d.is_playing ≡ false) × (d.signal_run ≤ 23)
      ⊎ (d.is_playing ≡ true) × (k ≤ d.silence_charge) × (d.silence_charge < stop_after_packets)

update-Falling :
    (d : PlayDetector) (l : LevelStats) (k : ℕ)
    → packet_rms l < stop_rms_min
    → Falling k d
    → Falling (suc k) (update d l)
unfolding update
update-Falling d l k q h = ground arith

feed-Falling :
    (d : PlayDetector) (ls : List LevelStats) (k j : ℕ)
    → k + length ls ≡ j
    → AllQuiet ls
    → Falling k d
    → Falling j (feed d ls)
unfolding feed
feed-Falling d [] k j e q h = let e' : k ≡ j = omega arith in rw (← e') h
feed-Falling d (l ∷ ls) k j e q h =
    feed-Falling (update d l) ls (suc k) j (omega arith) q.1 (update-Falling d l k q.0 h)

-- A stream that plays past the warm-up has stopped after 375 packets below an RMS level of 60, however
-- much silence, short of the limit, it was charged with before.
pub silence_stops :
    (d : PlayDetector) (ls : List LevelStats)
    → d.is_playing ≡ true
    → d.warmup ≡ 0
    → d.silence_charge < stop_after_packets
    → AllQuiet ls
    → length ls ≡ stop_after_packets
    → (feed d ls).is_playing ≡ false
silence_stops d ls p w c q e =
    let end =
      feed-Falling d ls 0 stop_after_packets (omega arith) q
        (record { warm = w; counted = inr (p, omega arith, c) }) in
    ground (arith, end.counted)

-- While a stream plays, packets at or above the stop threshold leave the idle estimate alone.
idle-update_of_playing :
    (d : PlayDetector) (l : LevelStats)
    → d.is_playing ≡ true
    → stop_threshold d ≤ packet_rms l
    → (update d l).idle_x256 ≡ d.idle_x256
unfolding update
idle-update_of_playing d l p h = ground arith
