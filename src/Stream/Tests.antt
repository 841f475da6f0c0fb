-- ===== src/Stream/Tests.antt =====
-- Histories of queue calls, levels and readings.
use Play.{new}
use esp32_streamline.Prelude.{
  ℕ, zero, suc, ◌+◌, ◌≤◌, ◌≡◌, refl, arith, true, false, some, List, [], ◌∷◌, replicate, length,
  drop,
}
use esp32_streamline.Stream.Levels.{LevelStats}
use esp32_streamline.Stream.Queue.{new_storage}
use esp32_streamline.Stream.Queue.Refine.{
  Call, pushes, pops, suspends, resumes, run, spec_run, queue_refines, after, IsWithin, new-Holds,
}
use esp32_streamline.Stream.Play.{
  PlayDetector, update, packet_rms, start_rms_min, start_after_packets,
}
use esp32_streamline.Stream.Play as Play
use esp32_streamline.Stream.Play.Trace.{feed, loud_run}
use esp32_streamline.Stream.Play.Starting.{starts_after_loud_run}
use esp32_streamline.Stream.Play.Stopping.{silence_stops, AllQuiet}
use esp32_streamline.Stream.Wire.{from_pcm, as_bytes, payload_size, header_len}
use esp32_streamline.Stream.Wire.Decode.{read_header, as_bytes-from_pcm}

abbrev calls : List (Call ℕ)
calls =
    pushes 1
    ∷ pops
    ∷ pushes 2
    ∷ pushes 3
    ∷ suspends
    ∷ pushes 4
    ∷ resumes
    ∷ pushes 5
    ∷ pops
    ∷ pops
    ∷ []

abbrev level : ℕ → LevelStats
level n = record { peak_left = n; peak_right = n; rms_left = n; rms_right = n; clipped = 0 }

-- A warmed-up detector that plays.
abbrev busy : PlayDetector
busy = record {
  is_playing = true;
  warmup = 0;
  relearn_hold = 0;
  signal_run = 0;
  silence_charge = 5;
  idle_x256 = 256;
}

AllQuiet-replicate : (n : ℕ) → AllQuiet (replicate n (level 10))
AllQuiet-replicate zero = tt
AllQuiet-replicate (suc n) = (omega arith, AllQuiet-replicate n)

silence_stops_example : (feed busy (replicate 375 (level 10))).is_playing ≡ false
silence_stops_example =
    silence_stops busy (replicate 375 (level 10)) refl refl (omega arith) (AllQuiet-replicate 375)
      refl

abbrev boot : List LevelStats
boot = replicate 398 (level 500)

starts_after_loud_run_example :
    (start_rms_min ≤ packet_rms (level 500)) × (start_after_packets ≤ loud_run 0 boot + 1)
unfolding feed update new
starts_after_loud_run_example = starts_after_loud_run boot (level 500) refl refl

abbrev silence_pcm : List ℕ
silence_pcm = replicate payload_size 0

as_bytes-from_pcm_example :
    (read_header (as_bytes (from_pcm 7 silence_pcm)) ≡ some (7, payload_size))
    × (drop header_len (as_bytes (from_pcm 7 silence_pcm)) ≡ silence_pcm)
    × (length (as_bytes (from_pcm 7 silence_pcm)) ≡ header_len + payload_size)
as_bytes-from_pcm_example = as_bytes-from_pcm 7 silence_pcm (omega arith) refl

queue_refines_example :
    (run (some (new_storage ℕ)) calls ≡ spec_run (some []) calls)
    × IsWithin (after (some (new_storage ℕ)) calls)
queue_refines_example = queue_refines (some (new_storage ℕ)) (some []) calls (new-Holds ℕ)
