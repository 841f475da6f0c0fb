-- ===== src/Stream/Play/Trace.antt =====
-- A detector fed with one packet's levels after another.
use esp32_streamline.Prelude.{ℕ, ◌+◌, List, [], ◌∷◌, if◌then◌else◌, leb}
use esp32_streamline.Stream.Levels.{LevelStats}
use esp32_streamline.Stream.Play.{PlayDetector, update, packet_rms, start_rms_min}

unfoldable pub feed : PlayDetector → List LevelStats → PlayDetector
feed d [] = d
feed d (l ∷ ls) = feed (update d l) ls

-- How many packets in a row, at the end of the trace, reach the least start level. `n` went before it.
unfoldable pub loud_run : ℕ → List LevelStats → ℕ
loud_run n [] = n
loud_run n (l ∷ ls) = loud_run (if leb start_rms_min (packet_rms l) then n + 1 else 0) ls
