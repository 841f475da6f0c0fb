-- ===== src/Schedule/Tests.antt =====
-- A boot loop that asks the timers every few seconds.
use esp32_streamline.Prelude.{none, [], ◌∷◌}
use esp32_streamline.Schedule.{reconnect_initial_delay, reconnect_interval}
use esp32_streamline.Schedule.Spacing.{attempts, SpacedFrom, attempts-SpacedFrom}

attempts-SpacedFrom_example :
    SpacedFrom reconnect_initial_delay reconnect_interval
      (attempts (record { last_attempt = none }) (10 ∷ 31 ∷ 50 ∷ 92 ∷ 400 ∷ []))
attempts-SpacedFrom_example = attempts-SpacedFrom (10 ∷ 31 ∷ 50 ∷ 92 ∷ 400 ∷ [])
