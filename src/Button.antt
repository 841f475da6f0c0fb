-- ===== src/Button.antt =====
-- Button policy (firmware/streamline/src/button.rs): the debounced edge detector, and the steps that a
-- press makes in gain and attenuation. Numbers are u8.
pub mod Debounce
mod Tests
pub mod Steps
use esp32_streamline.Prelude.{
  ℕ, ◌+◌, ◌-◌, ◌/◌, Bool, true, false, not, ◌&&◌, Option, none, some, ltb, if◌then◌else◌, min, max,
  List, [], ◌∷◌,
}
use esp32_streamline.Prelude.Words.{sat_add8}

abbrev pub gain_steps : ℕ
gain_steps = 8

abbrev attenuation_step_db : ℕ
attenuation_step_db = 3

step_within : ℕ → ℕ → Bool → ℕ → ℕ
step_within current step up max = if up then min (sat_add8 current step) max else current - step

-- The step of `stepped_gain`, which takes a board only for its `input_gain_max`; `div_ceil` is rounded-up
-- division.
gain_step : ℕ → ℕ
gain_step gain_max = max ((gain_max + (gain_steps - 1)) / gain_steps) 1

pub stepped_gain : ℕ → ℕ → Bool → ℕ
unfolding step_within gain_step
stepped_gain gain_max current up = step_within current (gain_step gain_max) up gain_max

pub stepped_attenuation : ℕ → ℕ → Bool → ℕ
unfolding step_within
stepped_attenuation atten_max current up = step_within current attenuation_step_db up atten_max

abbrev debounce_polls : ℕ
debounce_polls = 2

pub record PressDetector : Type 0 where
  pub stable : Option Bool
  pub candidate : Bool
  pub held_polls : ℕ

unfoldable pub new : PressDetector
new = record { stable = none; candidate = false; held_polls = 0 }

abbrev pub bool_eq : Bool → Bool → Bool
bool_eq true true = true
bool_eq false false = true
bool_eq true false = false
bool_eq false true = false

-- `matches!(previous, Some(false))`.
abbrev pub was_released : Option Bool → Bool
was_released none = false
was_released (some b) = not b

unfoldable pub update : PressDetector → Bool → PressDetector × Bool
update d pressed =
    let held = if bool_eq pressed d.candidate then sat_add8 d.held_polls 1 else 1 in
    let polled = record d { candidate = pressed; held_polls = held } in
    if ltb held debounce_polls
    then (polled, false)
    else (record polled { stable = some pressed }, was_released d.stable && pressed)
