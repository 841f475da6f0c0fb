-- ===== src/Codec/Tests.antt =====
-- Concrete runs of the codec's operations, and the theorems applied to them.
use esp32_streamline.Codec.Logic.{register}
use esp32_streamline.Prelude.{
  ℕ, inr, true, false, none, some, Result, ok, err, List, [], ◌∷◌, ◌≡◌, refl, ◌==◌, if◌then◌else◌,
}
use esp32_streamline.Prelude.Bytes.{Text, bytes}
use esp32_streamline.Config.{AudioSettings}
use esp32_streamline.Mutation.{MutationError}
use esp32_streamline.Codec.{Bus, AnalogPassthroughRoute, describe, dac_control16, adc_control2}
use esp32_streamline.Codec.Driver.{apply_with_passthrough, configure}
use esp32_streamline.Codec.Control.{CodecControl, new, enable, disable, change_audio}
use esp32_streamline.Codec.Passthrough.{AnalogPassthroughState, reconcile}
use esp32_streamline.Codec.Quiet.{IsQuiet}
use esp32_streamline.Codec.Runs.{Operation, change, switch_on, switch_off, run, run-new-IsQuiet}
use esp32_streamline.Codec.Sync.{IsInSync}
use esp32_streamline.Codec.Change.{IsConcluded, IsRecorded, change_audio-IsConcluded}
use esp32_streamline.Codec.Observed.{IsObserved, IsReconciled, reconcile-IsReconciled}

abbrev accept : Bus → ℕ → ℕ → Result Text (Unit {0})
accept bus register value = ok tt

-- A bus that does not take the second line's input.
abbrev refuse_line : Bus → ℕ → ℕ → Result Text (Unit {0})
refuse_line bus register value =
    if value == 80 then if register == adc_control2 then err (bytes "no ack") else ok tt else ok tt

-- A bus that does not switch the mixer.
abbrev refuse_mixer : Bus → ℕ → ℕ → Result Text (Unit {0})
refuse_mixer bus register value = if register == dac_control16 then err (bytes "no ack") else ok tt

abbrev shown : Text → Text
shown text = text

abbrev line1 : AudioSettings
line1 = record { input_line = 1; input_gain = 50; adc_attenuation_db = 10 }

abbrev line2 : AudioSettings
line2 = record { input_line = 2; input_gain = 0; adc_attenuation_db = 11 }

abbrev route1 : AnalogPassthroughRoute
route1 = record { input_line = 1; output_line = 2 }

abbrev made : CodecControl
made = record { bus = (configure accept line1 []).0; audio = line1; passthrough = none }

abbrev playing : CodecControl
playing = (enable accept route1 made).0

-- A commit that succeeds.
abbrev count : ℕ → ℕ × Result MutationError (Unit {0})
count n = (7, ok tt)

abbrev operations : List (Operation ℕ)
operations = switch_on route1 ∷ change line2 count ∷ switch_off ∷ []

run-new-IsQuiet_example : IsQuiet (run accept shown operations (made, 0)).0.bus
unfolding new configure
run-new-IsQuiet_example = run-new-IsQuiet accept shown line1 operations 0 refl

playing-InSync : IsInSync playing
unfolding enable configure register
playing-InSync =
    ((refl, refl, refl, refl), (refl, refl, (refl, refl, inr (refl, refl, refl, refl))))

change_audio-IsConcluded_example :
    let out = change_audio refuse_line shown count line2 playing 0 in
    IsConcluded playing line2 out.0 out.2 × IsRecorded count 0 out.1 out.2
change_audio-IsConcluded_example =
    change_audio-IsConcluded refuse_line shown count line2 playing 0 playing-InSync

-- The refused change is rolled back: the former route plays again.
change_back : (change_audio refuse_line shown count line2 playing 0).0.passthrough ≡ some route1
unfolding change_audio apply_with_passthrough
change_back = refl

abbrev inactive : AnalogPassthroughState
inactive = record { active = false; fault = none }

made-Observed : IsObserved inactive made
unfolding configure register
made-Observed = (refl, ((refl, refl, refl, refl), tt))

reconcile-IsReconciled_example :
    let out =
      reconcile
        (enable refuse_mixer)
        (disable refuse_mixer)
        (describe shown)
        true
        (some route1)
        inactive
        made in
    IsObserved out.0 out.1 × IsReconciled true inactive made out.0 out.1 out.2
reconcile-IsReconciled_example =
    reconcile-IsReconciled refuse_mixer (describe shown) true (some route1) inactive made
      made-Observed

-- The refused enable leaves its fault.
reconcile_fault :
    (reconcile
      (enable refuse_mixer)
      (disable refuse_mixer)
      (describe shown)
      true
      (some route1)
      inactive
      made).0.fault
    ≡ some (bytes "no ack")
unfolding reconcile enable disable describe
reconcile_fault = refl
