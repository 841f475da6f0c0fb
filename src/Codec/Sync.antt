-- ===== src/Codec/Sync.antt =====
-- What the registers hold after the operations, against what the control says of itself.
use esp32_streamline.Prelude.{
  ap, ℕ, Option, none, some, ◌⊎◌, Result, ok, List, [], ◌∷◌, ◌≡◌, refl, inl, inr, if◌then◌else◌,
  ◌==◌, arith, sym, >>=-eq-ok, ok-injective,
}
use mathlib.Core.Path.{subst}
use esp32_streamline.Codec.Quiet.{passthrough_output-pairs}
use esp32_streamline.Config.{AudioSettings}
use esp32_streamline.Codec.{
  Bus, wrote, AnalogPassthroughRoute, adc_control1, adc_control2, adc_control8, adc_control9,
  dac_power, dac_control3, dac_control16, dac_control17, dac_control20, input_controls,
  input_register, input_writes, passthrough_input_register, passthrough_output,
}
use esp32_streamline.Codec.Codes.{
  gain_code, attenuation_code, input_gain_register_lem, attenuation_register_lem,
}
use esp32_streamline.Codec.Control.{CodecControl}
use esp32_streamline.Codec.Driver
use esp32_streamline.Codec.Driver.{
  Outcome, configure, apply, apply_with_passthrough, enable_passthrough, disable_passthrough,
  write_all, write, delay_ms, setup_writes, route_writes, given,
}
use esp32_streamline.Codec.Logic.{
  register, Triple, then-Triple, pre-Triple, given-Triple, write-Triple,
}

-- What the input mux and the mixer hold for a line.
abbrev line_select : ℕ → Option ℕ
line_select line = if line == 1 then some 0 else if line == 2 then some 80 else none

abbrev mixer_select : ℕ → Option ℕ
mixer_select line = if line == 1 then some 0 else if line == 2 then some 9 else none

-- The converter is set as `audio` says.
abbrev pub IsTuned : AudioSettings → Bus → Type 0
IsTuned audio bus =
    (register adc_control1 bus ≡ some (gain_code audio.input_gain))
    × (register adc_control2 bus ≡ line_select audio.input_line)
    × (register adc_control8 bus ≡ some (attenuation_code audio.adc_attenuation_db))
    × (register adc_control9 bus ≡ some (attenuation_code audio.adc_attenuation_db))

-- The pair of an output line is up: both volumes are 30, and its power bits, and no others, are set.
abbrev IsPaired : ℕ → Bus → Type 0
IsPaired line bus =
    ((line ≡ 1)
      × (register 46 bus ≡ some 30)
      × (register 47 bus ≡ some 30)
      × (register dac_power bus ≡ some 48))
    ⊎ ((line ≡ 2)
        × (register 48 bus ≡ some 30)
        × (register 49 bus ≡ some 30)
        × (register dac_power bus ≡ some 12))

-- The output half of a route: both mixers pass the analog input, and the pair of the line is up.
abbrev pub IsSounding : ℕ → Bus → Type 0
IsSounding line bus =
    (register dac_control17 bus ≡ some 80)
    × (register dac_control20 bus ≡ some 80)
    × IsPaired line bus

-- The mixer takes the route's input, its output sounds, and the DAC is not muted.
abbrev pub IsOpen : AnalogPassthroughRoute → Bus → Type 0
IsOpen route bus =
    (register dac_control16 bus ≡ mixer_select route.input_line)
    × (register dac_control3 bus ≡ some 0)
    × IsSounding route.output_line bus

abbrev pub IsRouted : Option AnalogPassthroughRoute → Bus → Type 0
IsRouted none bus = Unit {0}
IsRouted (some route) bus = IsOpen route bus

abbrev pub Anything : Bus → Type 0
Anything bus = Unit {0}

after : List (ℕ × ℕ) → Bus → Bus
after [] bus = bus
after (w ∷ ws) bus = after ws (wrote w.0 w.1 ∷ bus)

line_select_lem :
    {E : Type 0} (line : ℕ) {v : ℕ} → input_register {E = E} line ≡ ok v → line_select line ≡ some v
unfolding input_register
line_select_lem line e = ground (arith, e)

mixer_select_lem :
    {E : Type 0} (line : ℕ) {v : ℕ}
    → passthrough_input_register {E = E} line ≡ ok v
    → mixer_select line ≡ some v
unfolding passthrough_input_register
mixer_select_lem line e = ground (arith, e)

module _ {E : Type 0} (answer : Bus → ℕ → ℕ → Result E (Unit {0})) where
  write_all-after :
      (ws : List (ℕ × ℕ)) (Q : Bus → Type 0)
      → Triple answer Anything (λ bus. Q (after ws bus)) (write_all answer ws) Q
  unfolding write_all after
  write_all-after [] Q = record { ends = λ bus q. q }
  write_all-after (w ∷ ws) Q =
      then-Triple answer Anything (write-Triple answer Anything w.0 w.1 (λ bus q. q) (λ bus q. tt))
        (write_all-after ws Q)

  writes-Triple :
      (ws : List (ℕ × ℕ)) (P Q : Bus → Type 0)
      → ((bus : Bus) → P bus → Q (after ws bus))
      → Triple answer Anything P (write_all answer ws) Q
  writes-Triple ws P Q ends = pre-Triple answer Anything ends (write_all-after ws Q)

  input_controls_writes :
      (audio : AudioSettings) {ws : List (ℕ × ℕ)}
      → input_controls {E = E} audio ≡ ok ws
      → (v : ℕ) × (line_select audio.input_line ≡ some v) × (input_writes audio v ≡ ws)
  unfolding input_controls
  input_controls_writes audio e =
      let (v, given, made) = >>=-eq-ok (input_register audio.input_line) _ e in
      (v, line_select_lem audio.input_line given, ok-injective made)

  input_writes-Tuned :
      (audio : AudioSettings) (v : ℕ)
      → line_select audio.input_line ≡ some v
      → (bus : Bus) → IsTuned audio (after (input_writes audio v) bus)
  unfolding input_writes after register
  input_writes-Tuned audio v e bus = (
    ap some (input_gain_register_lem audio.input_gain),
    sym e,
    ap some (attenuation_register_lem audio.adc_attenuation_db),
    ap some (attenuation_register_lem audio.adc_attenuation_db),
  )

  -- The input registers after the four writes, and what these writes keep.
  apply_keeping :
      (audio : AudioSettings) (R : Bus → Type 0)
      → ((v : ℕ) (bus : Bus) → R bus → R (after (input_writes audio v) bus))
      → Triple answer Anything R (apply answer audio) (λ bus. IsTuned audio bus × R bus)
  unfolding apply
  apply_keeping audio R keeps =
      given-Triple answer Anything (input_controls audio) _ (λ bus r. tt)
        (λ ws e.
          let (v, selects, same) = input_controls_writes audio e in
          writes-Triple ws R (λ bus. IsTuned audio bus × R bus)
            (subst (λ ws. (bus : Bus) → R bus → IsTuned audio (after ws bus) × R (after ws bus))
              same (λ bus r. (input_writes-Tuned audio v selects bus, keeps v bus r))))

  input_writes-Routed :
      (audio : AudioSettings) (route : Option AnalogPassthroughRoute) (v : ℕ) (bus : Bus)
      → IsRouted route bus
      → IsRouted route (after (input_writes audio v) bus)
  unfolding input_writes after register
  input_writes-Routed audio none v bus r = tt
  input_writes-Routed audio (some route) v bus r = r

  -- The route is not touched.
  pub apply-Tuned :
      (audio : AudioSettings) (route : Option AnalogPassthroughRoute)
      → Triple answer Anything
          (IsRouted route)
          (apply answer audio)
          (λ bus. IsTuned audio bus × IsRouted route bus)
  apply-Tuned audio route = apply_keeping audio (IsRouted route) (input_writes-Routed audio route)

  apply-Sounding :
      (audio : AudioSettings) (line : ℕ)
      → Triple answer Anything
          (IsSounding line)
          (apply answer audio)
          (λ bus. IsTuned audio bus × IsSounding line bus)
  unfolding input_writes after register
  apply-Sounding audio line = apply_keeping audio (IsSounding line) (λ v bus r. r)

  -- What holds before the DAC is opened.
  abbrev IsReady : AudioSettings → AnalogPassthroughRoute → Bus → Type 0
  IsReady audio route bus =
      IsTuned audio bus
      × (register dac_control16 bus ≡ mixer_select route.input_line)
      × IsSounding route.output_line bus

  opened :
      (audio : AudioSettings) (route : AnalogPassthroughRoute)
      → Triple answer Anything
          (IsReady audio route)
          (Driver.◌then◌ answer (delay_ms answer 100) (write answer dac_control3 0))
          (λ bus. IsTuned audio bus × IsOpen route bus)
  unfolding delay_ms register
  opened audio route =
      then-Triple answer Anything {Q = IsReady audio route} {first = delay_ms answer 100}
        (record { ends = λ bus h. h })
        (write-Triple answer Anything dac_control3 0 (λ bus h. (h.0, (h.1, refl, h.2)))
          (λ bus h. tt))

  switched :
      (audio : AudioSettings) (route : AnalogPassthroughRoute)
      → Triple answer Anything
          (λ bus. IsTuned audio bus × IsSounding route.output_line bus)
          (given answer (passthrough_input_register route.input_line) (write answer dac_control16))
          (IsReady audio route)
  unfolding register
  switched audio route =
      given-Triple answer Anything (passthrough_input_register route.input_line) _ (λ bus h. tt)
        (λ v e.
          write-Triple answer Anything dac_control16 v
            (λ bus h. (h.0, sym (mixer_select_lem route.input_line e), h.1)) (λ bus h. tt))

  mute-Sounding :
      (line : ℕ)
      → Triple answer Anything (IsSounding line) (write answer dac_control3 4) (IsSounding line)
  unfolding register
  mute-Sounding line = write-Triple answer Anything dac_control3 4 (λ bus h. h) (λ bus h. tt)

  -- Only the input of a route that sounds is switched.
  pub apply_with_passthrough-Tuned :
      (audio : AudioSettings) (route : AnalogPassthroughRoute)
      → Triple answer Anything
          (IsSounding route.output_line)
          (apply_with_passthrough answer audio route)
          (λ bus. IsTuned audio bus × IsOpen route bus)
  unfolding apply_with_passthrough
  apply_with_passthrough-Tuned audio route =
      given-Triple answer Anything (passthrough_output route.output_line) _ (λ bus h. tt)
        (λ output e. then-Triple answer Anything (mute-Sounding route.output_line) (
          then-Triple answer Anything (apply-Sounding audio route.output_line)
            (then-Triple answer Anything (switched audio route) (opened audio route))))

  route_writes-Ready :
      (audio : AudioSettings) (route : AnalogPassthroughRoute) (output : ℕ × ℕ × ℕ) (input : ℕ)
      → ((route.output_line ≡ 1) × (output ≡ (46, 47, 48)))
        ⊎ ((route.output_line ≡ 2) × (output ≡ (48, 49, 12)))
      → mixer_select route.input_line ≡ some input
      → (bus : Bus) → IsTuned audio bus
      → IsReady audio route (after ((dac_control3, 4) ∷ route_writes input output) bus)
  unfolding route_writes after register
  route_writes-Ready audio route output input e f bus h = elim e [
    | inl (line, one) ↦ rw one (h, sym f, (refl, refl, inl (line, refl, refl, refl)))
    | inr (line, two) ↦ rw two (h, sym f, (refl, refl, inr (line, refl, refl, refl)))
  ]

  pub enable_passthrough-Tuned :
      (audio : AudioSettings) (route : AnalogPassthroughRoute)
      → Triple answer Anything
          (IsTuned audio)
          (enable_passthrough answer route)
          (λ bus. IsTuned audio bus × IsOpen route bus)
  unfolding enable_passthrough
  enable_passthrough-Tuned audio route =
      given-Triple answer Anything (passthrough_output route.output_line) _ (λ bus h. tt)
        (λ output e.
          given-Triple answer Anything (passthrough_input_register route.input_line) _ (λ bus h. tt)
            (λ input f.
              then-Triple answer Anything
                (writes-Triple ((dac_control3, 4) ∷ route_writes input output) (IsTuned audio)
                  (IsReady audio route)
                  (route_writes-Ready audio route output input
                    (passthrough_output-pairs answer route.output_line e)
                    (mixer_select_lem route.input_line f)))
                (opened audio route)))

-- The control tells the truth: about the converter, and about the route.
abbrev pub IsInSync : CodecControl → Type 0
IsInSync c = IsTuned c.audio c.bus × IsRouted c.passthrough c.bus
