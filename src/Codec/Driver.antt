-- ===== src/Codec/Driver.antt =====
-- The sequences of writes of the ES8388 driver (firmware/streamline/src/codec/es8388.rs): each is a function
-- of the bus, which it gives back beside the result.
use esp32_streamline.Prelude.{ℕ, Result, ok, err, List, [], ◌∷◌}
use esp32_streamline.Config.{AudioSettings}
use esp32_streamline.Codec.{
  Bus, wrote, failed, waited, AnalogPassthroughRoute, CodecFault, bus_fault, input_register,
  input_controls, passthrough_input_register, passthrough_output, dac_power, dac_control3,
  dac_control16, dac_control17, dac_control20, input_gain_register, attenuation_register,
}

-- What a call on the bus gives beside the bus.
abbrev pub Outcome : Type 0 → Type 0
Outcome E = Result (CodecFault E) (Unit {0})

-- `get_or_insert` keeps the first error.
abbrev pub first_of : {E : Type 0} → Outcome E → Outcome E → Outcome E
first_of (err e) later = err e
first_of (ok _) later = later

-- The writes of `configure` after the first one, which mutes the DAC.
unfoldable pub setup_writes : AudioSettings → ℕ → List (ℕ × ℕ)
unfolding input_gain_register attenuation_register
setup_writes audio input =
    (1, 80)
    ∷ (2, 0)
    ∷ (53, 160)
    ∷ (55, 208)
    ∷ (57, 208)
    ∷ (8, 0)
    ∷ (dac_power, 192)
    ∷ (0, 18)
    ∷ (23, 24)
    ∷ (24, 2)
    ∷ (dac_control16, 0)
    ∷ (dac_control17, 144)
    ∷ (dac_control20, 144)
    ∷ (43, 128)
    ∷ (45, 0)
    ∷ (dac_power, 0)
    ∷ (3, 255)
    ∷ (9, input_gain_register audio.input_gain)
    ∷ (10, input)
    ∷ (11, 2)
    ∷ (12, 13)
    ∷ (13, 2)
    ∷ (16, attenuation_register audio.adc_attenuation_db)
    ∷ (17, attenuation_register audio.adc_attenuation_db)
    ∷ (3, 9)
    ∷ []

-- The writes that select a route on a muted DAC: the input, both mixers, the volumes and the power.
unfoldable pub route_writes : ℕ → ℕ × ℕ × ℕ → List (ℕ × ℕ)
route_writes input output =
    (dac_control16, input)
    ∷ (dac_control17, 80)
    ∷ (dac_control20, 80)
    ∷ (output.0, 30)
    ∷ (output.1, 30)
    ∷ (dac_power, output.2)
    ∷ []

module _ {E : Type 0} (answer : Bus → ℕ → ℕ → Result E (Unit {0})) where
  abbrev pub logged : Bus → ℕ → ℕ → Result E (Unit {0}) → Bus × Outcome E
  logged bus register value (ok _) = (wrote register value ∷ bus, ok tt)
  logged bus register value (err e) = (failed register value ∷ bus, err (bus_fault e))

  unfoldable pub write : ℕ → ℕ → Bus → Bus × Outcome E
  write register value bus = logged bus register value (answer bus register value)

  unfoldable pub delay_ms : ℕ → Bus → Bus × Outcome E
  delay_ms millis bus = (waited millis ∷ bus, ok tt)

  -- `?` after a call on the bus.
  abbrev pub proceed : Bus → Outcome E → (Bus → Bus × Outcome E) → Bus × Outcome E
  proceed bus (ok _) next = next bus
  proceed bus (err e) next = (bus, err e)

  abbrev pub ◌then◌ : (Bus → Bus × Outcome E) → (Bus → Bus × Outcome E) → Bus → Bus × Outcome E
  (first then next) bus = proceed (first bus).0 (first bus).1 next

  infixr 4 ◌then◌
  -- `?` on a value that takes no call of the bus.
  abbrev pub given {ℓ} :
      {A : Type ℓ} → Result (CodecFault E) A → (A → Bus → Bus × Outcome E) → Bus → Bus × Outcome E
  given (ok a) next bus = next a bus
  given (err e) next bus = (bus, err e)

  -- `for (register, value) in writes { bus.write(register, value)?; }`
  unfoldable pub write_all : List (ℕ × ℕ) → Bus → Bus × Outcome E
  unfolding write
  write_all [] bus = (bus, ok tt)
  write_all (w ∷ ws) bus = (write w.0 w.1 then write_all ws) bus

  unfoldable pub configure : AudioSettings → Bus → Bus × Outcome E
  unfolding write_all input_register setup_writes
  configure audio =
      given (input_register audio.input_line)
        (λ input. write_all ((dac_control3, 4) ∷ setup_writes audio input))

  unfoldable pub apply : AudioSettings → Bus → Bus × Outcome E
  unfolding write_all input_controls
  apply audio = given (input_controls audio) write_all

  unfoldable pub apply_with_passthrough :
      AudioSettings → AnalogPassthroughRoute → Bus → Bus × Outcome E
  unfolding passthrough_output passthrough_input_register write delay_ms apply
  apply_with_passthrough audio route = given (passthrough_output route.output_line) (λ _.
      write dac_control3 4
      then apply audio
      then given (passthrough_input_register route.input_line) (write dac_control16)
      then delay_ms 100
      then write dac_control3 0)

  unfoldable pub enable_passthrough : AnalogPassthroughRoute → Bus → Bus × Outcome E
  unfolding passthrough_output passthrough_input_register write delay_ms write_all route_writes
  enable_passthrough route = given (passthrough_output route.output_line) (λ output.
      given (passthrough_input_register route.input_line) (λ input.
        write_all ((dac_control3, 4) ∷ route_writes input output)
        then delay_ms 100
        then write dac_control3 0))

  -- Every write is attempted, whatever the earlier ones answered.
  unfoldable pub attempt_all : List (ℕ × ℕ) → Bus → Bus × Outcome E
  unfolding write
  attempt_all [] bus = (bus, ok tt)
  attempt_all (w ∷ ws) bus =
      let (bus', result) = write w.0 w.1 bus in
      let (bus'', rest) = attempt_all ws bus' in (bus'', first_of result rest)

  unfoldable pub disable_passthrough : Bus → Bus × Outcome E
  unfolding attempt_all
  disable_passthrough =
      attempt_all
        ((dac_control3, 4) ∷ (dac_power, 0) ∷ (dac_control17, 144) ∷ (dac_control20, 144) ∷ [])
