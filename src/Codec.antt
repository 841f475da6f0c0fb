-- ===== src/Codec.antt =====
-- The codec's registers and the local analog output: codec/es8388.rs, codec/control.rs, the bus of codec/mod.rs
-- and analog_passthrough.rs (all in firmware/streamline/src). There is one driver, so the dispatch of `Driver`
-- is left out.
--
-- The bus keeps the events of its calls, the latest first. What the I2C driver answers to a write is the
-- parameter `answer`, which may depend on all that came before; `shown` prints its errors.
pub mod Driver
pub mod Control
pub mod Passthrough
pub mod Logic
pub mod Quiet
pub mod Runs
pub mod Codes
pub mod Sync
pub mod Change
pub mod Closed
pub mod Observed
pub mod Agree
mod Tests
use esp32_streamline.Prelude.{
  ℕ, ◌+◌, ◌-◌, ◌*◌, ◌/◌, ◌%◌, min, Bool, true, false, not, ◌&&◌, Option, none, some, Result, ok,
  err, List, [], ◌∷◌, ◌++◌, if◌then◌else◌, ◌==◌, ltb, ◌>>=◌,
}
use esp32_streamline.Prelude.Bytes.{Text, bytes}
use esp32_streamline.Prelude.Decimal.{decimal}
use esp32_streamline.Config.{AudioSettings}
use esp32_streamline.Mutation.{MutationError, internal}
use Prim.Native.Nat.{bit_or}

-- The registers that the operations after `configure` write.
abbrev pub adc_control1 : ℕ
adc_control1 = 9

abbrev pub adc_control2 : ℕ
adc_control2 = 10

abbrev pub adc_control8 : ℕ
adc_control8 = 16

abbrev pub adc_control9 : ℕ
adc_control9 = 17

abbrev pub dac_power : ℕ
dac_power = 4

abbrev pub dac_control3 : ℕ
dac_control3 = 25

abbrev pub dac_control16 : ℕ
dac_control16 = 38

abbrev pub dac_control17 : ℕ
dac_control17 = 39

abbrev pub dac_control20 : ℕ
dac_control20 = 42

pub data Event : Type 0 where
  wrote : (register value : ℕ) → Event
  failed : (register value : ℕ) → Event
  waited : (millis : ℕ) → Event

abbrev pub Bus : Type 0
Bus = List Event

pub record AnalogPassthroughRoute : Type 0 where
  pub input_line : ℕ
  pub output_line : ℕ

-- The errors that the driver makes, and the bus's own.
pub data CodecFault {ℓ} (E : Type ℓ) : Type ℓ where
  bus_fault : E → CodecFault E
  no_input_line no_passthrough_input no_passthrough_output : ℕ → CodecFault E
  not_closed : (cause close : CodecFault E) → CodecFault E

-- The text of an error (`{error:#}`).
unfoldable pub describe : {E : Type 0} → (E → Text) → CodecFault E → Text
unfolding decimal
describe shown (bus_fault e) = shown e
describe shown (no_input_line line) = bytes "unsupported ES8388 input line " ++ decimal line
describe shown (no_passthrough_input line) =
    bytes "unsupported ES8388 passthrough input line " ++ decimal line
describe shown (no_passthrough_output line) =
    bytes "unsupported ES8388 passthrough output line " ++ decimal line
describe shown (not_closed cause close) =
    describe shown cause ++ bytes "; fail-close failed: " ++ describe shown close

pub passthrough_input_register : {E : Type 0} → ℕ → Result (CodecFault E) ℕ
passthrough_input_register line =
    if line == 1 then ok 0 else if line == 2 then ok 9 else err (no_passthrough_input line)

-- The two volume registers of an output pair, and the power bits.
pub passthrough_output : {E : Type 0} → ℕ → Result (CodecFault E) (ℕ × ℕ × ℕ)
passthrough_output line =
    if line == 1
    then ok (46, 47, 48)
    else if line == 2
    then ok (48, 49, 12)
    else err (no_passthrough_output line)

pub input_register : {E : Type 0} → ℕ → Result (CodecFault E) ℕ
input_register line =
    if line == 1 then ok 0 else if line == 2 then ok 80 else err (no_input_line line)

-- `step << 4` is at u8.
pub input_gain_register : ℕ → ℕ
input_gain_register gain = let step = (gain * 8 / 100) % 256 in bit_or ((step * 16) % 256) step

pub attenuation_register : ℕ → ℕ
attenuation_register db = min (db * 2) 255

-- The four writes, where the input line is known.
pub input_writes : AudioSettings → ℕ → List (ℕ × ℕ)
unfolding input_gain_register attenuation_register
input_writes audio input =
    (adc_control1, input_gain_register audio.input_gain)
    ∷ (adc_control2, input)
    ∷ (adc_control8, attenuation_register audio.adc_attenuation_db)
    ∷ (adc_control9, attenuation_register audio.adc_attenuation_db)
    ∷ []

pub input_controls : {E : Type 0} → AudioSettings → Result (CodecFault E) (List (ℕ × ℕ))
unfolding input_register input_writes
input_controls audio = input_register audio.input_line >>= λ input. ok (input_writes audio input)

-- Only a new input line changes an active route.
pub route_for_audio_change :
    Bool → (previous next : AudioSettings) → ℕ → Option AnalogPassthroughRoute
route_for_audio_change active previous next output_line =
    if active && not (previous.input_line == next.input_line)
    then some (record { input_line = next.input_line; output_line = output_line })
    else none
