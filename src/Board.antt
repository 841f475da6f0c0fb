-- ===== src/Board.antt =====
-- Board descriptors and their validation (firmware/streamline/src/board/mod.rs), with the two enumerations
-- that they hold (`LedRole` of firmware/streamline/src/led.rs, `ButtonAction` of
-- firmware/streamline/src/button.rs), and the input line that a button press selects next.
pub mod Sound
pub mod Lines
pub mod Choice
pub mod Tests
use esp32_streamline.Prelude.{
  ℕ, ◌+◌, ◌%◌, Bool, true, false, not, ◌&&◌, ◌||◌, Option, none, some, Result, ok, err, List, [],
  ◌∷◌, ◌++◌, map, length, get_or, ltb, leb, ◌==◌, if◌then◌else◌, ◌>>◌, refuse_if, is_some,
  is_some_and,
}
use esp32_streamline.Prelude.Bytes.{Text, text_eq}

abbrev max_leds : ℕ
max_leds = 8

abbrev max_buttons : ℕ
max_buttons = 8

pub data LedRole : Type 0 where
  off on status : LedRole

pub data ButtonAction : Type 0 where
  no_action toggle_stream cycle_input gain_up gain_down : ButtonAction
  attenuation_up attenuation_down restart factory_reset : ButtonAction

pub record CodecSpec : Type 0 where
  pub driver : Text
  pub i2c_address : ℕ

pub record PinMap : Type 0 where
  pub sda : ℕ
  pub scl : ℕ
  pub mclk : ℕ
  pub bclk : ℕ
  pub ws : ℕ
  pub din : ℕ

pub record Led : Type 0 where
  pub id : Text
  pub label : Text
  pub gpio : ℕ
  pub active_low : Bool
  pub default_role : LedRole

pub record Button : Type 0 where
  pub id : Text
  pub label : Text
  pub gpio : ℕ
  pub active_low : Bool
  pub default_action : ButtonAction

pub record InputOption : Type 0 where
  pub line : ℕ
  pub label : Text

pub record AnalogPassthrough : Type 0 where
  pub output_line : ℕ
  pub label : Text

pub record Board : Type 0 where
  pub id : Text
  pub name : Text
  pub codec : CodecSpec
  pub pins : PinMap
  pub leds : List Led
  pub buttons : List Button
  pub analog_passthrough : Option AnalogPassthrough
  pub input_lines : List InputOption
  pub input_gain_max : ℕ
  pub adc_atten_max_db : ℕ

pub data BoardError : Type 0 where
  missing_id missing_name missing_codec_driver invalid_codec_address : BoardError
  invalid_output_gpio invalid_input_gpio duplicate_gpio no_input_lines : BoardError
  missing_input_label missing_passthrough_label duplicate_input_line invalid_gain_max : BoardError
  too_many_leds missing_led_id missing_led_label duplicate_led_id : BoardError
  too_many_buttons missing_button_id missing_button_label duplicate_button_id : BoardError

abbrev Checked : Type 0
Checked = Result BoardError (Unit {0})

abbrev pub is_empty {ℓ} : {A : Type ℓ} → List A → Bool
is_empty [] = true
is_empty (_ ∷ _) = false

abbrev pub within : ℕ → ℕ → ℕ → Bool
within lo hi x = leb lo x && leb x hi

pub is_output_gpio : ℕ → Bool
is_output_gpio g = within 0 5 g || within 12 23 g || within 25 33 g

pub is_gpio : ℕ → Bool
is_gpio g = within 0 5 g || within 12 23 g || within 25 39 g

pub validate_output_gpio : ℕ → Checked
validate_output_gpio g = refuse_if (not (is_output_gpio g)) invalid_output_gpio

pub validate_input_gpio : ℕ → Checked
validate_input_gpio g = refuse_if (not (is_gpio g)) invalid_input_gpio

unfoldable pub has_led_id : Text → List Led → Bool
has_led_id id [] = false
has_led_id id (led ∷ leds) = text_eq led.id id || has_led_id id leds

unfoldable pub has_button_id : Text → List Button → Bool
has_button_id id [] = false
has_button_id id (b ∷ bs) = text_eq b.id id || has_button_id id bs

-- `iter().any(|option| option.line == line)` over the options, and `contains` over the pins.
unfoldable pub has_line : ℕ → List InputOption → Bool
has_line line [] = false
has_line line (o ∷ os) = (o.line == line) || has_line line os

pub has_gpio : ℕ → List ℕ → Bool
has_gpio g [] = false
has_gpio g (h ∷ hs) = (h == g) || has_gpio g hs

-- The four loops of `validate`.
pub validate_leds : List Led → Checked
validate_leds [] = ok tt
validate_leds (led ∷ leds) = do
  refuse_if (is_empty led.id) missing_led_id
  refuse_if (is_empty led.label) missing_led_label
  validate_output_gpio led.gpio
  refuse_if (has_led_id led.id leds) duplicate_led_id
  validate_leds leds

pub validate_buttons : List Button → Checked
validate_buttons [] = ok tt
validate_buttons (b ∷ bs) = do
  refuse_if (is_empty b.id) missing_button_id
  refuse_if (is_empty b.label) missing_button_label
  validate_input_gpio b.gpio
  refuse_if (has_button_id b.id bs) duplicate_button_id
  validate_buttons bs

pub validate_gpios : List ℕ → Checked
validate_gpios [] = ok tt
validate_gpios (g ∷ gs) = do refuse_if (has_gpio g gs) duplicate_gpio; validate_gpios gs

pub validate_lines : List InputOption → Checked
validate_lines [] = ok tt
validate_lines (o ∷ os) = do
  refuse_if (is_empty o.label) missing_input_label
  refuse_if (has_line o.line os) duplicate_input_line
  validate_lines os

pub gpios : Board → List ℕ
gpios b =
    (b.pins.sda ∷ b.pins.scl ∷ b.pins.mclk ∷ b.pins.bclk ∷ b.pins.ws ∷ b.pins.din ∷ [])
    ++ map (λ (l : Led). l.gpio) b.leds
    ++ map (λ (k : Button). k.gpio) b.buttons

pub validate_pins : PinMap → Checked
validate_pins p = do
  validate_output_gpio p.sda
  validate_output_gpio p.scl
  validate_output_gpio p.mclk
  validate_output_gpio p.bclk
  validate_output_gpio p.ws
  validate_input_gpio p.din

unfoldable pub validate : Board → Checked
validate b = do
  refuse_if (is_empty b.id) missing_id
  refuse_if (is_empty b.name) missing_name
  refuse_if (is_empty b.codec.driver) missing_codec_driver
  refuse_if (ltb 0x7f b.codec.i2c_address) invalid_codec_address
  validate_pins b.pins
  refuse_if (ltb max_leds (length b.leds)) too_many_leds
  validate_leds b.leds
  refuse_if (ltb max_buttons (length b.buttons)) too_many_buttons
  validate_buttons b.buttons
  validate_gpios (gpios b)
  refuse_if (is_empty b.input_lines) no_input_lines
  refuse_if (is_some_and b.analog_passthrough (λ c. is_empty c.label)) missing_passthrough_label
  refuse_if (ltb 100 b.input_gain_max) invalid_gain_max
  validate_lines b.input_lines

unfoldable pub accepts_line : Board → ℕ → Bool
accepts_line b line = has_line line b.input_lines

-- `self.input_lines[0].line` panics on an empty list, which `none` stands for.
pub default_line : Board → Option ℕ
default_line b = elim b.input_lines [ [] ↦ none | o ∷ _ ↦ some o.line ]

unfoldable pub has_led : Board → Text → Bool
has_led b id = has_led_id id b.leds

unfoldable pub has_button : Board → Text → Bool
has_button b id = has_button_id id b.buttons

-- `iter().position(…)`.
abbrev pub position : ℕ → List InputOption → Option ℕ
position line [] = none
position line (o ∷ os) =
    let rest = position line os in
    if o.line == line then some 0 else elim rest [ none ↦ none | some i ↦ some (i + 1) ]

abbrev pub lines : List InputOption → List ℕ
lines = map (λ (o : InputOption). o.line)

-- `next_input_line` of button.rs; a board with no line would panic at `lines[0]`.
pub line_after : List InputOption → Option ℕ → ℕ
line_after os none = get_or (lines os) 0 0
line_after os (some i) = get_or (lines os) ((i + 1) % length os) 0

pub next_input_line : Board → ℕ → ℕ
next_input_line b current = line_after b.input_lines (position current b.input_lines)
