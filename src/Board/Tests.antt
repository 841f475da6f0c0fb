-- ===== src/Board/Tests.antt =====
-- Two boards that pass validation.
use esp32_streamline.Prelude.{◌≡◌, refl, true, none, some, ok, [], ◌∷◌}
use esp32_streamline.Prelude.Bytes.{bytes}
use esp32_streamline.Board.{
  Board, status, toggle_stream, next_input_line, has_line, validate_lines, has_gpio, gpios,
  validate_gpios, has_button_id, validate_buttons, has_led_id, validate_leds, is_gpio,
  validate_input_gpio, is_output_gpio, validate_output_gpio, validate_pins, validate,
}
use esp32_streamline.Board.Sound.{IsSound}
use esp32_streamline.Board.Lines.{IsLine, validate_lem}

abbrev pub old_board : Board
old_board = record {
  id = bytes "old";
  name = bytes "Old board";
  codec = record { driver = bytes "es8388"; i2c_address = 16 };
  pins = record { sda = 33; scl = 32; mclk = 0; bclk = 27; ws = 25; din = 35 };
  leds =
      record {
        id = bytes "led";
        label = bytes "LED";
        gpio = 22;
        active_low = true;
        default_role = status;
      }
      ∷ [];
  buttons =
      record {
        id = bytes "key";
        label = bytes "Key";
        gpio = 36;
        active_low = true;
        default_action = toggle_stream;
      }
      ∷ [];
  analog_passthrough = some (record { output_line = 1; label = bytes "Out" });
  input_lines =
      record { line = 1; label = bytes "Mic" } ∷ record { line = 2; label = bytes "Line" } ∷ [];
  input_gain_max = 100;
  adc_atten_max_db = 96;
}

abbrev pub new_board : Board
new_board = record {
  id = bytes "new";
  name = bytes "New board";
  codec = record { driver = bytes "es8388"; i2c_address = 16 };
  pins = record { sda = 18; scl = 23; mclk = 0; bclk = 5; ws = 25; din = 35 };
  leds = [];
  buttons = [];
  analog_passthrough = none;
  input_lines = record { line = 1; label = bytes "Line" } ∷ [];
  input_gain_max = 50;
  adc_atten_max_db = 20;
}

old_board_valid : validate old_board ≡ ok tt
unfolding validate validate_pins validate_output_gpio is_output_gpio validate_input_gpio is_gpio
    validate_leds has_led_id validate_buttons has_button_id validate_gpios gpios has_gpio
    validate_lines has_line
old_board_valid = refl

pub new_board_valid : validate new_board ≡ ok tt
unfolding validate validate_pins validate_output_gpio is_output_gpio validate_input_gpio is_gpio
    validate_leds has_led_id validate_buttons has_button_id validate_gpios gpios has_gpio
    validate_lines has_line
new_board_valid = refl

validate_lem_example :
    IsSound old_board × IsLine (next_input_line old_board 2) old_board.input_lines
validate_lem_example = validate_lem old_board 2 old_board_valid
