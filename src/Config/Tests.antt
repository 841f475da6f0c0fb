-- ===== src/Config/Tests.antt =====
-- A configuration that is moved to another board.
use esp32_streamline.Prelude.{◌≡◌, refl, true, some, ok, [], ◌∷◌, replicate}
use esp32_streamline.Prelude.Bytes.{Text, bytes, text_eq, contains_byte, all_bytes}
use esp32_streamline.Schedule.{daily}
use esp32_streamline.Transport.Settings.{default_settings, validate_settings}
use esp32_streamline.Board.{
  restart, off, accepts_line, has_line, has_button, has_button_id, has_led, has_led_id,
}
use esp32_streamline.Board.Tests.{old_board, new_board, new_board_valid}
use esp32_streamline.Config.{
  RuntimeConfig, validate, with_board_compatible_with, validate_network, network, validate_target,
  bad_password, is_canonical_admin_key, validate_device_settings, char_count, validate_audio,
  any_unknown,
}
use esp32_streamline.Transport.Keys as Keys
use esp32_streamline.Transport.Keys.{default_keys, active_key, same_ids}
use esp32_streamline.Config.Moves.{with_board_compatible_with_lem}

abbrev pub config : RuntimeConfig
config = record {
  ssid = bytes "home";
  password = bytes "password";
  target_host = bytes "bridge";
  target_port = 39000;
  transport = default_settings;
  admin_key = replicate 48 48;
  device_name = bytes "Turntable";
  auto_update_schedule = daily;
  audio = record { input_line = 2; input_gain = 80; adc_attenuation_db = 30 };
  analog_passthrough_enabled = true;
  led_roles = (bytes "led", off) ∷ [];
  button_actions = (bytes "key", restart) ∷ [];
}

pub config_valid : validate config old_board ≡ ok tt
unfolding validate validate_network network contains_byte validate_target bad_password
    is_canonical_admin_key all_bytes validate_device_settings char_count validate_settings
    default_settings Keys.validate default_keys validate_audio accepts_line has_line has_button
    has_button_id has_led has_led_id any_unknown text_eq active_key same_ids
config_valid = refl

abbrev pub untrimmed : Text → Text
untrimmed t = t

with_board_compatible_with_lem_example :
    ((d : RuntimeConfig) × (with_board_compatible_with config new_board ≡ some d)
      × (validate d new_board ≡ ok tt))
    × (with_board_compatible_with config old_board ≡ some config)
with_board_compatible_with_lem_example =
    with_board_compatible_with_lem config old_board new_board config_valid new_board_valid
