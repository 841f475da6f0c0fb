-- ===== src/Config.antt =====
-- The configuration of the application (firmware/streamline/src/config.rs): its validation against the
-- selected board, and the move of a configuration to another board.
pub mod Moves
pub mod Tests
use esp32_streamline.Prelude.{
  ℕ, ◌+◌, min, Bool, true, false, not, ◌&&◌, ◌||◌, Option, none, some, Result, ok, err, List, [],
  ◌∷◌, length, ltb, leb, ◌==◌, if◌then◌else◌, ◌>>◌, ◌>>=◌, refuse_if, map_err, is_some, is_none,
  is_some_and, unwrap_or, and_then,
}
use esp32_streamline.Prelude.Bytes.{Text, text_eq, all_bytes, contains_byte}
use esp32_streamline.Prelude.Strings.{is_ascii_hexdigit}
use esp32_streamline.Schedule.{AutoUpdateSchedule}
use esp32_streamline.Transport.Keys.{TransportError, reset_pending_verification}
use esp32_streamline.Transport.Settings.{TransportSettings, validate_settings, is_empty}
use esp32_streamline.Board as B
use esp32_streamline.Board.{Board, Led, Button, LedRole, ButtonAction, off, on, status}

abbrev min_port : ℕ
min_port = 1

abbrev max_device_name_chars : ℕ
max_device_name_chars = 32

abbrev admin_key_hex_chars : ℕ
admin_key_hex_chars = 48

pub is_canonical_admin_key : Text → Bool
is_canonical_admin_key secret =
    (length secret == admin_key_hex_chars)
    && all_bytes (λ c. (leb b'0' c && leb c b'9') || (leb b'a' c && leb c b'f')) secret

pub record AudioSettings : Type 0 where
  pub input_line : ℕ
  pub input_gain : ℕ
  pub adc_attenuation_db : ℕ

pub data ConfigError : Type 0 where
  missing_ssid malformed_ssid malformed_wifi_password malformed_target_host : ConfigError
  invalid_target_port invalid_input_line invalid_input_gain invalid_adc_attenuation : ConfigError
  unsupported_analog_passthrough unknown_led unknown_button malformed_admin_key : ConfigError
  device_name_too_long : ConfigError
  invalid_transport : TransportError → ConfigError

-- The code gives the settings back on success, which callers drop.
unfoldable pub validate_audio : AudioSettings → Board → Result ConfigError AudioSettings
validate_audio a board = do
  refuse_if (not (B.accepts_line board a.input_line)) invalid_input_line
  refuse_if (ltb board.input_gain_max a.input_gain) invalid_input_gain
  refuse_if (ltb board.adc_atten_max_db a.adc_attenuation_db) invalid_adc_attenuation
  ok a

-- `default_line` panics on a board without inputs, which `none` stands for.
pub line_or_default : AudioSettings → Board → Option ℕ
line_or_default a board =
    if B.accepts_line board a.input_line then some a.input_line else B.default_line board

pub on_line : AudioSettings → Board → ℕ → AudioSettings
on_line a board line = record {
  input_line = line;
  input_gain = min a.input_gain board.input_gain_max;
  adc_attenuation_db = min a.adc_attenuation_db board.adc_atten_max_db;
}

pub compatible_with : AudioSettings → Board → Option AudioSettings
compatible_with a board = and_then (line_or_default a board) (λ line. some (on_line a board line))

pub record NetworkSettings : Type 0 where
  pub ssid : Text
  pub target_host : Text
  pub target_port : ℕ

pub validate_target : NetworkSettings → Result ConfigError NetworkSettings
validate_target n = do
  refuse_if (contains_byte b':' n.target_host || contains_byte b'/' n.target_host)
      malformed_target_host
  refuse_if (ltb n.target_port min_port) invalid_target_port
  ok n

unfoldable pub validate_network : NetworkSettings → Result ConfigError NetworkSettings
validate_network n = do
  refuse_if (is_empty n.ssid) missing_ssid
  refuse_if (ltb 32 (length n.ssid) || contains_byte 0 n.ssid) malformed_ssid
  validate_target n

-- The two maps are association lists: `BTreeMap` holds a key at most once.
pub record RuntimeConfig : Type 0 where
  pub ssid : Text
  pub password : Text
  pub target_host : Text
  pub target_port : ℕ
  pub transport : TransportSettings
  pub admin_key : Text
  pub device_name : Text
  pub auto_update_schedule : AutoUpdateSchedule
  pub audio : AudioSettings
  pub analog_passthrough_enabled : Bool
  pub led_roles : List (Text × LedRole)
  pub button_actions : List (Text × ButtonAction)

unfoldable lookup {ℓ} : {A : Type ℓ} → List (Text × A) → Text → Option A
lookup [] id = none
lookup ((k, a) ∷ rest) id = if text_eq k id then some a else lookup rest id

-- `keys().any(|id| !known(id))` and `retain(|id, _| known(id))`.
pub any_unknown {ℓ} : {A : Type ℓ} → (Text → Bool) → List (Text × A) → Bool
any_unknown known [] = false
any_unknown known ((k, a) ∷ rest) = not (known k) || any_unknown known rest

pub retain_known {ℓ} : {A : Type ℓ} → (Text → Bool) → List (Text × A) → List (Text × A)
retain_known known [] = []
retain_known known ((k, a) ∷ rest) =
    if known k then (k, a) ∷ retain_known known rest else retain_known known rest

-- `chars().count()`: the bytes of UTF-8 that do not continue a character.
unfoldable pub char_count : Text → ℕ
char_count [] = 0
char_count (c ∷ cs) = if leb 0x80 c && ltb c 0xc0 then char_count cs else char_count cs + 1

-- `trim` is `str::trim` of the standard library.
module _ (trim : Text → Text) where
  unfoldable pub update_target : RuntimeConfig → Option Text → Option ℕ → RuntimeConfig
  update_target c host port =
      let host = and_then host (λ h. some (trim h)) in
      let moved =
        is_some_and host (λ h. not (text_eq h c.target_host))
        || is_some_and port (λ p. not (p == c.target_port)) in
      let transport =
        if moved
        then record (c.transport) { keys = reset_pending_verification c.transport.keys }
        else c.transport in
      record c {
        transport = transport;
        target_host = unwrap_or host c.target_host;
        target_port = unwrap_or port c.target_port;
      }

unfoldable pub network : RuntimeConfig → NetworkSettings
network c = record { ssid = c.ssid; target_host = c.target_host; target_port = c.target_port }

pub validate_device_settings : RuntimeConfig → Board → Result ConfigError (Unit {0})
validate_device_settings c board = do
  refuse_if (ltb max_device_name_chars (char_count c.device_name)) device_name_too_long
  map_err invalid_transport (validate_settings c.transport)
  validate_audio c.audio board >>= λ _. ok tt
  refuse_if (c.analog_passthrough_enabled && is_none board.analog_passthrough)
      unsupported_analog_passthrough
  refuse_if (any_unknown (B.has_led board) c.led_roles) unknown_led
  refuse_if (any_unknown (B.has_button board) c.button_actions) unknown_button

pub bad_password : Text → Bool
bad_password p =
    contains_byte 0 p
    || not (
        (leb 8 (length p) && leb (length p) 63)
        || ((length p == 64) && all_bytes is_ascii_hexdigit p))

unfoldable pub validate : RuntimeConfig → Board → Result ConfigError (Unit {0})
validate c board = do
  validate_network (network c) >>= λ _. ok tt
  refuse_if (bad_password c.password) malformed_wifi_password
  refuse_if (not (is_canonical_admin_key c.admin_key)) malformed_admin_key
  validate_device_settings c board

unfoldable pub validate_staged : RuntimeConfig → Board → Result ConfigError (Unit {0})
validate_staged c board = do
  validate_target (network c) >>= λ _. ok tt
  validate_device_settings c board

pub adapted : RuntimeConfig → Board → AudioSettings → RuntimeConfig
adapted c board audio = record c {
  audio = audio;
  analog_passthrough_enabled = c.analog_passthrough_enabled && is_some board.analog_passthrough;
  led_roles = retain_known (B.has_led board) c.led_roles;
  button_actions = retain_known (B.has_button board) c.button_actions;
}

pub with_board_compatible_with : RuntimeConfig → Board → Option RuntimeConfig
with_board_compatible_with c board =
    and_then (compatible_with c.audio board) (λ audio. some (adapted c board audio))

unfoldable led_role : RuntimeConfig → Led → LedRole
led_role c led = unwrap_or (lookup c.led_roles led.id) led.default_role

unfoldable button_action : RuntimeConfig → Button → ButtonAction
button_action c button = unwrap_or (lookup c.button_actions button.id) button.default_action

abbrev is_status : LedRole → Bool
is_status off = false
is_status on = false
is_status status = true

unfoldable any_shows_status : RuntimeConfig → List Led → Bool
any_shows_status c [] = false
any_shows_status c (led ∷ leds) = is_status (led_role c led) || any_shows_status c leds

unfoldable shows_status_indicator : RuntimeConfig → Board → Bool
shows_status_indicator c board = any_shows_status c board.leds
