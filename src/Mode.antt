-- ===== src/Mode.antt =====
-- The boot mode with its write policy (firmware/streamline/src/mode.rs), and the edits of a configuration
-- outside the ordinary settings (recovery.rs). `trim` is `str::trim`.
use esp32_streamline.Prelude.{
  ℕ, Bool, true, false, Option, none, some, Result, ok, err, [], ◌∷◌, ◌++◌, and_then,
}
use esp32_streamline.Prelude.Bytes.{Text, bytes}
use esp32_streamline.Board.{Board}
use esp32_streamline.Board as B
use esp32_streamline.Config.{RuntimeConfig, update_target}
use esp32_streamline.Schedule.{daily}
use esp32_streamline.Transport.Settings.{default_settings, default_port}
use esp32_streamline.Mutation.{MutationError, unavailable}

pub data Mode : Type 0 where
  setup recovery provisioned : Mode

pub data ConfigWrite : Type 0 where
  persist stage : ConfigWrite

unfoldable setup_network_active : Mode → Bool
setup_network_active setup = true
setup_network_active recovery = true
setup_network_active provisioned = false

unfoldable pub config_write : Mode → ConfigWrite
config_write setup = stage
config_write recovery = persist
config_write provisioned = persist

require : ConfigWrite → Text → Result MutationError (Unit {0})
require persist capability = ok tt
require stage capability =
    err
      (unavailable (capability ++ bytes " needs a commissioned device; complete Wi-Fi setup first"))

unfoldable pub require_commissioned : Mode → Text → Result MutationError (Unit {0})
unfolding config_write require
require_commissioned mode capability = require (config_write mode) capability

first_config : Board → ℕ → RuntimeConfig
unfolding default_settings
first_config board line = record {
  ssid = [];
  password = [];
  target_host = [];
  target_port = default_port;
  transport = default_settings;
  admin_key = [];
  device_name = [];
  auto_update_schedule = daily;
  audio = record { input_line = line; input_gain = 0; adc_attenuation_db = 0 };
  analog_passthrough_enabled = false;
  led_roles = [];
  button_actions = [];
}

-- `none` where `default_line` panics, on a board without inputs.
unfoldable setup_baseline : Board → Option RuntimeConfig → Option RuntimeConfig
unfolding first_config
setup_baseline board (some config) = some config
setup_baseline board none = and_then (B.default_line board) (λ line. some (first_config board line))

-- A secret that is left out keeps its value.
abbrev replaced : Text → Text → Text
replaced current [] = current
replaced current (c ∷ cs) = c ∷ cs

unfoldable pub replace_wifi :
    (Text → Text)
    → RuntimeConfig
    → (ssid password admin_key : Text) → Option Text
    → Option ℕ
    → RuntimeConfig
replace_wifi trim current ssid password admin_key target_host target_port =
    update_target trim
      (record current {
        ssid = ssid;
        password = replaced current.password password;
        admin_key = replaced current.admin_key admin_key;
      })
      target_host target_port

-- Memory takes the next value only after `persist`, which runs on the store.
abbrev pub after_persist {ℓ} :
    {S : Type ℓ} {E : Type 0}
    → RuntimeConfig
    → RuntimeConfig
    → S
    → Result E (Unit {0})
    → S × RuntimeConfig × Result E (Unit {0})
after_persist current next store (ok _) = (store, next, ok tt)
after_persist current next store (err e) = (store, current, err e)

unfoldable pub commit_after_persist {ℓ} :
    {S : Type ℓ} {E : Type 0}
    → RuntimeConfig
    → RuntimeConfig
    → (RuntimeConfig → S → S × Result E (Unit {0}))
    → S
    → S × RuntimeConfig × Result E (Unit {0})
commit_after_persist current next write store =
    let (store', result) = write next store in after_persist current next store' result
