-- ===== src/Writes/Requests.antt =====
-- Any sequence of requests to the handlers of Writes/Handlers, Writes/Audio and Writes/Output; a selection of a
-- board is not among them. The forms are as they were read; handlers run one after another under the control
-- lock.
use esp32_streamline.Prelude.{ℕ, Bool, Option, Result, List, [], ◌∷◌}
use esp32_streamline.Prelude.Bytes.{Text}
use esp32_streamline.Board as B
use esp32_streamline.Config.{ConfigError, AudioSettings}
use esp32_streamline.Profiles.{AudioProfileCatalog, AudioProfileError}
use esp32_streamline.Schedule.{AutoUpdateSchedule}
use esp32_streamline.Transport.Keys.{TransportKey}
use esp32_streamline.Transport.Settings.{TransportMode}
use esp32_streamline.Codec.{Bus}
use esp32_streamline.Writes.{ApiState, Store}
use esp32_streamline.Writes.Handlers.{
  set_wifi, set_target, set_name, set_admin_key, set_firmware, set_led, set_button, set_transport,
  stage_key, verify_key, activate_key, discard_key, rollback_key, retire_key, recover_key,
}
use esp32_streamline.Writes.Audio.{set_audio, set_audio_profile, set_audio_profiles}
use esp32_streamline.Writes.Output.{set_analog_passthrough, set_stream}

pub data SettingsRequest : Type 0 where
  wifi :
      (ssid password admin_key : Text) (target_host : Option Text) (target_port : Option ℕ)
      → SettingsRequest
  target : (host : Text) (port : Option ℕ) → SettingsRequest
  name admin_key : Text → SettingsRequest
  firmware : AutoUpdateSchedule → SettingsRequest
  led : Text → B.LedRole → SettingsRequest
  button : Text → B.ButtonAction → SettingsRequest
  transport : ℕ → TransportMode → SettingsRequest
  stage verify activate discard rollback retire recover : SettingsRequest
  audio : AudioSettings → SettingsRequest
  profile : Text → SettingsRequest
  profiles : AudioProfileCatalog → SettingsRequest
  output stream : Bool → SettingsRequest

module _ {S R E : Type 0} (store : Store S) (debug : ConfigError → Text)
    (debug_profiles : AudioProfileError → Text) (trim : Text → Text)
    (answer : Bus → ℕ → ℕ → Result E (Unit {0})) (shown brief : E → Text)
    (verifier : Option (Text → ℕ → TransportKey → Result Text (Unit {0})))
    (fill : ℕ → R → List ℕ × R) where
  unfoldable pub serve : SettingsRequest → ApiState S R → ApiState S R
  serve (wifi ssid password key host port) s =
      (set_wifi store debug trim s ssid password key host port).0
  serve (target host port) s = (set_target store debug trim s host port).0
  serve (name text) s = (set_name store debug trim s text).0
  serve (admin_key key) s = (set_admin_key store debug trim s key).0
  serve (firmware schedule) s = (set_firmware store debug trim s schedule).0
  serve (led id role) s = (set_led store debug trim s id role).0
  serve (button id action) s = (set_button store debug trim s id action).0
  serve (transport version mode) s = (set_transport store debug trim s version mode).0
  serve stage s = (stage_key store debug trim fill s).0
  serve verify s = (verify_key store debug trim verifier s).0
  serve activate s = (activate_key store debug trim s).0
  serve discard s = (discard_key store debug trim s).0
  serve rollback s = (rollback_key store debug trim s).0
  serve retire s = (retire_key store debug trim s).0
  serve recover s = (recover_key store debug trim fill s).0
  serve (audio settings) s = (set_audio store debug debug_profiles trim answer shown s settings).0
  serve (profile id) s = (set_audio_profile store debug debug_profiles trim answer shown s id).0
  serve (profiles catalog) s =
      (set_audio_profiles store debug debug_profiles trim answer shown s catalog).0
  serve (output enabled) s = (set_analog_passthrough store debug answer brief s enabled).0
  serve (stream enabled) s = (set_stream s enabled).0

  unfoldable pub serve_all : List SettingsRequest → ApiState S R → ApiState S R
  unfolding serve
  serve_all [] s = s
  serve_all (request ∷ requests) s = serve_all requests (serve request s)
