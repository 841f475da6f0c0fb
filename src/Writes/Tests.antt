-- ===== src/Writes/Tests.antt =====
-- Requests to a device that streams, with a store that fails after its first write.
use esp32_streamline.Prelude.{
  ℕ, ◌+◌, true, false, Option, none, some, Result, ok, err, List, [], ◌∷◌, ◌≡◌, refl, if◌then◌else◌,
  replicate, ◌==◌,
}
use esp32_streamline.Prelude.Bytes.{Text, bytes}
use esp32_streamline.Board.Tests.{old_board}
use esp32_streamline.Config.{ConfigError, AudioSettings}
use esp32_streamline.Config.Tests.{config, config_valid, untrimmed}
use esp32_streamline.Profiles.{AudioProfileCatalog, AudioProfileError}
use esp32_streamline.Profiles as Profiles
use esp32_streamline.Mode.{provisioned, persist, config_write}
use esp32_streamline.Transport.Keys.{TransportKey}
use esp32_streamline.Codec.{Bus}
use esp32_streamline.Writes.{ApiState, Store, StoreError, storage_failure, update_configuration}
use esp32_streamline.Writes.Handlers.{name_change}
use esp32_streamline.Writes.Requests.{
  SettingsRequest, wifi, name, audio, output, activate, serve_all,
}
use esp32_streamline.Writes.Accepted.{IsHeld}
use esp32_streamline.Writes.Served.{serve_all-IsHeld}
use esp32_streamline.Writes.Aside.{IsCoherent}
use esp32_streamline.Writes.Kept.{serve_all-IsCoherent}
use esp32_streamline.Writes.Landed.{IsLanded, update_configuration-IsLanded}

-- The number of writes that the store still takes.
abbrev spend : ℕ → ℕ × Result StoreError (Unit {0})
spend n = if n == 0 then (n, err (storage_failure (bytes "flash"))) else (0, ok tt)

abbrev worn : Store ℕ
worn = record {
  save = λ c b n. spend n;
  save_audio_profiles = λ p b n. spend n;
  save_configuration_and_profiles = λ c p b n. spend n;
}

abbrev debug : ConfigError → Text
debug e = bytes "error"

abbrev debug_profiles : AudioProfileError → Text
debug_profiles e = bytes "error"

abbrev device : ApiState ℕ ℕ
device = record {
  mode = provisioned;
  board = old_board;
  config = config;
  audio_profiles = Profiles.empty old_board;
  store = 1;
  stream = none;
  codec = some (record { bus = []; audio = config.audio; passthrough = none });
  analog_passthrough = record { active = false; fault = none };
  random = 0;
}

-- The second input line of the codec does not answer.
abbrev answer : Bus → ℕ → ℕ → Result Text (Unit {0})
answer bus register value = if value == 9 then err (bytes "no ack") else ok tt

abbrev shown : Text → Text
shown text = text

abbrev no_verifier : Option (Text → ℕ → TransportKey → Result Text (Unit {0}))
no_verifier = none

abbrev draw : ℕ → ℕ → List ℕ × ℕ
draw n r = (replicate n 7, r + 1)

abbrev line1 : AudioSettings
line1 = record { input_line = 1; input_gain = 10; adc_attenuation_db = 0 }

abbrev requests : List SettingsRequest
requests =
    name (bytes "Deck")
    ∷ output true
    ∷ audio line1
    ∷ activate
    ∷ wifi (bytes "other") [] [] none none
    ∷ []

catalog_valid : Profiles.validate untrimmed (Profiles.empty old_board) old_board ≡ ok tt
unfolding Profiles.validate Profiles.empty
catalog_valid = refl

serve_all-IsHeld_example : IsHeld worn debug debug_profiles untrimmed (
    serve_all worn debug debug_profiles untrimmed answer shown shown no_verifier draw requests
      device)
unfolding config_write
serve_all-IsHeld_example =
    serve_all-IsHeld worn debug debug_profiles untrimmed answer shown shown no_verifier draw
      requests device (config_valid, catalog_valid)

serve_all-IsCoherent_example : IsCoherent (
    serve_all worn debug debug_profiles untrimmed answer shown shown no_verifier draw requests
      device)
serve_all-IsCoherent_example =
    serve_all-IsCoherent worn debug debug_profiles untrimmed answer shown shown no_verifier draw
      requests device (refl, refl)

update_configuration-IsLanded_example :
    let out = update_configuration worn debug device (name_change untrimmed (bytes "Deck")) in
    IsLanded worn debug persist device (name_change untrimmed (bytes "Deck") config) out.0 out.1
unfolding config_write
update_configuration-IsLanded_example =
    update_configuration-IsLanded worn debug device (name_change untrimmed (bytes "Deck"))
