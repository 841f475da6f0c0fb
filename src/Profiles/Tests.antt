-- ===== src/Profiles/Tests.antt =====
-- A catalog with two profiles, one of them activated.
use esp32_streamline.Board.{has_line, accepts_line}
use esp32_streamline.Prelude.{◌≡◌, ◌⊎◌, refl, none, some, err, ok, [], ◌∷◌}
use esp32_streamline.Prelude.Bytes.{Text, bytes}
use esp32_streamline.Board.Tests.{new_board}
use esp32_streamline.Config.{AudioSettings}
use esp32_streamline.Profiles.{
  AudioProfileCatalog, validate, activate, reconcile_active_audio, active_audio,
  unknown_active_profile,
}
use esp32_streamline.Profiles.Active.{activate-reconcile}

abbrev untrimmed : Text → Text
untrimmed text = text

abbrev quiet : AudioSettings
quiet = record { input_line = 1; input_gain = 0; adc_attenuation_db = 20 }

abbrev loud : AudioSettings
loud = record { input_line = 1; input_gain = 40; adc_attenuation_db = 0 }

abbrev catalog : AudioProfileCatalog
catalog = record {
  schema_version = 1;
  board_id = bytes "new";
  active_profile_id = none;
  profiles =
      record { id = bytes "quiet"; name = bytes "Quiet"; audio = quiet }
      ∷ record { id = bytes "loud"; name = bytes "Loud"; audio = loud }
      ∷ [];
}

catalog_valid : validate untrimmed catalog new_board ≡ ok tt
unfolding validate accepts_line has_line
catalog_valid = refl

activate-reconcile_example :
    let activated = (activate catalog (some (bytes "loud"))).0 in
    let reconciled = reconcile_active_audio activated quiet in
    (validate untrimmed activated new_board ≡ ok tt)
    × (((activate catalog (some (bytes "loud"))).1 ≡ err unknown_active_profile)
        ⊎ ((activate catalog (some (bytes "loud"))).1 ≡ ok (active_audio activated)))
    × (validate untrimmed reconciled new_board ≡ ok tt)
    × ((active_audio reconciled ≡ none) ⊎ (active_audio reconciled ≡ some quiet))
activate-reconcile_example =
    activate-reconcile untrimmed catalog new_board (some (bytes "loud")) quiet catalog_valid
