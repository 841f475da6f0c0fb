-- ===== src/Writes/Audio.antt =====
-- The audio settings and the audio profiles, and the local analog output
-- (firmware/streamline/src/adapters/http/handlers/audio.rs, analog_passthrough.rs): the handlers that touch
-- the codec.
use esp32_streamline.Prelude.{
  ℕ, Bool, true, false, Option, none, some, Result, ok, err, ◌++◌, ◌&&◌, not, map_err,
  if◌then◌else◌, and_then,
}
use esp32_streamline.Prelude.Bytes.{Text, bytes}
use esp32_streamline.Board.{Board}
use esp32_streamline.Config.{RuntimeConfig, ConfigError, AudioSettings, validate_audio}
use esp32_streamline.Profiles.{
  AudioProfileCatalog, AudioProfileError, activate, reconcile_active_audio, has_id,
}
use esp32_streamline.Profiles as Profiles
use esp32_streamline.Stream.Status.{StreamStatus, request_relearn, set_streaming_enabled}
use esp32_streamline.Mutation.{MutationError, invalid_input, internal, message}
use esp32_streamline.Codec.{Bus}
use esp32_streamline.Codec.Control.{
  CodecControl, AudioChangeError, enable, disable, passthrough_active,
}
use esp32_streamline.Codec.Control as Control
use esp32_streamline.Codec.Passthrough.{
  AnalogPassthroughState, AnalogPassthroughError, unsupported, control, record_fault,
}
use esp32_streamline.Writes.{
  ApiState, Store, Written, write_configuration_and_profiles, save_audio_profiles, giving,
  invalid_catalog, unless_invalid,
}

abbrev map_stream : (StreamStatus → StreamStatus) → Option StreamStatus → Option StreamStatus
map_stream f none = none
map_stream f (some stream) = some (f stream)

-- The detector is asked to learn again, and the codec is the one after the change.
abbrev pub with_codec : {S R : Type 0} → CodecControl → ApiState S R → ApiState S R
with_codec c s = record s { codec = some c; stream = map_stream request_relearn s.stream }

-- The observed route after a change that failed.
unfoldable pub observed :
    AnalogPassthroughState → CodecControl → MutationError → AnalogPassthroughState
unfolding record_fault message passthrough_active
observed p c cause =
    if p.active && not (passthrough_active c) then record_fault (message cause) p else p

unfoldable pub passthrough_text : AnalogPassthroughError → Text
passthrough_text unsupported = bytes "local analog output is not supported by this board"
passthrough_text (control error) = bytes "local analog output control failed: " ++ error

abbrev still_defined : AudioProfileCatalog → Option Text → Option Text
still_defined catalog active =
    and_then active (λ id. if has_id id catalog.profiles then some id else none)

-- The definitions are checked without an active profile.
pub checked_catalog :
    (AudioProfileError → Text)
    → (Text → Text)
    → Board
    → AudioProfileCatalog
    → Result MutationError (Unit {0})
unfolding Profiles.validate invalid_catalog
checked_catalog debug_profiles trim board catalog =
    map_err (invalid_catalog debug_profiles)
      (Profiles.validate trim (record catalog { active_profile_id = none }) board)

-- The catalog with the profile that was active, if it still says what the device has.
pub next_catalog : AudioProfileCatalog → Option Text → AudioSettings → AudioProfileCatalog
unfolding reconcile_active_audio
next_catalog catalog active audio =
    reconcile_active_audio (record catalog { active_profile_id = still_defined catalog active })
      audio

module _ {S R E : Type 0} (store : Store S) (debug : ConfigError → Text)
    (debug_profiles : AudioProfileError → Text) (trim : Text → Text)
    (answer : Bus → ℕ → ℕ → Result E (Unit {0})) (shown : E → Text) where
  abbrev pub write_both :
      RuntimeConfig → AudioProfileCatalog → ApiState S R → Written S R (Unit {0})
  write_both config catalog s =
      write_configuration_and_profiles store debug debug_profiles trim s config catalog

  unfoldable pub failed_change :
      ApiState S R → CodecControl → MutationError → Option Text → Written S R Bool
  unfolding observed set_streaming_enabled message
  failed_change s c cause none =
      (record s { analog_passthrough = observed s.analog_passthrough c cause }, err cause)
  failed_change s c cause (some rollback) = (
    record s {
      analog_passthrough = observed s.analog_passthrough c cause;
      stream = map_stream (λ stream. set_streaming_enabled stream false) s.stream;
    },
    err (internal (message cause ++ bytes "; " ++ rollback)),
  )

  -- The detector learns its level again, whatever came of the change.
  unfoldable pub changed :
      ApiState S R → CodecControl → Result AudioChangeError (Unit {0}) → Written S R Bool
  unfolding failed_change request_relearn
  changed s c (ok _) = (with_codec c s, ok true)
  changed s c (err e) = failed_change (with_codec c s) c e.cause e.rollback_error

  unfoldable pub change_with :
      Option CodecControl → ApiState S R → RuntimeConfig → AudioProfileCatalog → Written S R Bool
  unfolding changed write_configuration_and_profiles
  change_with none s config catalog =
      let (s', result) = write_both config catalog s in (s', giving false result)
  change_with (some c) s config catalog =
      let (c', s', result) =
        Control.change_audio answer shown (write_both config catalog) config.audio c s in
      changed s' c' result

  unfoldable pub change_audio :
      ApiState S R → RuntimeConfig → AudioProfileCatalog → Written S R Bool
  unfolding change_with
  change_audio s config catalog = change_with s.codec s config catalog

  abbrev pub with_audio : ApiState S R → Result ConfigError AudioSettings → Written S R Bool
  with_audio s (err e) = (s, err (invalid_input (bytes "invalid audio settings: " ++ debug e)))
  with_audio s (ok audio) =
      change_audio s (record (s.config) { audio = audio })
        (record (s.audio_profiles) { active_profile_id = none })

  unfoldable pub set_audio : ApiState S R → AudioSettings → Written S R Bool
  unfolding change_audio validate_audio
  set_audio s audio = with_audio s (validate_audio audio s.board)

  -- The profile's settings, where it has a set; else the catalog alone.
  abbrev pub activated :
      ApiState S R
      → AudioProfileCatalog
      → Result AudioProfileError (Option AudioSettings)
      → Written S R Bool
  activated s catalog (err e) =
      (s, err (invalid_input (bytes "invalid active audio profile: " ++ debug_profiles e)))
  activated s catalog (ok (some audio)) =
      change_audio s (record (s.config) { audio = audio }) catalog
  activated s catalog (ok none) =
      let (s', result) = save_audio_profiles store debug debug_profiles trim s catalog in
      (s', giving true result)

  unfoldable pub set_audio_profile : ApiState S R → Text → Written S R Bool
  unfolding change_audio activate save_audio_profiles
  set_audio_profile s id =
      let (catalog, result) = activate s.audio_profiles (some id) in activated s catalog result

  -- `catalog` is what serde reads from the form.
  unfoldable pub set_audio_profiles : ApiState S R → AudioProfileCatalog → Written S R (Unit {0})
  unfolding save_audio_profiles checked_catalog next_catalog
  set_audio_profiles s catalog =
      unless_invalid s (checked_catalog debug_profiles trim s.board catalog) (
        save_audio_profiles store debug debug_profiles trim s
          (next_catalog catalog s.audio_profiles.active_profile_id s.config.audio))
