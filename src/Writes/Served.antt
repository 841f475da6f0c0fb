-- ===== src/Writes/Served.antt =====
-- Every request keeps the memory sound, whatever the store, the codec and the generator answer.
use esp32_streamline.Prelude.{
  ℕ, Bool, true, false, Option, none, some, Result, ok, err, ap, Option-cases, Bool-cases, inl, inr,
  List, [], ◌∷◌, ◌&&◌, is_none,
}
use mathlib.Core.Path.{subst}
use esp32_streamline.Prelude.Bytes.{Text}
use esp32_streamline.Config.{RuntimeConfig, ConfigError, AudioSettings, validate_audio}
use esp32_streamline.Profiles.{AudioProfileCatalog, AudioProfileError, activate}
use esp32_streamline.Transport.Keys.{TransportKey}
use esp32_streamline.Mutation.{MutationError}
use esp32_streamline.Codec.{Bus}
use esp32_streamline.Codec.Control.{CodecControl, AudioChangeError}
use esp32_streamline.Codec.Control as Control
use esp32_streamline.Codec.Change.{IsRecorded, change_audio-IsRecorded}
use esp32_streamline.Writes.{ApiState, Store, Written, update_configuration, save_audio_profiles}
use esp32_streamline.Transport.Keys as Keys
use esp32_streamline.Mode.{replace_wifi}
use esp32_streamline.Writes.Handlers.{
  Change, target_change, name_change, admin_key_change, firmware_change, led_change, button_change,
  change_transport, stage_change, verify_change, activate_change, discard_change, rollback_change,
  retire_change, recover_change, set_wifi, set_target, set_name, set_admin_key, set_firmware,
  set_led, set_button, set_transport, mutate_keys, stage_key, verify_key, activate_key, discard_key,
  rollback_key, retire_key, recover_key, unless,
}
use esp32_streamline.Writes.Audio.{
  checked_catalog, next_catalog, with_codec, set_audio, set_audio_profile, set_audio_profiles,
  change_audio, change_with, changed, failed_change, write_both, with_audio, activated,
}
use esp32_streamline.Writes.Output.{
  enable_output, set_analog_passthrough, set_stream, without_codec, reconciled_with,
  then_reconciled,
}
use esp32_streamline.Writes.Requests
use esp32_streamline.Writes.Requests.{SettingsRequest, serve, serve_all}
use esp32_streamline.Writes.Accepted.{
  IsSound, IsHeld, held, holds, persist_configuration-Sound, update_configuration-Sound,
  save_audio_profiles-Sound, write_configuration_and_profiles-Sound, unless_invalid-Sound,
}

module _ {S R E : Type 0} (store : Store S) (debug : ConfigError → Text)
    (debug_profiles : AudioProfileError → Text) (trim : Text → Text)
    (answer : Bus → ℕ → ℕ → Result E (Unit {0})) (shown brief : E → Text)
    (verifier : Option (Text → ℕ → TransportKey → Result Text (Unit {0})))
    (fill : ℕ → R → List ℕ × R) where
  abbrev Sound : ApiState S R → Type 0
  Sound = IsSound store debug debug_profiles trim

  unless-Sound :
      {T : Type 0} (s : ApiState S R) (check : Result MutationError (Unit {0}))
      (written : Written S R T)
      → Sound s
      → Sound written.0
      → Sound (unless store debug trim s check written).0
  unless-Sound s (ok _) written sound after = after
  unless-Sound s (err _) written sound after = sound

  update-Sound :
      {T : Type 0} (s : ApiState S R) (change : Change T)
      → Sound s
      → Sound (update_configuration store debug s change).0
  update-Sound = update_configuration-Sound store debug debug_profiles trim

  mutate_keys-Sound :
      {T : Type 0} (s : ApiState S R)
      (change : RuntimeConfig → Result MutationError (RuntimeConfig × T))
      → Sound s
      → Sound (mutate_keys store debug trim s change).0
  unfolding mutate_keys
  mutate_keys-Sound s change sound =
      unless-Sound s _ _ sound
        (update_configuration-Sound store debug debug_profiles trim s change sound)

  failed_change-Sound :
      (s : ApiState S R) (c : CodecControl) (cause : MutationError) (rollback : Option Text)
      → Sound s
      → Sound (failed_change store debug debug_profiles trim answer shown s c cause rollback).0
  unfolding failed_change
  failed_change-Sound s c cause none sound = sound
  failed_change-Sound s c cause (some _) sound = sound

  changed-Sound :
      (s : ApiState S R) (c : CodecControl) (result : Result AudioChangeError (Unit {0}))
      → Sound s
      → Sound (changed store debug debug_profiles trim answer shown s c result).0
  unfolding changed
  changed-Sound s c (ok _) sound = sound
  changed-Sound s c (err e) sound =
      failed_change-Sound (with_codec c s) c e.cause e.rollback_error sound

  -- The commit of a change is the write of both records.
  world-Sound :
      (s s' : ApiState S R) (config : RuntimeConfig) (catalog : AudioProfileCatalog)
      (result : Result AudioChangeError (Unit {0}))
      → Sound s
      → IsRecorded
          (write_both store debug debug_profiles trim answer shown config catalog)
          s
          s'
          result
      → Sound s'
  world-Sound s s' config catalog (ok _) sound ran = subst Sound (ap (λ w. w.0) ran) (
      write_configuration_and_profiles-Sound store debug debug_profiles trim s config catalog sound)
  world-Sound s s' config catalog (err e) sound (inl same) = rw same sound
  world-Sound s s' config catalog (err e) sound (inr ran) = subst Sound (ap (λ w. w.0) ran) (
      write_configuration_and_profiles-Sound store debug debug_profiles trim s config catalog sound)

  change_with-Sound :
      (codec : Option CodecControl) (s : ApiState S R) (config : RuntimeConfig)
      (catalog : AudioProfileCatalog)
      → Sound s
      → Sound (change_with store debug debug_profiles trim answer shown codec s config catalog).0
  unfolding change_with
  change_with-Sound none s config catalog sound =
      write_configuration_and_profiles-Sound store debug debug_profiles trim s config catalog sound
  change_with-Sound (some c) s config catalog sound =
      let commit = write_both store debug debug_profiles trim answer shown config catalog in
      let (c', s', result) = Control.change_audio answer shown commit config.audio c s in
      changed-Sound s' c' result (
        world-Sound s s' config catalog result sound
          (change_audio-IsRecorded answer shown commit config.audio c s))

  change_audio-Sound :
      (s : ApiState S R) (config : RuntimeConfig) (catalog : AudioProfileCatalog)
      → Sound s
      → Sound (change_audio store debug debug_profiles trim answer shown s config catalog).0
  unfolding change_audio
  change_audio-Sound s config catalog sound = change_with-Sound s.codec s config catalog sound

  with_audio-Sound :
      (s : ApiState S R) (audio : Result ConfigError AudioSettings)
      → Sound s
      → Sound (with_audio store debug debug_profiles trim answer shown s audio).0
  with_audio-Sound s (err _) sound = sound
  with_audio-Sound s (ok audio) sound = change_audio-Sound s _ _ sound

  activated-Sound :
      (s : ApiState S R) (catalog : AudioProfileCatalog)
      (result : Result AudioProfileError (Option AudioSettings))
      → Sound s
      → Sound (activated store debug debug_profiles trim answer shown s catalog result).0
  activated-Sound s catalog (err _) sound = sound
  activated-Sound s catalog (ok (some audio)) sound = change_audio-Sound s _ catalog sound
  activated-Sound s catalog (ok none) sound =
      save_audio_profiles-Sound store debug debug_profiles trim s catalog sound

  reconciled_with-Sound :
      (codec : Option CodecControl) (s : ApiState S R) (enabled : Bool) (input_line : ℕ)
      → Sound s
      → Sound (reconciled_with store debug answer brief codec s enabled input_line).0
  unfolding reconciled_with without_codec
  reconciled_with-Sound none s true input_line sound = sound
  reconciled_with-Sound none s false input_line sound = sound
  reconciled_with-Sound (some c) s enabled input_line sound = sound

  then_reconciled-Sound :
      (s : ApiState S R) (enabled : Bool) (input_line : Result MutationError ℕ)
      → Sound s
      → Sound (then_reconciled store debug answer brief s enabled input_line).0
  unfolding then_reconciled
  then_reconciled-Sound s enabled (err _) sound = sound
  then_reconciled-Sound s enabled (ok line) sound =
      reconciled_with-Sound s.codec s enabled line sound

  output-Sound :
      (s : ApiState S R) (enabled : Bool)
      → Sound s
      → Sound (set_analog_passthrough store debug answer brief s enabled).0
  unfolding set_analog_passthrough
  output-Sound s enabled sound = elim (Bool-cases (enabled && is_none s.board.analog_passthrough)) [
    | inl refused ↦ rw refused sound
    | inr passes ↦
        let (s', line) = update_configuration store debug s (enable_output enabled) in
        rw passes (
          then_reconciled-Sound s' enabled line (
            update_configuration-Sound store debug debug_profiles trim s (enable_output enabled)
              sound))
  ]

  stream-Sound : (s : ApiState S R) (enabled : Bool) → Sound s → Sound (set_stream s enabled).0
  unfolding set_stream
  stream-Sound s enabled sound = elim (Option-cases s.stream) [
    | inl absent ↦ rw absent sound
    | inr (stream, present) ↦ rw present sound
  ]

  verify-Sound :
      (verifier : Option (Text → ℕ → TransportKey → Result Text (Unit {0}))) (s : ApiState S R)
      → Sound s
      → Sound (verify_key store debug trim verifier s).0
  unfolding verify_key
  verify-Sound none s sound = sound
  verify-Sound (some verify) s sound = mutate_keys-Sound s (verify_change verify) sound

  serve-Sound :
      (request : SettingsRequest) (s : ApiState S R)
      → Sound s
      → Sound (serve store debug debug_profiles trim answer shown brief verifier fill request s)
  unfolding serve set_wifi set_target set_name set_admin_key set_firmware set_led set_button
      set_transport stage_key activate_key discard_key rollback_key retire_key recover_key set_audio
      set_audio_profile set_audio_profiles
  serve-Sound (Requests.wifi ssid password key host port) s sound =
      persist_configuration-Sound store debug debug_profiles trim s
        (replace_wifi trim s.config ssid password key host port) sound
  serve-Sound (Requests.target host port) s sound =
      update-Sound s (target_change trim host port) sound
  serve-Sound (Requests.name text) s sound = update-Sound s (name_change trim text) sound
  serve-Sound (Requests.admin_key key) s sound =
      unless-Sound s _ _ sound (update-Sound s (admin_key_change key) sound)
  serve-Sound (Requests.firmware schedule) s sound = update-Sound s (firmware_change schedule) sound
  serve-Sound (Requests.led id role) s sound =
      unless-Sound s _ _ sound (update-Sound s (led_change id role) sound)
  serve-Sound (Requests.button id act) s sound =
      unless-Sound s _ _ sound (update-Sound s (button_change id act) sound)
  serve-Sound (Requests.transport version mode) s sound =
      update-Sound s (change_transport version mode) sound
  serve-Sound Requests.stage s sound =
      let (keys, random, result) = Keys.stage fill s.config.transport.keys s.random in
      unless-Sound s _ _ sound
        (mutate_keys-Sound (record s { random = random }) (stage_change keys result) sound)
  serve-Sound Requests.verify s sound = verify-Sound verifier s sound
  serve-Sound Requests.activate s sound = mutate_keys-Sound s activate_change sound
  serve-Sound Requests.discard s sound = mutate_keys-Sound s discard_change sound
  serve-Sound Requests.rollback s sound = mutate_keys-Sound s rollback_change sound
  serve-Sound Requests.retire s sound = mutate_keys-Sound s retire_change sound
  serve-Sound Requests.recover s sound =
      let (keys, random, result) = Keys.recover fill s.config.transport.keys s.random in
      unless-Sound s _ _ sound
        (mutate_keys-Sound (record s { random = random }) (recover_change keys result) sound)
  serve-Sound (Requests.audio settings) s sound =
      with_audio-Sound s (validate_audio settings s.board) sound
  serve-Sound (Requests.profile id) s sound =
      let (catalog, result) = activate s.audio_profiles (some id) in
      activated-Sound s catalog result sound
  serve-Sound (Requests.profiles catalog) s sound =
      let next = next_catalog catalog s.audio_profiles.active_profile_id s.config.audio in
      unless_invalid-Sound store debug debug_profiles trim s
        (checked_catalog debug_profiles trim s.board catalog)
        (save_audio_profiles store debug debug_profiles trim s next) sound
        (λ checked. save_audio_profiles-Sound store debug debug_profiles trim s next sound)
  serve-Sound (Requests.output enabled) s sound = output-Sound s enabled sound
  serve-Sound (Requests.stream enabled) s sound = stream-Sound s enabled sound

  serve_all-Sound :
      (requests : List SettingsRequest) (s : ApiState S R)
      → IsSound store debug debug_profiles trim s
      → IsSound store debug debug_profiles trim
          (serve_all store debug debug_profiles trim answer shown brief verifier fill requests s)
  unfolding serve_all
  serve_all-Sound [] s sound = sound
  serve_all-Sound (request ∷ requests) s sound =
      serve_all-Sound requests _ (serve-Sound request s sound)

  -- Over any requests for the settings, the transport keys, the LEDs and buttons, the audio, the local output and
  -- the stream, accepted or refused, whatever the store, the bus and the verifier answer: if the configuration in
  -- memory passes the validation of its mode (`validate_staged` in setup, `validate` otherwise) and the profile
  -- catalog is valid for the board, both are still so. (No board is selected meanwhile: that puts into memory
  -- what fits the board of the next boot.)
  pub serve_all-IsHeld :
      (requests : List SettingsRequest) (s : ApiState S R)
      → IsHeld store debug debug_profiles trim s
      → IsHeld store debug debug_profiles trim
          (serve_all store debug debug_profiles trim answer shown brief verifier fill requests s)
  serve_all-IsHeld requests s sound =
      let after =
        serve_all store debug debug_profiles trim answer shown brief verifier fill requests s in
      holds store debug debug_profiles trim after
        (serve_all-Sound requests s (held store debug debug_profiles trim s sound))
