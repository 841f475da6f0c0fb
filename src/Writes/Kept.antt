-- ===== src/Writes/Kept.antt =====
-- Every request leaves the configuration, the codec and the observed output in agreement.
use esp32_streamline.Prelude.{
  ℕ, Bool, true, false, Option, none, some, Result, ok, err, ◌≡◌, refl, ◌∙◌, Option-cases,
  Bool-cases, inl, inr, List, [], ◌∷◌, ◌&&◌, is_none,
}
use mathlib.Core.Path.{subst}
use esp32_streamline.Prelude.Bytes.{Text}
use esp32_streamline.Config.{
  RuntimeConfig, ConfigError, AudioSettings, validate_audio, update_target,
}
use esp32_streamline.Profiles.{AudioProfileCatalog, AudioProfileError, activate}
use esp32_streamline.Transport.Keys.{TransportKey, TransportKeys, TransportError}
use esp32_streamline.Transport.Keys as Keys
use esp32_streamline.Transport.Settings.{
  tls_psk, cleartext, TransportMode, TransportSettings, VerifyPendingError,
}
use esp32_streamline.Mutation.{MutationError}
use esp32_streamline.Mode.{replace_wifi}
use esp32_streamline.Codec.{Bus, describe}
use esp32_streamline.Codec.Control.{CodecControl}
use esp32_streamline.Codec.Agree.{reconcile-IsFollowed}
use esp32_streamline.Writes.{
  persist_configuration, ApiState, Store, Written, update_configuration, save_audio_profiles,
  unless_invalid,
}
use esp32_streamline.Writes.Handlers.{
  Change, target_change, name_change, admin_key_change, firmware_change, led_change, button_change,
  change_transport, checked_transport, stage_change, verify_change, verified, activate_change,
  discard_change, rollback_change, retire_change, recover_change, keyed, with_keys, in_mode,
  set_wifi, set_target, set_name, set_admin_key, set_firmware, set_led, set_button, set_transport,
  mutate_keys, stage_key, verify_key, activate_key, discard_key, rollback_key, retire_key,
  recover_key, unless,
}
use esp32_streamline.Writes.Audio.{
  set_audio, set_audio_profile, set_audio_profiles, change_audio, with_audio, activated,
  checked_catalog, next_catalog,
}
use esp32_streamline.Writes.Output.{
  set_analog_passthrough, set_stream, enable_output, route_of, without_codec, reconciled_with,
  then_reconciled,
}
use esp32_streamline.Writes.Requests
use esp32_streamline.Writes.Requests.{SettingsRequest, serve, serve_all}
use esp32_streamline.Writes.Aside.{
  Agrees, IsCoherent, Aside-Coherent, KeepsAudio, persist_configuration-Aside,
  update_configuration-Aside, save_audio_profiles-Aside,
}
use esp32_streamline.Writes.Coherent.{change_with-Coherent}

keyed-Keeps :
    {T : Type 0} (c next : RuntimeConfig) (keys : TransportKeys) (result : Result TransportError T)
    → next.audio ≡ c.audio
    → KeepsAudio c (keyed next keys result)
unfolding with_keys
keyed-Keeps c next keys (ok _) same = same
keyed-Keeps c next keys (err _) same = tt

checked_transport-Keeps :
    (c : RuntimeConfig) (previous next : TransportSettings)
    (result : Result TransportError (Unit {0}))
    → KeepsAudio c (checked_transport previous (record c { transport = next }) result)
checked_transport-Keeps c previous next (ok _) = refl
checked_transport-Keeps c previous next (err _) = tt

change_transport-Keeps :
    (version : ℕ) (mode : TransportMode) (c : RuntimeConfig)
    → KeepsAudio c (change_transport version mode c)
unfolding change_transport
change_transport-Keeps version mode c = checked_transport-Keeps c c.transport _ _

verified-Keeps :
    (c : RuntimeConfig) (transport : TransportSettings)
    (result : Result VerifyPendingError (Unit {0}))
    → KeepsAudio c (verified c transport result)
verified-Keeps c transport (ok _) = refl
verified-Keeps c transport (err _) = tt

module _ {S R E : Type 0} (store : Store S) (debug : ConfigError → Text)
    (debug_profiles : AudioProfileError → Text) (trim : Text → Text)
    (answer : Bus → ℕ → ℕ → Result E (Unit {0})) (shown brief : E → Text)
    (verifier : Option (Text → ℕ → TransportKey → Result Text (Unit {0})))
    (fill : ℕ → R → List ℕ × R) where
  update-Coherent :
      {T : Type 0} (s : ApiState S R) (change : Change T)
      → KeepsAudio s.config (change s.config)
      → IsCoherent s
      → IsCoherent (update_configuration store debug s change).0
  update-Coherent s change keeps coherent =
      Aside-Coherent s (update_configuration store debug s change).0
        (update_configuration-Aside store debug s change keeps) coherent

  unless-Coherent :
      {T : Type 0} (s : ApiState S R) (check : Result MutationError (Unit {0}))
      (written : Written S R T)
      → IsCoherent s
      → IsCoherent written.0
      → IsCoherent (unless store debug trim s check written).0
  unless-Coherent s (ok _) written coherent after = after
  unless-Coherent s (err _) written coherent after = coherent

  mutate_keys-Coherent :
      {T : Type 0} (s : ApiState S R) (change : Change T)
      → KeepsAudio s.config (change s.config)
      → IsCoherent s
      → IsCoherent (mutate_keys store debug trim s change).0
  unfolding mutate_keys
  mutate_keys-Coherent s change keeps coherent =
      unless-Coherent s _ _ coherent (update-Coherent s change keeps coherent)

  change_audio-Coherent :
      (s : ApiState S R) (config : RuntimeConfig) (catalog : AudioProfileCatalog)
      → IsCoherent s
      → IsCoherent (change_audio store debug debug_profiles trim answer shown s config catalog).0
  unfolding change_audio
  change_audio-Coherent s config catalog coherent =
      change_with-Coherent store debug debug_profiles trim answer shown s.codec s config catalog
        refl coherent

  with_audio-Coherent :
      (s : ApiState S R) (audio : Result ConfigError AudioSettings)
      → IsCoherent s
      → IsCoherent (with_audio store debug debug_profiles trim answer shown s audio).0
  with_audio-Coherent s (err _) coherent = coherent
  with_audio-Coherent s (ok audio) coherent = change_audio-Coherent s _ _ coherent

  save-Coherent :
      (s : ApiState S R) (catalog : AudioProfileCatalog)
      → IsCoherent s
      → IsCoherent (save_audio_profiles store debug debug_profiles trim s catalog).0
  save-Coherent s catalog coherent =
      Aside-Coherent s (save_audio_profiles store debug debug_profiles trim s catalog).0
        (save_audio_profiles-Aside store debug debug_profiles trim s catalog) coherent

  activated-Coherent :
      (s : ApiState S R) (catalog : AudioProfileCatalog)
      (result : Result AudioProfileError (Option AudioSettings))
      → IsCoherent s
      → IsCoherent (activated store debug debug_profiles trim answer shown s catalog result).0
  activated-Coherent s catalog (err _) coherent = coherent
  activated-Coherent s catalog (ok (some audio)) coherent =
      change_audio-Coherent s _ catalog coherent
  activated-Coherent s catalog (ok none) coherent = save-Coherent s catalog coherent

  profiles-Coherent :
      (s : ApiState S R) (check : Result MutationError (Unit {0})) (catalog : AudioProfileCatalog)
      → IsCoherent s
      → IsCoherent
          (unless_invalid s check (save_audio_profiles store debug debug_profiles trim s catalog)).0
  profiles-Coherent s (ok _) catalog coherent = save-Coherent s catalog coherent
  profiles-Coherent s (err _) catalog coherent = coherent

  reconciled_with-Coherent :
      (codec : Option CodecControl) (s : ApiState S R) (enabled : Bool) (input_line : ℕ)
      → s.codec ≡ codec
      → IsCoherent s
      → IsCoherent (reconciled_with store debug answer brief codec s enabled input_line).0
  unfolding reconciled_with without_codec
  reconciled_with-Coherent none s true input_line same coherent = rw same tt
  reconciled_with-Coherent none s false input_line same coherent = rw same tt
  reconciled_with-Coherent (some c) s enabled input_line same coherent =
      let agrees =
        subst (λ codec. Agrees codec s.config.audio s.analog_passthrough) same coherent in
      let followed =
        reconcile-IsFollowed answer (describe brief) enabled
          (route_of s.board.analog_passthrough input_line) s.analog_passthrough c agrees.1 in
      (followed.1 ∙ agrees.0, followed.0)

  then_reconciled-Coherent :
      (s : ApiState S R) (enabled : Bool) (input_line : Result MutationError ℕ)
      → IsCoherent s
      → IsCoherent (then_reconciled store debug answer brief s enabled input_line).0
  unfolding then_reconciled
  then_reconciled-Coherent s enabled (err _) coherent = coherent
  then_reconciled-Coherent s enabled (ok line) coherent =
      reconciled_with-Coherent s.codec s enabled line refl coherent

  output-Coherent :
      (s : ApiState S R) (enabled : Bool)
      → IsCoherent s
      → IsCoherent (set_analog_passthrough store debug answer brief s enabled).0
  unfolding set_analog_passthrough
  output-Coherent s enabled coherent =
      elim (Bool-cases (enabled && is_none s.board.analog_passthrough)) [
        | inl refused ↦ rw refused coherent
        | inr passes ↦
            let (s', line) = update_configuration store debug s (enable_output enabled) in
            rw passes (
              then_reconciled-Coherent s' enabled line
                (update-Coherent s (enable_output enabled) refl coherent))
      ]

  stream-Coherent :
      (s : ApiState S R) (enabled : Bool) → IsCoherent s → IsCoherent (set_stream s enabled).0
  unfolding set_stream
  stream-Coherent s enabled coherent = elim (Option-cases s.stream) [
    | inl absent ↦ rw absent coherent
    | inr (stream, present) ↦ rw present coherent
  ]

  verify-Coherent :
      (verifier : Option (Text → ℕ → TransportKey → Result Text (Unit {0}))) (s : ApiState S R)
      → IsCoherent s
      → IsCoherent (verify_key store debug trim verifier s).0
  unfolding verify_key verify_change
  verify-Coherent none s coherent = coherent
  verify-Coherent (some verify) s coherent =
      mutate_keys-Coherent s (verify_change verify) (verified-Keeps s.config _ _) coherent

  serve-Coherent :
      (request : SettingsRequest) (s : ApiState S R)
      → IsCoherent s
      → IsCoherent
          (serve store debug debug_profiles trim answer shown brief verifier fill request s)
  unfolding serve set_wifi replace_wifi update_target set_target set_name set_admin_key set_firmware
      set_led set_button set_transport stage_key activate_key discard_key rollback_key retire_key
      recover_key set_audio set_audio_profile set_audio_profiles target_change name_change
      admin_key_change firmware_change led_change button_change activate_change discard_change
      rollback_change retire_change stage_change recover_change in_mode
  serve-Coherent (Requests.wifi ssid password key host port) s coherent =
      let next = replace_wifi trim s.config ssid password key host port in
      Aside-Coherent s (persist_configuration store debug s next).0
        (persist_configuration-Aside store debug s next refl) coherent
  serve-Coherent (Requests.target host port) s coherent =
      update-Coherent s (target_change trim host port) refl coherent
  serve-Coherent (Requests.name text) s coherent =
      update-Coherent s (name_change trim text) refl coherent
  serve-Coherent (Requests.admin_key key) s coherent =
      unless-Coherent s _ _ coherent (update-Coherent s (admin_key_change key) refl coherent)
  serve-Coherent (Requests.firmware schedule) s coherent =
      update-Coherent s (firmware_change schedule) refl coherent
  serve-Coherent (Requests.led id role) s coherent =
      unless-Coherent s _ _ coherent (update-Coherent s (led_change id role) refl coherent)
  serve-Coherent (Requests.button id act) s coherent =
      unless-Coherent s _ _ coherent (update-Coherent s (button_change id act) refl coherent)
  serve-Coherent (Requests.transport version mode) s coherent =
      update-Coherent s (change_transport version mode)
        (change_transport-Keeps version mode s.config) coherent
  serve-Coherent Requests.stage s coherent =
      let (keys, random, result) = Keys.stage fill s.config.transport.keys s.random in
      unless-Coherent s _ _ coherent (
        mutate_keys-Coherent (record s { random = random }) (stage_change keys result)
          (keyed-Keeps s.config s.config keys result refl) coherent)
  serve-Coherent Requests.verify s coherent = verify-Coherent verifier s coherent
  serve-Coherent Requests.activate s coherent =
      let (keys, result) = Keys.activate s.config.transport.keys in
      mutate_keys-Coherent s activate_change
        (keyed-Keeps s.config (in_mode s.config tls_psk) keys result refl) coherent
  serve-Coherent Requests.discard s coherent =
      let (keys, result) = Keys.discard_pending s.config.transport.keys in
      mutate_keys-Coherent s discard_change (keyed-Keeps s.config s.config keys result refl)
        coherent
  serve-Coherent Requests.rollback s coherent =
      let (keys, result) = Keys.rollback_key s.config.transport.keys in
      mutate_keys-Coherent s rollback_change (keyed-Keeps s.config s.config keys result refl)
        coherent
  serve-Coherent Requests.retire s coherent =
      let (keys, result) = Keys.retire_rollback s.config.transport.keys in
      mutate_keys-Coherent s retire_change (keyed-Keeps s.config s.config keys result refl) coherent
  serve-Coherent Requests.recover s coherent =
      let (keys, random, result) = Keys.recover fill s.config.transport.keys s.random in
      let next = in_mode s.config cleartext in
      unless-Coherent s _ _ coherent (
        mutate_keys-Coherent (record s { random = random }) (recover_change keys result)
          (keyed-Keeps s.config next keys result refl) coherent)
  serve-Coherent (Requests.audio settings) s coherent =
      with_audio-Coherent s (validate_audio settings s.board) coherent
  serve-Coherent (Requests.profile id) s coherent =
      let (catalog, result) = activate s.audio_profiles (some id) in
      activated-Coherent s catalog result coherent
  serve-Coherent (Requests.profiles catalog) s coherent =
      let next = next_catalog catalog s.audio_profiles.active_profile_id s.config.audio in
      profiles-Coherent s (checked_catalog debug_profiles trim s.board catalog) next coherent
  serve-Coherent (Requests.output enabled) s coherent = output-Coherent s enabled coherent
  serve-Coherent (Requests.stream enabled) s coherent = stream-Coherent s enabled coherent

  -- Over any requests for the settings, the transport keys, the LEDs and buttons, the audio, the local output and
  -- the stream, served one after the other with any answers of the store, the bus and the verifier, where the
  -- device has a codec: if its control has the settings of the configuration in memory, and the observed state is
  -- active exactly when the control has a route, both are still so. (No board is selected meanwhile: that puts
  -- into memory what the next boot will apply.)
  pub serve_all-IsCoherent :
      (requests : List SettingsRequest) (s : ApiState S R)
      → IsCoherent s
      → IsCoherent
          (serve_all store debug debug_profiles trim answer shown brief verifier fill requests s)
  unfolding serve_all
  serve_all-IsCoherent [] s coherent = coherent
  serve_all-IsCoherent (request ∷ requests) s coherent =
      serve_all-IsCoherent requests _ (serve-Coherent request s coherent)
