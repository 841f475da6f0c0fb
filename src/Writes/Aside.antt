-- ===== src/Writes/Aside.antt =====
-- What the writes leave alone: the codec, the observed output, and the audio settings unless they are written.
use esp32_streamline.Prelude.{Option, none, some, Result, ok, err, ◌≡◌, refl, map_err, is_some}
use esp32_streamline.Prelude.Bytes.{Text}
use esp32_streamline.Config.{RuntimeConfig, ConfigError, validate, validate_staged, AudioSettings}
use esp32_streamline.Profiles.{AudioProfileCatalog, AudioProfileError, activate}
use esp32_streamline.Profiles as Profiles
use esp32_streamline.Mutation.{MutationError}
use esp32_streamline.Mode.{
  ConfigWrite, persist, stage, config_write, after_persist, commit_after_persist,
}
use esp32_streamline.Codec.Control.{CodecControl}
use esp32_streamline.Codec.Passthrough.{AnalogPassthroughState}
use esp32_streamline.Writes.{
  invalid_configuration, invalid_catalog, ApiState, Store, StoreError, Written, unless_invalid,
  persist_configuration, save_config, land, landed, update_configuration, holding,
  save_audio_profiles, land_both, write_configuration_and_profiles,
}

-- The codec has the settings of the configuration, and the observed output is the codec's.
abbrev pub Agrees : Option CodecControl → AudioSettings → AnalogPassthroughState → Type 0
Agrees none audio passthrough = Unit {0}
Agrees (some c) audio passthrough = (c.audio ≡ audio) × (passthrough.active ≡ is_some c.passthrough)

abbrev pub IsCoherent : {S R : Type 0} → ApiState S R → Type 0
IsCoherent s = Agrees s.codec s.config.audio s.analog_passthrough

-- What a write without the codec leaves alone.
abbrev IsAside : {S R : Type 0} → ApiState S R → ApiState S R → AudioSettings → Type 0
IsAside s s' audio =
    (s'.codec ≡ s.codec)
    × (s'.config.audio ≡ audio)
    × (s'.analog_passthrough ≡ s.analog_passthrough)

pub Aside-Coherent :
    {S R : Type 0} (s s' : ApiState S R)
    → IsAside s s' s.config.audio
    → IsCoherent s
    → IsCoherent s'
Aside-Coherent s s' aside coherent = rw (aside.0, aside.1, aside.2) coherent

-- A change that keeps the audio settings.
abbrev pub KeepsAudio :
    {T : Type 0} → RuntimeConfig → Result MutationError (RuntimeConfig × T) → Type 0
KeepsAudio c (err e) = Unit {0}
KeepsAudio c (ok (next, value)) = next.audio ≡ c.audio

module _ {S R : Type 0} (store : Store S) (debug : ConfigError → Text) where
  unless_invalid-Aside :
      (s : ApiState S R) (check : Result MutationError (Unit {0})) (write : Written S R (Unit {0}))
      (audio : AudioSettings)
      → s.config.audio ≡ audio
      → IsAside s write.0 audio
      → IsAside s (unless_invalid s check write).0 audio
  unless_invalid-Aside s (err e) write audio same aside = (refl, same, refl)
  unless_invalid-Aside s (ok _) write audio same aside = aside

  persisted-Aside :
      (s : ApiState S R) (next : RuntimeConfig) (disk : S)
      (result : Result MutationError (Unit {0}))
      → next.audio ≡ s.config.audio
      → let (disk', held, _) = after_persist s.config next disk result in
        IsAside s (record s { store = disk'; config = held }) s.config.audio
  persisted-Aside s next disk (ok _) same = (refl, same, refl)
  persisted-Aside s next disk (err _) same = (refl, refl, refl)

  pub persist_configuration-Aside :
      (s : ApiState S R) (next : RuntimeConfig)
      → next.audio ≡ s.config.audio
      → IsAside s (persist_configuration store debug s next).0 s.config.audio
  unfolding persist_configuration commit_after_persist
  persist_configuration-Aside s next same =
      let (disk, result) = save_config store next s.board s.store in
      unless_invalid-Aside s _ _ s.config.audio refl (persisted-Aside s next disk result same)

  land-Aside :
      (w : ConfigWrite) (s : ApiState S R) (next : RuntimeConfig)
      → next.audio ≡ s.config.audio
      → IsAside s (land store debug w s next).0 s.config.audio
  unfolding land
  land-Aside persist s next same = persist_configuration-Aside s next same
  land-Aside stage s next same = unless_invalid-Aside s _ _ s.config.audio refl (refl, same, refl)

  landed-Aside :
      {T : Type 0} (s : ApiState S R) (change : Result MutationError (RuntimeConfig × T))
      → KeepsAudio s.config change
      → IsAside s (landed store debug s change).0 s.config.audio
  unfolding landed
  landed-Aside s (err e) keeps = (refl, refl, refl)
  landed-Aside s (ok (next, value)) keeps = land-Aside (config_write s.mode) s next keeps

  pub update_configuration-Aside :
      {T : Type 0} (s : ApiState S R)
      (change : RuntimeConfig → Result MutationError (RuntimeConfig × T))
      → KeepsAudio s.config (change s.config)
      → IsAside s (update_configuration store debug s change).0 s.config.audio
  unfolding update_configuration
  update_configuration-Aside s change keeps = landed-Aside s (change s.config) keeps

  module _ (debug_profiles : AudioProfileError → Text) (trim : Text → Text) where
    -- A write of both records changes the configuration exactly where it succeeds.
    abbrev pub IsBoth :
        ApiState S R → RuntimeConfig → ApiState S R → Result MutationError (Unit {0}) → Type 0
    IsBoth s config s' (ok _) = IsAside s s' config.audio
    IsBoth s config s' (err _) = IsAside s s' s.config.audio

    unless_invalid-Both :
        (s : ApiState S R) (config : RuntimeConfig) (check : Result MutationError (Unit {0}))
        (write : Written S R (Unit {0}))
        → IsBoth s config write.0 write.1
        → IsBoth s config (unless_invalid s check write).0 (unless_invalid s check write).1
    unless_invalid-Both s config (err e) write both = (refl, refl, refl)
    unless_invalid-Both s config (ok _) write both = both

    holding-Both :
        (s : ApiState S R) (config : RuntimeConfig) (catalog : AudioProfileCatalog)
        (result : S × Result StoreError (Unit {0}))
        → let out = holding store debug debug_profiles trim s config catalog result in
          IsBoth s config out.0 out.1
    holding-Both s config catalog (disk, ok _) = (refl, refl, refl)
    holding-Both s config catalog (disk, err _) = (refl, refl, refl)

    land_both-Both :
        (w : ConfigWrite) (s : ApiState S R) (config : RuntimeConfig)
        (catalog : AudioProfileCatalog)
        → let out = land_both store debug debug_profiles trim w s config catalog in
          IsBoth s config out.0 out.1
    unfolding land_both
    land_both-Both persist s config catalog =
        unless_invalid-Both s config
          (map_err (invalid_configuration debug) (validate config s.board))
          (holding store debug debug_profiles trim s config catalog
            (store.save_configuration_and_profiles config catalog s.board s.store))
          (holding-Both s config catalog
            (store.save_configuration_and_profiles config catalog s.board s.store))
    land_both-Both stage s config catalog =
        unless_invalid-Both s config
          (map_err (invalid_configuration debug) (validate_staged config s.board))
          (holding store debug debug_profiles trim s config catalog
            (store.save_audio_profiles catalog s.board s.store))
          (holding-Both s config catalog (store.save_audio_profiles catalog s.board s.store))

    pub write_configuration_and_profiles-Both :
        (s : ApiState S R) (config : RuntimeConfig) (catalog : AudioProfileCatalog)
        → let out =
            write_configuration_and_profiles store debug debug_profiles trim s config catalog in
          IsBoth s config out.0 out.1
    unfolding write_configuration_and_profiles
    write_configuration_and_profiles-Both s config catalog =
        unless_invalid-Both s config
          (map_err (invalid_catalog debug_profiles) (Profiles.validate trim catalog s.board))
          (land_both store debug debug_profiles trim (config_write s.mode) s config catalog)
          (land_both-Both (config_write s.mode) s config catalog)

    held-Aside :
        (s : ApiState S R) (catalog : AudioProfileCatalog)
        (result : S × Result StoreError (Unit {0}))
        → IsAside s
            (holding store debug debug_profiles trim s s.config catalog result).0
            s.config.audio
    held-Aside s catalog (disk, ok _) = (refl, refl, refl)
    held-Aside s catalog (disk, err _) = (refl, refl, refl)

    pub save_audio_profiles-Aside :
        (s : ApiState S R) (catalog : AudioProfileCatalog)
        → IsAside s (save_audio_profiles store debug debug_profiles trim s catalog).0 s.config.audio
    unfolding save_audio_profiles
    save_audio_profiles-Aside s catalog =
        let saved = store.save_audio_profiles catalog s.board s.store in
        unless_invalid-Aside s
          (map_err (invalid_catalog debug_profiles) (Profiles.validate trim catalog s.board))
          (holding store debug debug_profiles trim s s.config catalog saved) s.config.audio refl
          (held-Aside s catalog saved)
