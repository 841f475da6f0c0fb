-- ===== src/Writes/Accepted.antt =====
-- No request puts a configuration or a catalog in memory that its mode would refuse.
use mathlib.Core.Path.{subst}
use esp32_streamline.Prelude.{
  Bool, Result, ok, err, ◌≡◌, refl, sym, map_err, ◌>>=◌, refuse_if-passes, >>-eq-ok, >>=-eq-ok,
}
use esp32_streamline.Prelude.Bytes.{Text}
use esp32_streamline.Board.{Board}
use esp32_streamline.Prelude.{refuse_if, ◌>>◌, ◌||◌, not, ltb, length}
use esp32_streamline.Prelude.Bytes.{contains_byte}
use esp32_streamline.Transport.Settings.{is_empty}
use esp32_streamline.Config.{
  missing_ssid, malformed_ssid, malformed_wifi_password, malformed_admin_key,
  is_canonical_admin_key, RuntimeConfig, ConfigError, validate, validate_staged, validate_network,
  validate_target, validate_device_settings, network, bad_password,
}
use esp32_streamline.Profiles.{AudioProfileCatalog, AudioProfileError}
use esp32_streamline.Profiles as Profiles
use esp32_streamline.Mutation.{MutationError}
use esp32_streamline.Mode.{
  Mode, setup, recovery, provisioned, ConfigWrite, persist, stage, config_write,
  commit_after_persist, after_persist,
}
use esp32_streamline.Writes.{
  ApiState, Store, StoreError, Written, save_config, unless_invalid, persist_configuration, land,
  landed, update_configuration, holding, save_audio_profiles, land_both,
  write_configuration_and_profiles, invalid_catalog, invalid_configuration,
}

-- Only a device in setup has nothing durable to write to.
abbrev pub destination : Mode → ConfigWrite
destination setup = stage
destination recovery = persist
destination provisioned = persist

pub config_write_lem : (mode : Mode) → config_write mode ≡ destination mode
unfolding config_write
config_write_lem setup = refl
config_write_lem recovery = refl
config_write_lem provisioned = refl

-- What a mode asks of the configuration that it holds.
abbrev IsAccepted : ConfigWrite → RuntimeConfig → Board → Type 0
IsAccepted persist config board = validate config board ≡ ok tt
IsAccepted stage config board = validate_staged config board ≡ ok tt

abbrev network_check : RuntimeConfig → Result ConfigError (Unit {0})
network_check c = validate_network (network c) >>= λ _. ok tt

abbrev target_check : RuntimeConfig → Result ConfigError (Unit {0})
target_check c = validate_target (network c) >>= λ _. ok tt

abbrev ssid_malformed : RuntimeConfig → Bool
ssid_malformed c = ltb 32 (length c.ssid) || contains_byte 0 c.ssid

network_check-target_check : (c : RuntimeConfig) → network_check c ≡ ok tt → target_check c ≡ ok tt
unfolding validate_network network
network_check-target_check c e =
    let (n, found, done) = >>=-eq-ok (validate_network (network c)) _ e in
    let targeted = validate_target (network c) in
    let (named, rest) =
      refuse_if-passes (is_empty c.ssid) missing_ssid
        (refuse_if (ssid_malformed c) malformed_ssid >> targeted) found in
    let (formed, target) = refuse_if-passes (ssid_malformed c) malformed_ssid targeted rest in
    rw target refl

abbrev key_malformed : RuntimeConfig → Bool
key_malformed c = not (is_canonical_admin_key c.admin_key)

-- A configuration that is complete can also be staged.
validate-staged :
    (c : RuntimeConfig) (b : Board) → validate c b ≡ ok tt → validate_staged c b ≡ ok tt
unfolding validate validate_staged
validate-staged c b e =
    let (net, rest) = >>-eq-ok (network_check c) _ e in
    let settings = validate_device_settings c b in
    let (password, keyed) =
      refuse_if-passes (bad_password c.password) malformed_wifi_password
        (refuse_if (key_malformed c) malformed_admin_key >> settings) rest in
    let (key, device) = refuse_if-passes (key_malformed c) malformed_admin_key settings keyed in
    rw (network_check-target_check c net) device

IsAccepted-any :
    (w : ConfigWrite) (c : RuntimeConfig) (b : Board) → validate c b ≡ ok tt → IsAccepted w c b
IsAccepted-any persist c b e = e
IsAccepted-any stage c b e = validate-staged c b e

map_err-ok : {E F : Type 0} (f : E → F) (r : Result E (Unit {0})) → map_err f r ≡ ok tt → r ≡ ok tt
map_err-ok f (ok tt) e = refl
map_err-ok f (err x) e = cc

module _ {S R : Type 0} (store : Store S) (debug : ConfigError → Text)
    (debug_profiles : AudioProfileError → Text) (trim : Text → Text) where
  -- Memory holds what its mode accepts, and a catalog for its board.
  abbrev pub IsSound : ApiState S R → Type 0
  IsSound s =
      IsAccepted (config_write s.mode) s.config s.board
      × (Profiles.validate trim s.audio_profiles s.board ≡ ok tt)

  -- The same, said by the mode itself.
  abbrev pub IsHeld : ApiState S R → Type 0
  IsHeld s =
      IsAccepted (destination s.mode) s.config s.board
      × (Profiles.validate trim s.audio_profiles s.board ≡ ok tt)

  pub held : (s : ApiState S R) → IsHeld s → IsSound s
  held s (accepted, valid) =
      (subst (λ w. IsAccepted w s.config s.board) (sym (config_write_lem s.mode)) accepted, valid)

  pub holds : (s : ApiState S R) → IsSound s → IsHeld s
  holds s (accepted, valid) =
      (subst (λ w. IsAccepted w s.config s.board) (config_write_lem s.mode) accepted, valid)

  pub unless_invalid-Sound :
      (s : ApiState S R) (check : Result MutationError (Unit {0})) (write : Written S R (Unit {0}))
      → IsSound s
      → (check ≡ ok tt → IsSound write.0)
      → IsSound (unless_invalid s check write).0
  unless_invalid-Sound s (err e) write sound after = sound
  unless_invalid-Sound s (ok tt) write sound after = after refl

  persisted-Sound :
      (s : ApiState S R) (config : RuntimeConfig) (disk : S)
      (result : Result MutationError (Unit {0}))
      → IsSound s
      → validate config s.board ≡ ok tt
      → let (disk', held, _) = after_persist s.config config disk result in
        IsSound (record s { store = disk'; config = held })
  persisted-Sound s config disk (ok _) sound valid =
      (IsAccepted-any (config_write s.mode) config s.board valid, sound.1)
  persisted-Sound s config disk (err _) sound valid = sound

  pub persist_configuration-Sound :
      (s : ApiState S R) (config : RuntimeConfig)
      → IsSound s
      → IsSound (persist_configuration store debug s config).0
  unfolding persist_configuration commit_after_persist save_config
  persist_configuration-Sound s config sound =
      unless_invalid-Sound s (map_err (invalid_configuration debug) (validate config s.board)) _
        sound
        (λ checked.
          persisted-Sound s config _ _ sound
            (map_err-ok (invalid_configuration debug) (validate config s.board) checked))

  land-Sound :
      (w : ConfigWrite) (s : ApiState S R) (next : RuntimeConfig)
      → config_write s.mode ≡ w
      → IsSound s
      → IsSound (land store debug w s next).0
  unfolding land
  land-Sound persist s next e sound = persist_configuration-Sound s next sound
  land-Sound stage s next e sound =
      unless_invalid-Sound s (map_err (invalid_configuration debug) (validate_staged next s.board))
        _ sound
        (λ checked. (
          rw e (map_err-ok (invalid_configuration debug) (validate_staged next s.board) checked),
          sound.1,
        ))

  landed-Sound :
      {T : Type 0} (s : ApiState S R) (change : Result MutationError (RuntimeConfig × T))
      → IsSound s
      → IsSound (landed store debug s change).0
  unfolding landed
  landed-Sound s (err e) sound = sound
  landed-Sound s (ok (next, value)) sound = land-Sound (config_write s.mode) s next refl sound

  pub update_configuration-Sound :
      {T : Type 0} (s : ApiState S R)
      (change : RuntimeConfig → Result MutationError (RuntimeConfig × T))
      → IsSound s
      → IsSound (update_configuration store debug s change).0
  unfolding update_configuration
  update_configuration-Sound s change sound = landed-Sound s (change s.config) sound

  holding-Sound :
      (s : ApiState S R) (config : RuntimeConfig) (catalog : AudioProfileCatalog)
      (result : S × Result StoreError (Unit {0}))
      → IsSound s
      → IsAccepted (config_write s.mode) config s.board
      → Profiles.validate trim catalog s.board ≡ ok tt
      → IsSound (holding store debug debug_profiles trim s config catalog result).0
  holding-Sound s config catalog (disk, ok _) sound accepted valid = (accepted, valid)
  holding-Sound s config catalog (disk, err _) sound accepted valid = sound

  pub save_audio_profiles-Sound :
      (s : ApiState S R) (catalog : AudioProfileCatalog)
      → IsSound s
      → IsSound (save_audio_profiles store debug debug_profiles trim s catalog).0
  unfolding save_audio_profiles
  save_audio_profiles-Sound s catalog sound =
      unless_invalid-Sound s
        (map_err (invalid_catalog debug_profiles) (Profiles.validate trim catalog s.board)) _ sound
        (λ checked.
          holding-Sound s s.config catalog _ sound sound.0
            (map_err-ok _ (Profiles.validate trim catalog s.board) checked))

  land_both-Sound :
      (w : ConfigWrite) (s : ApiState S R) (config : RuntimeConfig) (catalog : AudioProfileCatalog)
      → config_write s.mode ≡ w
      → Profiles.validate trim catalog s.board ≡ ok tt
      → IsSound s
      → IsSound (land_both store debug debug_profiles trim w s config catalog).0
  unfolding land_both
  land_both-Sound persist s config catalog e valid sound =
      unless_invalid-Sound s (map_err (invalid_configuration debug) (validate config s.board)) _
        sound
        (λ checked.
          holding-Sound s config catalog _ sound
            (rw e (map_err-ok (invalid_configuration debug) (validate config s.board) checked))
            valid)
  land_both-Sound stage s config catalog e valid sound =
      unless_invalid-Sound s
        (map_err (invalid_configuration debug) (validate_staged config s.board)) _ sound
        (λ checked.
          holding-Sound s config catalog _ sound
            (rw e
              (map_err-ok (invalid_configuration debug) (validate_staged config s.board) checked))
            valid)

  pub write_configuration_and_profiles-Sound :
      (s : ApiState S R) (config : RuntimeConfig) (catalog : AudioProfileCatalog)
      → IsSound s
      → IsSound
          (write_configuration_and_profiles store debug debug_profiles trim s config catalog).0
  unfolding write_configuration_and_profiles
  write_configuration_and_profiles-Sound s config catalog sound =
      unless_invalid-Sound s
        (map_err (invalid_catalog debug_profiles) (Profiles.validate trim catalog s.board)) _ sound
        (λ checked.
          land_both-Sound (config_write s.mode) s config catalog refl
            (map_err-ok _ (Profiles.validate trim catalog s.board) checked) sound)
