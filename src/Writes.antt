-- ===== src/Writes.antt =====
-- Where a write of the configuration lands (firmware/streamline/src/adapters/http/writes.rs): a durable
-- generation or memory, by the boot mode.
--
-- `ApiState` has the parts of the HTTP adapter's state (adapters/http/mod.rs) that the settings handlers read
-- or write; handlers run one at a time, under the control lock. The store is an interface, and `debug` and
-- `debug_profiles` print the derived `Debug` of errors.
pub mod Handlers
pub mod Audio
pub mod Output
pub mod Requests
pub mod Accepted
pub mod Served
pub mod Aside
pub mod Coherent
pub mod Kept
pub mod Landed
mod Tests
use esp32_streamline.Prelude.{Option, Result, ok, err, ◌++◌, map_err}
use esp32_streamline.Prelude.Bytes.{Text, bytes}
use esp32_streamline.Board.{Board}
use esp32_streamline.Config.{RuntimeConfig, ConfigError, validate, validate_staged}
use esp32_streamline.Profiles as Profiles
use esp32_streamline.Profiles.{AudioProfileCatalog, AudioProfileError}
use esp32_streamline.Stream.Status.{StreamStatus}
use esp32_streamline.Codec.Control.{CodecControl}
use esp32_streamline.Codec.Passthrough.{AnalogPassthroughState}
use esp32_streamline.Mutation.{MutationError, invalid_input, persistence}
use esp32_streamline.Mode.{Mode, ConfigWrite, persist, stage, config_write, commit_after_persist}

-- The errors of the store: a record that is too large, or any other, with its text.
pub data StoreError : Type 0 where
  oversized_state storage_failure : Text → StoreError

-- `ConfigStore` of adapters/nvs.rs, as the handlers use it.
pub record Store (S : Type 0) : Type 0 where
  pub save : RuntimeConfig → Board → S → S × Result StoreError (Unit {0})
  pub save_audio_profiles : AudioProfileCatalog → Board → S → S × Result StoreError (Unit {0})
  pub save_configuration_and_profiles :
      RuntimeConfig → AudioProfileCatalog → Board → S → S × Result StoreError (Unit {0})

pub record ApiState (S R : Type 0) : Type 0 where
  pub mode : Mode
  pub board : Board
  pub config : RuntimeConfig
  pub audio_profiles : AudioProfileCatalog
  pub store : S
  pub stream : Option StreamStatus
  pub codec : Option CodecControl
  pub analog_passthrough : AnalogPassthroughState
  pub random : R

pub store_error : StoreError → MutationError
store_error (oversized_state text) = invalid_input text
store_error (storage_failure text) = persistence text

pub invalid_configuration : (ConfigError → Text) → ConfigError → MutationError
invalid_configuration debug e = invalid_input (bytes "invalid configuration: " ++ debug e)

pub invalid_catalog : (AudioProfileError → Text) → AudioProfileError → MutationError
invalid_catalog debug e = invalid_input (bytes "invalid audio profile catalog: " ++ debug e)

abbrev pub Written : Type 0 → Type 0 → Type 0 → Type 0
Written S R T = ApiState S R × Result MutationError T

pub save_config :
    {S : Type 0} → Store S → RuntimeConfig → Board → S → S × Result MutationError (Unit {0})
unfolding store_error
save_config store config board disk =
    let (disk', result) = store.save config board disk in (disk', map_err store_error result)

-- `?` before a write: a refused value changes nothing.
abbrev pub unless_invalid :
    {S R : Type 0}
    → ApiState S R
    → Result MutationError (Unit {0})
    → Written S R (Unit {0})
    → Written S R (Unit {0})
unless_invalid s (err e) write = (s, err e)
unless_invalid s (ok _) write = write

abbrev pub giving {ℓ} : {T : Type ℓ} → T → Result MutationError (Unit {0}) → Result MutationError T
giving value (ok _) = ok value
giving value (err e) = err e

module _ {S R : Type 0} (store : Store S) (debug : ConfigError → Text) where
  pub persist_configuration : ApiState S R → RuntimeConfig → Written S R (Unit {0})
  unfolding validate invalid_configuration commit_after_persist save_config
  persist_configuration s config =
      unless_invalid s (map_err (invalid_configuration debug) (validate config s.board)) (
        let (disk, held, result) =
          commit_after_persist s.config config (λ next. save_config store next s.board) s.store in
        (record s { store = disk; config = held }, result))

  pub land : ConfigWrite → ApiState S R → RuntimeConfig → Written S R (Unit {0})
  unfolding persist_configuration validate_staged invalid_configuration
  land persist s next = persist_configuration s next
  land stage s next =
      unless_invalid s (map_err (invalid_configuration debug) (validate_staged next s.board))
        (record s { config = next }, ok tt)

  pub landed :
      {T : Type 0} → ApiState S R → Result MutationError (RuntimeConfig × T) → Written S R T
  unfolding land config_write
  landed s (err e) = (s, err e)
  landed s (ok (next, value)) =
      let (s', result) = land (config_write s.mode) s next in (s', giving value result)

  -- The change is made on a copy.
  pub update_configuration :
      {T : Type 0}
      → ApiState S R
      → (RuntimeConfig → Result MutationError (RuntimeConfig × T))
      → Written S R T
  unfolding landed
  update_configuration s change = landed s (change s.config)

  module _ (debug_profiles : AudioProfileError → Text) (trim : Text → Text) where
    -- After a call of the store, memory takes what was written.
    abbrev pub holding :
        ApiState S R
        → RuntimeConfig
        → AudioProfileCatalog
        → S × Result StoreError (Unit {0})
        → Written S R (Unit {0})
    holding s config catalog (disk, ok _) =
        (record s { store = disk; config = config; audio_profiles = catalog }, ok tt)
    holding s config catalog (disk, err e) = (record s { store = disk }, err (store_error e))

    pub save_audio_profiles : ApiState S R → AudioProfileCatalog → Written S R (Unit {0})
    unfolding Profiles.validate invalid_catalog store_error
    save_audio_profiles s catalog =
        unless_invalid s
          (map_err (invalid_catalog debug_profiles) (Profiles.validate trim catalog s.board))
          (holding s s.config catalog (store.save_audio_profiles catalog s.board s.store))

    pub land_both :
        ConfigWrite → ApiState S R → RuntimeConfig → AudioProfileCatalog → Written S R (Unit {0})
    unfolding validate validate_staged invalid_configuration store_error
    land_both persist s config catalog =
        unless_invalid s (map_err (invalid_configuration debug) (validate config s.board)) (
          holding s config catalog
            (store.save_configuration_and_profiles config catalog s.board s.store))
    land_both stage s config catalog =
        unless_invalid s (map_err (invalid_configuration debug) (validate_staged config s.board))
          (holding s config catalog (store.save_audio_profiles catalog s.board s.store))

    pub write_configuration_and_profiles :
        ApiState S R → RuntimeConfig → AudioProfileCatalog → Written S R (Unit {0})
    unfolding Profiles.validate invalid_catalog land_both config_write
    write_configuration_and_profiles s config catalog =
        unless_invalid s
          (map_err (invalid_catalog debug_profiles) (Profiles.validate trim catalog s.board))
          (land_both (config_write s.mode) s config catalog)
