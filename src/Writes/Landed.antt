-- ===== src/Writes/Landed.antt =====
-- Where an accepted change is to be found, by the mode.
use mathlib.Core.Path.{subst}
use esp32_streamline.Prelude.{Result, ok, err, ◌≡◌, refl, map_err}
use esp32_streamline.Prelude.Bytes.{Text}
use esp32_streamline.Config.{RuntimeConfig, ConfigError, validate, validate_staged}
use esp32_streamline.Mutation.{MutationError}
use esp32_streamline.Mode.{
  ConfigWrite, persist, stage, config_write, commit_after_persist, after_persist,
}
use esp32_streamline.Writes.Accepted.{destination, config_write_lem}
use esp32_streamline.Writes.{
  ApiState, Store, StoreError, Written, save_config, unless_invalid, persist_configuration, land,
  giving, landed, update_configuration, invalid_configuration, store_error,
}

module _ {S R : Type 0} (store : Store S) (debug : ConfigError → Text) where
  -- An error leaves memory as it was; a success is durable, or in memory alone.
  abbrev pub IsLanded :
      {T : Type 0}
      → ConfigWrite
      → ApiState S R
      → Result MutationError (RuntimeConfig × T)
      → ApiState S R
      → Result MutationError T
      → Type 0
  IsLanded w s change s' (err e) = s'.config ≡ s.config
  IsLanded persist s change s' (ok value) =
      (change ≡ ok (s'.config, value)) × (store.save s'.config s.board s.store ≡ (s'.store, ok tt))
  IsLanded stage s change s' (ok value) = (change ≡ ok (s'.config, value)) × (s'.store ≡ s.store)

  abbrev IsWritten :
      ConfigWrite
      → ApiState S R
      → RuntimeConfig
      → ApiState S R
      → Result MutationError (Unit {0})
      → Type 0
  IsWritten w s next s' (err e) = s'.config ≡ s.config
  IsWritten persist s next s' (ok _) =
      (s'.config ≡ next) × (store.save next s.board s.store ≡ (s'.store, ok tt))
  IsWritten stage s next s' (ok _) = (s'.config ≡ next) × (s'.store ≡ s.store)

  checked-Written :
      (w : ConfigWrite) (s : ApiState S R) (next : RuntimeConfig)
      (check : Result MutationError (Unit {0})) (write : Written S R (Unit {0}))
      → IsWritten w s next write.0 write.1
      → IsWritten w s next (unless_invalid s check write).0 (unless_invalid s check write).1
  checked-Written w s next (err _) write written = refl
  checked-Written w s next (ok _) write written = written

  persisted-Written :
      (s : ApiState S R) (next : RuntimeConfig) (disk : S) (result : Result StoreError (Unit {0}))
      → store.save next s.board s.store ≡ (disk, result)
      → let (disk', held, answered) =
          after_persist s.config next disk (map_err store_error result) in
        IsWritten persist s next (record s { store = disk'; config = held }) answered
  persisted-Written s next disk (ok tt) saved = (refl, saved)
  persisted-Written s next disk (err _) saved = refl

  land-Written :
      (w : ConfigWrite) (s : ApiState S R) (next : RuntimeConfig)
      → IsWritten w s next (land store debug w s next).0 (land store debug w s next).1
  unfolding land persist_configuration commit_after_persist save_config
  land-Written persist s next =
      let (disk, result) = store.save next s.board s.store in
      let (disk', held, answered) = after_persist s.config next disk (map_err store_error result) in
      checked-Written persist s next (map_err (invalid_configuration debug) (validate next s.board))
        (record s { store = disk'; config = held }, answered)
        (persisted-Written s next disk result refl)
  land-Written stage s next =
      checked-Written stage s next
        (map_err (invalid_configuration debug) (validate_staged next s.board))
        (record s { config = next }, ok tt) (refl, refl)

  written-Landed :
      {T : Type 0} (w : ConfigWrite) (s s' : ApiState S R) (next : RuntimeConfig) (value : T)
      (result : Result MutationError (Unit {0}))
      → IsWritten w s next s' result
      → IsLanded w s (ok (next, value)) s' (giving value result)
  written-Landed w s s' next value (err _) written = written
  written-Landed persist s s' next value (ok _) written =
      (rw written.0 refl, rw written.0 written.1)
  written-Landed stage s s' next value (ok _) written = (rw written.0 refl, written.1)

  landed-Landed :
      {T : Type 0} (s : ApiState S R) (change : Result MutationError (RuntimeConfig × T))
      → IsLanded
          (config_write s.mode)
          s
          change
          (landed store debug s change).0
          (landed store debug s change).1
  unfolding landed
  landed-Landed s (err e) = refl
  landed-Landed s (ok (next, value)) =
      let (s', result) = land store debug (config_write s.mode) s next in
      written-Landed (config_write s.mode) s s' next value result
        (land-Written (config_write s.mode) s next)

  -- After an error the configuration in memory is the former one. After a success it is the one that the change
  -- gave; in setup mode the store is untouched, and in the other modes the save of that configuration succeeded
  -- and left the store as it is now.
  pub update_configuration-IsLanded :
      {T : Type 0} (s : ApiState S R)
      (change : RuntimeConfig → Result MutationError (RuntimeConfig × T))
      → let out = update_configuration store debug s change in
        IsLanded (destination s.mode) s (change s.config) out.0 out.1
  unfolding update_configuration
  update_configuration-IsLanded s change =
      let out = update_configuration store debug s change in
      subst (λ w. IsLanded w s (change s.config) out.0 out.1) (config_write_lem s.mode)
        (landed-Landed s (change s.config))
