-- ===== src/Writes/Handlers.antt =====
-- The handlers of the settings, of the LEDs and buttons, and of the transport keys
-- (firmware/streamline/src/adapters/http/handlers/settings.rs, leds.rs, buttons.rs, transport.rs), from the
-- form that they have read to the result that they answer with.
use esp32_streamline.Prelude.{
  ℕ, Bool, Option, none, some, Result, ok, err, List, [], ◌∷◌, ◌++◌, not, if◌then◌else◌, refuse_if,
}
use esp32_streamline.Prelude.Bytes.{Text, bytes, text_eq}
use esp32_streamline.Board as B
use esp32_streamline.Config.{RuntimeConfig, ConfigError, update_target}
use esp32_streamline.Schedule.{AutoUpdateSchedule}
use esp32_streamline.Transport.Keys.{TransportKey, TransportKeys, TransportError}
use esp32_streamline.Transport.Keys as Keys
use esp32_streamline.Transport.Settings.{
  TransportMode, TransportSettings, cleartext, tls_psk, validate_settings, requires_restart_to,
  verify_pending, VerifyPendingError,
}
use esp32_streamline.Mutation.{MutationError, invalid_input, unavailable, of_transport, of_verify}
use esp32_streamline.Mode.{replace_wifi, require_commissioned}
use esp32_streamline.Writes.{ApiState, Store, Written, update_configuration, persist_configuration}

-- `BTreeMap::insert` without its order, which no lookup sees: a new key goes last, where the map sorts it in.
insert {ℓ} : {A : Type ℓ} → Text → A → List (Text × A) → List (Text × A)
unfolding text_eq
insert k a [] = (k, a) ∷ []
insert k a (entry ∷ entries) =
    let rest = insert k a entries in if text_eq entry.0 k then (k, a) ∷ entries else entry ∷ rest

unfoldable pub with_keys : RuntimeConfig → TransportKeys → RuntimeConfig
with_keys c keys = record c { transport = record (c.transport) { keys = keys } }

unfoldable pub in_mode : RuntimeConfig → TransportMode → RuntimeConfig
in_mode c mode = record c { transport = record (c.transport) { mode = mode } }

-- The keys of an operation that succeeded; `?` makes its error a mutation error.
abbrev pub keyed {ℓ} :
    {T : Type ℓ}
    → RuntimeConfig
    → TransportKeys
    → Result TransportError T
    → Result MutationError (RuntimeConfig × T)
keyed c keys (ok value) = ok (with_keys c keys, value)
keyed c keys (err e) = err (of_transport e)

abbrev pub checked_transport :
    (previous : TransportSettings)
    → RuntimeConfig
    → Result TransportError (Unit {0})
    → Result MutationError (RuntimeConfig × Bool)
checked_transport previous next (ok _) = ok (next, requires_restart_to previous next.transport)
checked_transport previous next (err e) = err (of_transport e)

unfoldable pub change_transport :
    ℕ → TransportMode → RuntimeConfig → Result MutationError (RuntimeConfig × Bool)
unfolding validate_settings requires_restart_to of_transport
change_transport version mode c =
    let next = record (c.transport) { contract_version = version; mode = mode } in
    checked_transport c.transport (record c { transport = next }) (validate_settings next)

abbrev pub verified :
    RuntimeConfig
    → TransportSettings
    → Result VerifyPendingError (Unit {0})
    → Result MutationError (RuntimeConfig × Unit {0})
verified c transport (ok _) = ok (record c { transport = transport }, tt)
verified c transport (err e) = err (of_verify e)

-- The closures that the handlers pass to `update_configuration`.
abbrev pub Change : Type 0 → Type 0
Change T = RuntimeConfig → Result MutationError (RuntimeConfig × T)

unfoldable pub target_change : (Text → Text) → Text → Option ℕ → Change (Unit {0})
target_change trim host port next = ok (update_target trim next (some host) port, tt)

unfoldable pub name_change : (Text → Text) → Text → Change Text
name_change trim name next = ok (record next { device_name = trim name }, trim name)

unfoldable pub admin_key_change : Text → Change (Unit {0})
admin_key_change key next = ok (record next { admin_key = key }, tt)

unfoldable pub firmware_change : AutoUpdateSchedule → Change (Unit {0})
firmware_change schedule next = ok (record next { auto_update_schedule = schedule }, tt)

unfoldable pub led_change : Text → B.LedRole → Change (Unit {0})
unfolding insert
led_change id role next = ok (record next { led_roles = insert id role next.led_roles }, tt)

unfoldable pub button_change : Text → B.ButtonAction → Change (Unit {0})
unfolding insert
button_change id act next =
    ok (record next { button_actions = insert id act next.button_actions }, tt)

unfoldable pub verify_change :
    (Text → ℕ → TransportKey → Result Text (Unit {0})) → Change (Unit {0})
unfolding of_verify
verify_change verify next =
    let (transport, result) =
      verify_pending verify next.transport next.target_host next.target_port in
    verified next transport result

unfoldable pub activate_change : Change (Unit {0})
unfolding with_keys in_mode of_transport
activate_change next =
    let (keys, result) = Keys.activate next.transport.keys in
    keyed (in_mode next tls_psk) keys result

unfoldable pub discard_change : Change (Unit {0})
unfolding with_keys of_transport
discard_change next =
    let (keys, result) = Keys.discard_pending next.transport.keys in keyed next keys result

unfoldable pub rollback_change : Change (Unit {0})
unfolding with_keys of_transport
rollback_change next =
    let (keys, result) = Keys.rollback_key next.transport.keys in keyed next keys result

unfoldable pub retire_change : Change (Unit {0})
unfolding with_keys of_transport
retire_change next =
    let (keys, result) = Keys.retire_rollback next.transport.keys in keyed next keys result

-- The keys and the result are those of the draw.
unfoldable pub stage_change :
    TransportKeys → Result TransportError TransportKey → Change TransportKey
unfolding with_keys of_transport
stage_change keys result next = keyed next keys result

unfoldable pub recover_change :
    TransportKeys → Result TransportError TransportKey → Change TransportKey
unfolding with_keys in_mode of_transport
recover_change keys result next = keyed (in_mode next cleartext) keys result

module _ {S R : Type 0} (store : Store S) (debug : ConfigError → Text) (trim : Text → Text) where
  abbrev pub update : {T : Type 0} → ApiState S R → Change T → Written S R T
  update = update_configuration store debug

  -- A write that may be refused before it is made.
  abbrev pub unless {ℓ} :
      {T : Type 0} → ApiState S R → Result MutationError (Unit {ℓ}) → Written S R T → Written S R T
  unless s (err e) written = (s, err e)
  unless s (ok _) written = written

  unfoldable pub set_wifi :
      ApiState S R
      → (ssid password admin_key : Text) → Option Text
      → Option ℕ
      → Written S R (Unit {0})
  unfolding persist_configuration replace_wifi
  set_wifi s ssid password admin_key host port =
      persist_configuration store debug s
        (replace_wifi trim s.config ssid password admin_key host port)

  unfoldable pub set_target : ApiState S R → Text → Option ℕ → Written S R (Unit {0})
  unfolding update_configuration target_change
  set_target s host port = update s (target_change trim host port)

  unfoldable pub set_name : ApiState S R → Text → Written S R Text
  unfolding update_configuration name_change
  set_name s name = update s (name_change trim name)

  unfoldable pub set_admin_key : ApiState S R → Text → Written S R (Unit {0})
  unfolding update_configuration require_commissioned admin_key_change
  set_admin_key s key =
      unless s (require_commissioned s.mode (bytes "replacing the admin key"))
        (update s (admin_key_change key))

  unfoldable pub set_firmware : ApiState S R → AutoUpdateSchedule → Written S R (Unit {0})
  unfolding update_configuration firmware_change
  set_firmware s schedule = update s (firmware_change schedule)

  unfoldable pub set_led : ApiState S R → Text → B.LedRole → Written S R (Unit {0})
  unfolding update_configuration led_change
  set_led s id role =
      unless s
        (refuse_if (not (B.has_led s.board id))
          (invalid_input (bytes "unknown LED id '" ++ id ++ bytes "'")))
        (update s (led_change id role))

  unfoldable pub set_button : ApiState S R → Text → B.ButtonAction → Written S R (Unit {0})
  unfolding update_configuration button_change
  set_button s id act =
      unless s
        (refuse_if (not (B.has_button s.board id))
          (invalid_input (bytes "unknown button id '" ++ id ++ bytes "'")))
        (update s (button_change id act))

  unfoldable pub set_transport : ApiState S R → ℕ → TransportMode → Written S R Bool
  unfolding update_configuration change_transport
  set_transport s version mode = update s (change_transport version mode)

  unfoldable pub mutate_keys : {T : Type 0} → ApiState S R → Change T → Written S R T
  unfolding update_configuration require_commissioned
  mutate_keys s change =
      unless s (require_commissioned s.mode (bytes "the transport key lifecycle")) (update s change)

  unfoldable pub verify_key :
      Option (Text → ℕ → TransportKey → Result Text (Unit {0}))
      → ApiState S R
      → Written S R (Unit {0})
  unfolding mutate_keys verify_change
  verify_key none s =
      (s, err (unavailable (bytes "secure PCM verification is unavailable in this mode")))
  verify_key (some verify) s = mutate_keys s (verify_change verify)

  unfoldable pub activate_key : ApiState S R → Written S R (Unit {0})
  unfolding mutate_keys activate_change
  activate_key s = mutate_keys s activate_change

  unfoldable pub discard_key : ApiState S R → Written S R (Unit {0})
  unfolding mutate_keys discard_change
  discard_key s = mutate_keys s discard_change

  unfoldable pub rollback_key : ApiState S R → Written S R (Unit {0})
  unfolding mutate_keys rollback_change
  rollback_key s = mutate_keys s rollback_change

  unfoldable pub retire_key : ApiState S R → Written S R (Unit {0})
  unfolding mutate_keys retire_change
  retire_key s = mutate_keys s retire_change

  module _ (fill : ℕ → R → List ℕ × R) where
    -- The generator is drawn from in the change, so not where the mode refuses it.
    unfoldable pub stage_key : ApiState S R → Written S R TransportKey
    unfolding mutate_keys require_commissioned stage_change
    stage_key s = unless s (require_commissioned s.mode (bytes "the transport key lifecycle")) (
        let (keys, random, result) = Keys.stage fill s.config.transport.keys s.random in
        mutate_keys (record s { random = random }) (stage_change keys result))

    unfoldable pub recover_key : ApiState S R → Written S R TransportKey
    unfolding mutate_keys require_commissioned recover_change
    recover_key s = unless s (require_commissioned s.mode (bytes "the transport key lifecycle")) (
        let (keys, random, result) = Keys.recover fill s.config.transport.keys s.random in
        mutate_keys (record s { random = random }) (recover_change keys result))
