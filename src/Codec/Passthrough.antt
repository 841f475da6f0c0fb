-- ===== src/Codec/Passthrough.antt =====
-- The desired and the observed state of the local analog output (firmware/streamline/src/analog_passthrough.rs).
use esp32_streamline.Prelude.{Bool, true, false, Option, none, some, Result, ok, err, ◌++◌}
use esp32_streamline.Prelude.Bytes.{Text, bytes}
use esp32_streamline.Codec.{AnalogPassthroughRoute}

pub record AnalogPassthroughState : Type 0 where
  pub active : Bool
  pub fault : Option Text

pub data AnalogPassthroughError : Type 0 where
  unsupported : AnalogPassthroughError
  control : Text → AnalogPassthroughError

unfoldable pub record_fault : Text → AnalogPassthroughState → AnalogPassthroughState
record_fault error s = record { active = false; fault = some error }

-- The control is any `AnalogPassthroughControl`, whose errors have a text.
module _ {C E : Type 0} (enable : AnalogPassthroughRoute → C → C × Result E (Unit {0}))
    (disable : C → C × Result E (Unit {0})) (shown : E → Text) where
  abbrev Reconciled : Type 0
  Reconciled = AnalogPassthroughState × C × Result AnalogPassthroughError (Unit {0})

  fault_text : Text → Result E (Unit {0}) → Text
  fault_text message (ok _) = message
  fault_text message (err e) = message ++ bytes "; fail-close failed: " ++ shown e

  unfoldable pub enabled_as : AnalogPassthroughState → C → Result E (Unit {0}) → Reconciled
  unfolding fault_text record_fault
  enabled_as s c (ok _) = (record { active = true; fault = none }, c, ok tt)
  enabled_as s c (err e) =
      let (c', closed) = disable c in
      let message = fault_text (shown e) closed in
      (record_fault message s, c', err (control message))

  unfoldable pub disabled_as : AnalogPassthroughState → C → Result E (Unit {0}) → Reconciled
  unfolding record_fault
  disabled_as s c (ok _) = (record { active = false; fault = none }, c, ok tt)
  disabled_as s c (err e) = (record_fault (shown e) s, c, err (control (shown e)))

  -- Only an output that is not active is enabled.
  unfoldable pub enabling :
      (active : Bool) → AnalogPassthroughRoute → AnalogPassthroughState → C → Reconciled
  unfolding enabled_as
  enabling true route s c = (s, c, ok tt)
  enabling false route s c = let (c', result) = enable route c in enabled_as s c' result

  unfoldable pub reconcile :
      Bool → Option AnalogPassthroughRoute → AnalogPassthroughState → C → Reconciled
  unfolding enabling disabled_as
  reconcile true none s c = (s, c, err unsupported)
  reconcile true (some route) s c = enabling s.active route s c
  reconcile false route s c = let (c', result) = disable c in disabled_as s c' result
