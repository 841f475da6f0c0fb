-- ===== src/Codec/Observed.antt =====
-- What the observed state of the local output says, against the control, after every reconciliation.
use esp32_streamline.Prelude.{
  ℕ, Bool, true, false, Option, some, none, Result, ok, err, List, ◌≡◌, refl, is_some,
}
use esp32_streamline.Prelude.Bytes.{Text}
use esp32_streamline.Codec.{Bus, AnalogPassthroughRoute, CodecFault, dac_power, dac_control3}
use esp32_streamline.Codec.Driver.{Outcome, enable_passthrough, disable_passthrough}
use esp32_streamline.Codec.Control.{CodecControl, enable, enabled, disable}
use esp32_streamline.Codec.Logic.{register, Ends, Ends-both}
use esp32_streamline.Codec.Passthrough.{
  enabling, AnalogPassthroughState, AnalogPassthroughError, unsupported, control, reconcile,
  enabled_as, disabled_as, record_fault,
}
use esp32_streamline.Codec.Sync.{Anything, IsTuned, IsOpen, IsInSync, enable_passthrough-Tuned}
use esp32_streamline.Codec.Closed.{
  requests, closing, onto, requests-attempt_all, disable_passthrough-closes,
  disable_passthrough-Tuned, enable_passthrough-keeps,
}

-- Every write of the close was asked for, as the last ones.
abbrev IsClosed : CodecControl → Type 0
IsClosed c = (c.passthrough ≡ none) × ((past : List (ℕ × ℕ)) × (requests c.bus ≡ onto closing past))

abbrev IsPoweredDown : CodecControl → Type 0
IsPoweredDown c = (register dac_control3 c.bus ≡ some 4) × (register dac_power c.bus ≡ some 0)

-- The state agrees with the control, and the control with the registers.
abbrev pub IsObserved : AnalogPassthroughState → CodecControl → Type 0
IsObserved s c = (s.active ≡ is_some c.passthrough) × IsInSync c

abbrev pub IsReconciled :
    Bool
    → AnalogPassthroughState
    → CodecControl
    → AnalogPassthroughState
    → CodecControl
    → Result AnalogPassthroughError (Unit {0})
    → Type 0
IsReconciled true s c s' c' (ok _) = s'.active ≡ true
IsReconciled false s c s' c' (ok _) =
    (s' ≡ record { active = false; fault = none }) × IsClosed c' × IsPoweredDown c'
IsReconciled wanted s c s' c' (err unsupported) = (s' ≡ s) × (c' ≡ c)
IsReconciled wanted s c s' c' (err (control message)) =
    (s' ≡ record { active = false; fault = some message }) × IsClosed c'

module _ {E : Type 0} (answer : Bus → ℕ → ℕ → Result E (Unit {0}))
    (shown : CodecFault E → Text) where
  disable-Closed : (c : CodecControl) → IsClosed (disable answer c).0
  unfolding disable disable_passthrough
  disable-Closed c = (refl, (requests c.bus, requests-attempt_all answer closing c.bus))

  disable-InSync : (c : CodecControl) → IsTuned c.audio c.bus → IsInSync (disable answer c).0
  unfolding disable
  disable-InSync c set = (disable_passthrough-Tuned answer c.audio c.bus set, tt)

  disabled_as-Reconciled :
      (s : AnalogPassthroughState) (c c' : CodecControl) (result : Outcome E)
      → IsClosed c'
      → IsInSync c'
      → ((result ≡ ok tt) → IsPoweredDown c')
      → let out = disabled_as (enable answer) (disable answer) shown s c' result in
        IsObserved out.0 out.1 × IsReconciled false s c out.0 out.1 out.2
  unfolding disabled_as record_fault
  disabled_as-Reconciled s c c' (ok tt) closed synced down =
      ((rw (closed.0) refl, synced), (refl, closed, down refl))
  disabled_as-Reconciled s c c' (err e) closed synced down =
      ((rw (closed.0) refl, synced), (refl, closed))

  enabled_as-Reconciled :
      (s : AnalogPassthroughState) (route : AnalogPassthroughRoute) (c : CodecControl) (bus : Bus)
      (result : Outcome E)
      → Ends Anything (λ bus. IsTuned c.audio bus × IsOpen route bus) bus result
      → IsTuned c.audio bus
      → let c' = (enabled route c bus result).0 in
        let out =
          enabled_as (enable answer) (disable answer) shown s c' (enabled route c bus result).1 in
        IsObserved out.0 out.1 × IsReconciled true s c out.0 out.1 out.2
  unfolding enabled_as enabled record_fault
  enabled_as-Reconciled s route c bus (ok _) synced set = ((refl, synced), refl)
  enabled_as-Reconciled s route c bus (err e) nothing set =
      let closed = disable-Closed (record c { bus = bus }) in
      ((rw (closed.0) refl, disable-InSync (record c { bus = bus }) set), (refl, closed))

  enabling-Reconciled :
      (active : Bool) (route : AnalogPassthroughRoute) (s : AnalogPassthroughState)
      (c : CodecControl)
      → s.active ≡ active
      → IsObserved s c
      → let out = enabling (enable answer) (disable answer) shown active route s c in
        IsObserved out.0 out.1 × IsReconciled true s c out.0 out.1 out.2
  unfolding enabling enable
  enabling-Reconciled true route s c on seen = (seen, on)
  enabling-Reconciled false route s c off seen =
      let (bus, result) = enable_passthrough answer route c.bus in
      enabled_as-Reconciled s route c bus result
        ((enable_passthrough-Tuned answer c.audio route).ends c.bus seen.1.0)
        (Ends-both (IsTuned c.audio) bus result
          ((enable_passthrough-keeps answer c.audio route).ends c.bus seen.1.0))

  disable-PoweredDown :
      (c : CodecControl) → (disable answer c).1 ≡ ok tt → IsPoweredDown (disable answer c).0
  unfolding disable
  disable-PoweredDown c done = disable_passthrough-closes answer c.bus done

  -- If the observed state is active exactly when the control has a route, and the registers agree with the control
  -- (the converter is set by its settings; and of a route, by the last values written, the mixer takes the input,
  -- both mixers pass it on, the volumes and the power of the output pair are up, and the DAC is not muted), both
  -- still hold after a reconciliation. Success in enabling means active; success in disabling means inactive
  -- without a fault, and a DAC that is muted and powered down. An unsupported output changes nothing. An error of
  -- the control leaves the state inactive with its message as the fault. And after that error and after a
  -- successful disabling there is no route, and the four closing writes were the last ones requested.
  pub reconcile-IsReconciled :
      (wanted : Bool) (route : Option AnalogPassthroughRoute) (s : AnalogPassthroughState)
      (c : CodecControl)
      → IsObserved s c
      → let out = reconcile (enable answer) (disable answer) shown wanted route s c in
        IsObserved out.0 out.1 × IsReconciled wanted s c out.0 out.1 out.2
  unfolding reconcile
  reconcile-IsReconciled true none s c seen = (seen, (refl, refl))
  reconcile-IsReconciled true (some route) s c seen =
      enabling-Reconciled s.active route s c refl seen
  reconcile-IsReconciled false route s c seen =
      disabled_as-Reconciled s c (disable answer c).0 (disable answer c).1 (disable-Closed c)
        (disable-InSync c seen.1.0) (disable-PoweredDown c)
