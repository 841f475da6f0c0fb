-- ===== src/Codec/Agree.antt =====
-- What the operations keep of the control's own record, whatever the bus answers.
use esp32_streamline.Prelude.{
  ℕ, Bool, true, false, Option, some, none, Result, ok, err, ◌≡◌, refl, ◌∙◌, sym, inl, inr,
  Bool-cases, Option-cases, is_some,
}
use esp32_streamline.Prelude.Bytes.{Text}
use esp32_streamline.Config.{AudioSettings}
use esp32_streamline.Mutation.{MutationError}
use esp32_streamline.Codec.{Bus, AnalogPassthroughRoute, CodecFault}
use esp32_streamline.Codec.Driver.{Outcome, enable_passthrough}
use esp32_streamline.Codec.Driver
use esp32_streamline.Codec.Control.{
  CodecControl, AudioChangeError, enable, enabled, disable, apply, applied, selected, change_audio,
  committed, concluded, rolled_back, reenabled, reported, or_else,
}
use esp32_streamline.Codec.Passthrough.{
  AnalogPassthroughState, reconcile, enabling, enabled_as, disabled_as, record_fault,
}

-- After a success the control has the new settings and the route is on as before; after an error it has the
-- former settings, and no route is on that was not.
abbrev pub IsAgreed :
    CodecControl → AudioSettings → CodecControl → Result AudioChangeError (Unit {0}) → Type 0
IsAgreed c audio c' (ok _) = (c'.audio ≡ audio) × (is_some c'.passthrough ≡ is_some c.passthrough)
IsAgreed c audio c' (err _) =
    (c'.audio ≡ c.audio) × ((is_some c.passthrough ≡ false) → is_some c'.passthrough ≡ false)

or_else_some :
    (route old : Option AnalogPassthroughRoute)
    → is_some old ≡ true
    → is_some (or_else route old) ≡ true
unfolding or_else
or_else_some (some route) old on = refl
or_else_some none old on = on

selected_off :
    (audio : AudioSettings) (c : CodecControl)
    → c.passthrough ≡ none
    → is_some (or_else (selected c audio) c.passthrough) ≡ is_some c.passthrough
unfolding selected or_else
selected_off audio c off = rw off refl

or_else-selected :
    (audio : AudioSettings) (c : CodecControl)
    → is_some (or_else (selected c audio) c.passthrough) ≡ is_some c.passthrough
or_else-selected audio c = elim (Option-cases c.passthrough) [
  | inl off ↦ selected_off audio c off
  | inr (route, on) ↦
      let lit : is_some c.passthrough ≡ true = rw on refl in
      or_else_some (selected c audio) c.passthrough lit ∙ sym lit
]

module _ {E : Type 0} (answer : Bus → ℕ → ℕ → Result E (Unit {0})) where
  abbrev IsKept : CodecControl → AudioSettings → CodecControl → Outcome E → Type 0
  IsKept c audio c' (ok _) = (c'.audio ≡ audio) × (is_some c'.passthrough ≡ is_some c.passthrough)
  IsKept c audio c' (err _) =
      (c'.audio ≡ c.audio) × ((is_some c.passthrough ≡ false) → is_some c'.passthrough ≡ false)

  applied-Kept :
      (c : CodecControl) (audio : AudioSettings) (route : Option AnalogPassthroughRoute) (bus : Bus)
      (result : Outcome E)
      → is_some (or_else route c.passthrough) ≡ is_some c.passthrough
      → IsKept c audio
          (applied answer c audio route bus result).0
          (applied answer c audio route bus result).1
  unfolding applied
  applied-Kept c audio route bus (ok _) same = (refl, same)
  applied-Kept c audio route bus (err _) same = elim (Bool-cases (is_some c.passthrough)) [
    | inl on ↦ rw on (refl, (λ off. refl))
    | inr off ↦ rw off (refl, (λ _. off))
  ]

  apply-Kept :
      (audio : AudioSettings) (c : CodecControl)
      → IsKept c audio (apply answer audio c).0 (apply answer audio c).1
  unfolding apply
  apply-Kept audio c = applied-Kept c audio (selected c audio) _ _ (or_else-selected audio c)

  reenabled_off :
      (route : Option AnalogPassthroughRoute) (c : CodecControl) (result : Outcome E)
      → is_some route ≡ false
      → is_some c.passthrough ≡ false
      → is_some (reenabled answer route c result).0.passthrough ≡ false
  unfolding reenabled
  reenabled_off (some route) c result on off = cc
  reenabled_off none c (ok _) none_before off = off
  reenabled_off none c (err _) none_before off = off

  reported_off :
      (shown : E → Text) (cause : MutationError) (c : CodecControl) (rollback : Outcome E)
      → is_some c.passthrough ≡ false
      → is_some (reported answer shown cause c rollback).0.passthrough ≡ false
  unfolding reported disable
  reported_off shown cause c (ok _) off = off
  reported_off shown cause c (err _) off = refl

  reported_audio :
      (shown : E → Text) (cause : MutationError) (c : CodecControl) (rollback : Outcome E)
      → (reported answer shown cause c rollback).0.audio ≡ c.audio
  unfolding reported disable
  reported_audio shown cause c (ok _) = refl
  reported_audio shown cause c (err _) = refl

  module _ {W : Type 0} (shown : E → Text) (commit : W → W × Result MutationError (Unit {0})) where
    concluded_back :
        (audio : AudioSettings) (c c' : CodecControl) (cause : MutationError)
        → ((is_some c.passthrough ≡ false) → is_some c'.passthrough ≡ false)
        → IsAgreed c audio
            (concluded answer shown commit c c' (err cause)).0
            (concluded answer shown commit c c' (err cause)).1
    unfolding concluded rolled_back
    concluded_back audio c c' cause off =
        let (bus, applied) = Driver.apply answer c.audio c'.bus in
        let (back, rollback) = reenabled answer c.passthrough (record c' { bus = bus }) applied in
        (
          reported_audio shown cause (record back { audio = c.audio }) rollback,
          λ none_before.
              reported_off shown cause (record back { audio = c.audio }) rollback
                (reenabled_off c.passthrough (record c' { bus = bus }) applied none_before
                  (off none_before)),
        )

    concluded-Agreed :
        (audio : AudioSettings) (c c' : CodecControl) (outcome : Result MutationError (Unit {0}))
        → (c'.audio ≡ audio) × (is_some c'.passthrough ≡ is_some c.passthrough)
        → IsAgreed c audio
            (concluded answer shown commit c c' outcome).0
            (concluded answer shown commit c c' outcome).1
    unfolding concluded
    concluded-Agreed audio c c' (ok _) kept = kept
    concluded-Agreed audio c c' (err cause) kept =
        concluded_back audio c c' cause (λ off. kept.1 ∙ off)

    committed-Agreed :
        (audio : AudioSettings) (c c' : CodecControl) (result : Outcome E) (world : W)
        → IsKept c audio c' result
        → let outcome = (committed answer shown commit world result).1 in
          IsAgreed c audio
            (concluded answer shown commit c c' outcome).0
            (concluded answer shown commit c c' outcome).1
    unfolding committed
    committed-Agreed audio c c' (ok _) world kept =
        concluded-Agreed audio c c' (commit world).1 kept
    committed-Agreed audio c c' (err e) world kept = concluded_back audio c c' _ kept.1

    pub change_audio-IsAgreed :
        (audio : AudioSettings) (c : CodecControl) (world : W)
        → let out = change_audio answer shown commit audio c world in IsAgreed c audio out.0 out.2
    unfolding change_audio
    change_audio-IsAgreed audio c world =
        let (c', result) = apply answer audio c in
        committed-Agreed audio c c' result world (apply-Kept audio c)

-- The observed state follows the control, whose settings a reconciliation leaves alone.
abbrev IsFollowed : CodecControl → AnalogPassthroughState → CodecControl → Type 0
IsFollowed c s' c' = (s'.active ≡ is_some c'.passthrough) × (c'.audio ≡ c.audio)

module _ {E : Type 0} (answer : Bus → ℕ → ℕ → Result E (Unit {0}))
    (shown : CodecFault E → Text) where
  disabled_as-Followed :
      (s : AnalogPassthroughState) (c : CodecControl) (result : Outcome E)
      → let out =
          disabled_as (enable answer) (disable answer) shown s (disable answer c).0 result in
        IsFollowed c out.0 out.1
  unfolding disabled_as disable record_fault
  disabled_as-Followed s c (ok _) = (refl, refl)
  disabled_as-Followed s c (err _) = (refl, refl)

  enabled_as-Followed :
      (s : AnalogPassthroughState) (route : AnalogPassthroughRoute) (c : CodecControl) (bus : Bus)
      (result : Outcome E)
      → let out =
          enabled_as
            (enable answer)
            (disable answer)
            shown
            s
            (enabled route c bus result).0
            (enabled route c bus result).1 in
        IsFollowed c out.0 out.1
  unfolding enabled_as enabled disable record_fault
  enabled_as-Followed s route c bus (ok _) = (refl, refl)
  enabled_as-Followed s route c bus (err _) = (refl, refl)

  enabling-Followed :
      (active : Bool) (route : AnalogPassthroughRoute) (s : AnalogPassthroughState)
      (c : CodecControl)
      → s.active ≡ is_some c.passthrough
      → let out = enabling (enable answer) (disable answer) shown active route s c in
        IsFollowed c out.0 out.1
  unfolding enabling enable
  enabling-Followed true route s c agrees = (agrees, refl)
  enabling-Followed false route s c agrees =
      let (bus, result) = enable_passthrough answer route c.bus in
      enabled_as-Followed s route c bus result

  pub reconcile-IsFollowed :
      (wanted : Bool) (route : Option AnalogPassthroughRoute) (s : AnalogPassthroughState)
      (c : CodecControl)
      → s.active ≡ is_some c.passthrough
      → let out = reconcile (enable answer) (disable answer) shown wanted route s c in
        IsFollowed c out.0 out.1
  unfolding reconcile
  reconcile-IsFollowed true none s c agrees = (agrees, refl)
  reconcile-IsFollowed true (some route) s c agrees = enabling-Followed s.active route s c agrees
  reconcile-IsFollowed false route s c agrees = disabled_as-Followed s c (disable answer c).1
