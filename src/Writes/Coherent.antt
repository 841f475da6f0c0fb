-- ===== src/Writes/Coherent.antt =====
-- The configuration in memory, the codec's settings and the observed output agree after every request.
use esp32_streamline.Prelude.{
  ℕ, Bool, true, false, Option, none, some, Result, ok, err, ◌≡◌, refl, sym, arith, ◌∙◌, Bool-cases,
  inl, inr, not, ◌&&◌, is_some,
}
use mathlib.Core.Path.{subst}
use esp32_streamline.Prelude.Bytes.{Text}
use esp32_streamline.Config.{RuntimeConfig, ConfigError}
use esp32_streamline.Profiles.{AudioProfileCatalog, AudioProfileError}
use esp32_streamline.Mutation.{MutationError}
use esp32_streamline.Codec.{Bus}
use esp32_streamline.Codec.Control.{
  CodecControl, AudioChangeError, passthrough_active, enable, disable,
}
use esp32_streamline.Codec.Control as Control
use esp32_streamline.Codec.Passthrough.{AnalogPassthroughState, record_fault}
use esp32_streamline.Codec.Change.{IsRecorded, change_audio-IsRecorded}
use esp32_streamline.Codec.Agree.{IsAgreed, change_audio-IsAgreed}
use esp32_streamline.Writes.{ApiState, Store}
use esp32_streamline.Writes.Audio.{
  observed, with_codec, failed_change, changed, change_with, write_both,
}
use esp32_streamline.Writes.Aside.{
  Agrees, IsCoherent, IsBoth, write_configuration_and_profiles-Both,
}

agreeing :
    (active on : Bool) → (active && not on) ≡ false → ((active ≡ false) → on ≡ false) → active ≡ on
agreeing true on stays off = ground (arith, stays)
agreeing false on stays off = sym (off refl)

-- An output that was on and is not any more is observed as a fault.
observed-active :
    (p : AnalogPassthroughState) (c c' : CodecControl) (cause : MutationError)
    → p.active ≡ is_some c.passthrough
    → ((is_some c.passthrough ≡ false) → is_some c'.passthrough ≡ false)
    → (observed p c' cause).active ≡ is_some c'.passthrough
unfolding observed record_fault passthrough_active
observed-active p c c' cause agrees off =
    elim (Bool-cases (p.active && not (is_some c'.passthrough))) [
      | inl gone ↦ rw gone (ground (arith, gone))
      | inr stays ↦
          rw stays
            (agreeing p.active (is_some c'.passthrough) stays (λ out. off (sym agrees ∙ out)))
    ]

-- The configuration after the commit of a change, which failed where the change did.
abbrev IsCommitted :
    {S R : Type 0}
    → ApiState S R
    → RuntimeConfig
    → ApiState S R
    → Result AudioChangeError (Unit {0})
    → Type 0
IsCommitted s config s' (ok _) =
    (s'.config.audio ≡ config.audio) × (s'.analog_passthrough ≡ s.analog_passthrough)
IsCommitted s config s' (err _) =
    (s'.config.audio ≡ s.config.audio) × (s'.analog_passthrough ≡ s.analog_passthrough)

module _ {S R E : Type 0} (store : Store S) (debug : ConfigError → Text)
    (debug_profiles : AudioProfileError → Text) (trim : Text → Text)
    (answer : Bus → ℕ → ℕ → Result E (Unit {0})) (shown : E → Text) where
  failed_change-Coherent :
      (s : ApiState S R) (c : CodecControl) (cause : MutationError) (rollback : Option Text)
      → s.codec ≡ some c
      → c.audio ≡ s.config.audio
      → (observed s.analog_passthrough c cause).active ≡ is_some c.passthrough
      → IsCoherent (failed_change store debug debug_profiles trim answer shown s c cause rollback).0
  unfolding failed_change
  failed_change-Coherent s c cause none same audio active = rw same (audio, active)
  failed_change-Coherent s c cause (some _) same audio active = rw same (audio, active)

  -- `s'` is the state after the commit.
  changed-Coherent :
      (s s' : ApiState S R) (c c' : CodecControl) (config : RuntimeConfig)
      (result : Result AudioChangeError (Unit {0}))
      → Agrees (some c) s.config.audio s.analog_passthrough
      → IsAgreed c config.audio c' result
      → IsCommitted s config s' result
      → IsCoherent (changed store debug debug_profiles trim answer shown s' c' result).0
  unfolding changed
  changed-Coherent s s' c c' config (ok _) agrees agreed committed =
      (agreed.0 ∙ sym committed.0, rw (committed.1) (agrees.1 ∙ sym agreed.1))
  changed-Coherent s s' c c' config (err e) agrees agreed committed =
      failed_change-Coherent (with_codec c' s') c' e.cause e.rollback_error refl
        (agreed.0 ∙ agrees.0 ∙ sym committed.0)
        (observed-active s'.analog_passthrough c c' e.cause (rw (committed.1) agrees.1) agreed.1)

  commit-Committed :
      (s s' : ApiState S R) (config : RuntimeConfig) (catalog : AudioProfileCatalog)
      (result : Result AudioChangeError (Unit {0}))
      → IsRecorded
          (write_both store debug debug_profiles trim answer shown config catalog)
          s
          s'
          result
      → IsCommitted s config s' result
  commit-Committed s s' config catalog (ok _) ran =
      let both =
        subst (λ out. IsBoth store debug debug_profiles trim s config out.0 out.1) ran
          (write_configuration_and_profiles-Both store debug debug_profiles trim s config
            catalog) in
      (both.1, both.2)
  commit-Committed s s' config catalog (err e) (inl same) = rw same (refl, refl)
  commit-Committed s s' config catalog (err e) (inr ran) =
      let both =
        subst (λ out. IsBoth store debug debug_profiles trim s config out.0 out.1) ran
          (write_configuration_and_profiles-Both store debug debug_profiles trim s config
            catalog) in
      (both.1, both.2)

  Both-Aside :
      (s s' : ApiState S R) (config : RuntimeConfig) (result : Result MutationError (Unit {0}))
      → IsBoth store debug debug_profiles trim s config s' result
      → s'.codec ≡ s.codec
  Both-Aside s s' config (ok _) both = both.0
  Both-Aside s s' config (err _) both = both.0

  pub change_with-Coherent :
      (codec : Option CodecControl) (s : ApiState S R) (config : RuntimeConfig)
      (catalog : AudioProfileCatalog)
      → s.codec ≡ codec
      → IsCoherent s
      → IsCoherent
          (change_with store debug debug_profiles trim answer shown codec s config catalog).0
  unfolding change_with
  change_with-Coherent none s config catalog same coherent =
      let (s', result) = write_both store debug debug_profiles trim answer shown config catalog s in
      rw
        (Both-Aside s s' config result
            (write_configuration_and_profiles-Both store debug debug_profiles trim s config catalog)
          ∙ same)
        tt
  change_with-Coherent (some c) s config catalog same coherent =
      let commit = write_both store debug debug_profiles trim answer shown config catalog in
      let (c', s', result) = Control.change_audio answer shown commit config.audio c s in
      changed-Coherent s s' c c' config result
        (subst (λ codec. Agrees codec s.config.audio s.analog_passthrough) same coherent)
        (change_audio-IsAgreed answer shown commit config.audio c s)
        (commit-Committed s s' config catalog result
          (change_audio-IsRecorded answer shown commit config.audio c s))
