-- ===== src/Codec/Runs.antt =====
-- The operations on a codec control in any order, from the moment it is made, and the events that they cause.
use esp32_streamline.Prelude.{
  ℕ, Option, none, some, Result, ok, err, List, [], ◌∷◌, ◌≡◌, refl, sym, ap, ok-injective,
  Bool-cases, inl, inr, is_some,
}
use esp32_streamline.Prelude.Bytes.{Text}
use esp32_streamline.Config.{AudioSettings}
use esp32_streamline.Mutation.{MutationError}
use esp32_streamline.Codec.{Bus, AnalogPassthroughRoute}
use esp32_streamline.Codec.Driver.{Outcome, configure}
use esp32_streamline.Codec.Control.{
  CodecControl, enable, enabled, disable, new, started, apply, applied, write_audio, selected,
  change_audio, concluded, rolled_back, reenabled, reported,
}
use esp32_streamline.Codec.Logic.{Triple, Ends, Ends-both}
use esp32_streamline.Codec.Quiet
use mathlib.Core.Path.{subst}
use esp32_streamline.Codec.Quiet.{
  is_quiet, IsQuiet, IsMuted, configure-Quiet, apply_with_passthrough-Quiet,
  enable_passthrough-Quiet, disable_passthrough-Quiet, apply-Quiet,
}

-- A call on the control; a change of the audio settings carries its commit.
pub data Operation (W : Type 0) : Type 0 where
  change : AudioSettings → (W → W × Result MutationError (Unit {0})) → Operation W
  switch_on : AnalogPassthroughRoute → Operation W
  switch_off : Operation W

module _ {E : Type 0} (answer : Bus → ℕ → ℕ → Result E (Unit {0})) (shown : E → Text) where
  unfoldable pub step : {W : Type 0} → Operation W → CodecControl × W → CodecControl × W
  unfolding change_audio enable disable
  step (change audio commit) s =
      let (c, world, result) = change_audio answer shown commit audio s.0 s.1 in (c, world)
  step (switch_on route) s = ((enable answer route s.0).0, s.1)
  step switch_off s = ((disable answer s.0).0, s.1)

  unfoldable pub run : {W : Type 0} → List (Operation W) → CodecControl × W → CodecControl × W
  unfolding step
  run [] s = s
  run (op ∷ ops) s = run ops (step op s)

  weaker : (bus : Bus) (result : Outcome E) → Ends IsQuiet IsMuted bus result → IsQuiet bus
  weaker bus (ok _) muted = muted.0
  weaker bus (err _) quiet = quiet

  configured-Quiet : (audio : AudioSettings) → IsQuiet (configure answer audio []).0
  unfolding is_quiet
  configured-Quiet audio =
      weaker (configure answer audio []).0 (configure answer audio []).1
        ((configure-Quiet answer audio).ends [] refl)

  IsQuiet-after :
      {P : Bus → Type 0} {action : Bus → Bus × Outcome E} (bus : Bus)
      → Triple answer IsQuiet P action IsQuiet
      → P bus
      → IsQuiet (action bus).0
  IsQuiet-after {P} {action} bus ensures p = Ends-both IsQuiet _ (action bus).1 (ensures.ends bus p)

  enabled-Quiet :
      (route : AnalogPassthroughRoute) (c : CodecControl) (bus : Bus) (result : Outcome E)
      → IsQuiet bus
      → IsQuiet (enabled route c bus result).0.bus
  unfolding enabled
  enabled-Quiet route c bus (ok _) quiet = quiet
  enabled-Quiet route c bus (err _) quiet = quiet

  enable-Quiet :
      (route : AnalogPassthroughRoute) (c : CodecControl)
      → IsQuiet c.bus
      → IsQuiet (enable answer route c).0.bus
  unfolding enable
  enable-Quiet route c quiet =
      enabled-Quiet route c _ _ (IsQuiet-after c.bus (enable_passthrough-Quiet answer route) quiet)

  disable-Quiet : (c : CodecControl) → IsQuiet c.bus → IsQuiet (disable answer c).0.bus
  unfolding disable
  disable-Quiet c quiet = disable_passthrough-Quiet answer c.bus quiet

  write_audio-Quiet :
      (route : Option AnalogPassthroughRoute) (audio : AudioSettings) (bus : Bus)
      → IsQuiet bus
      → IsQuiet (write_audio answer route audio bus).0
  unfolding write_audio
  write_audio-Quiet (some route) audio bus =
      IsQuiet-after bus (apply_with_passthrough-Quiet answer audio route)
  write_audio-Quiet none audio bus = IsQuiet-after bus (apply-Quiet answer audio)

  applied-Quiet :
      (c : CodecControl) (audio : AudioSettings) (route : Option AnalogPassthroughRoute) (bus : Bus)
      (result : Outcome E)
      → IsQuiet bus
      → IsQuiet (applied answer c audio route bus result).0.bus
  unfolding applied
  applied-Quiet c audio route bus (ok _) quiet = quiet
  applied-Quiet c audio route bus (err _) quiet = elim (Bool-cases (is_some c.passthrough)) [
    | inl on ↦ rw on (disable_passthrough-Quiet answer bus quiet)
    | inr off ↦ rw off quiet
  ]

  apply-Quiet_control :
      (audio : AudioSettings) (c : CodecControl)
      → IsQuiet c.bus
      → IsQuiet (apply answer audio c).0.bus
  unfolding apply
  apply-Quiet_control audio c quiet =
      let route = selected c audio in
      applied-Quiet c audio route _ _ (write_audio-Quiet route audio c.bus quiet)

  reenabled-Quiet :
      (route : Option AnalogPassthroughRoute) (c : CodecControl) (result : Outcome E)
      → IsQuiet c.bus
      → IsQuiet (reenabled answer route c result).0.bus
  unfolding reenabled
  reenabled-Quiet (some route) c (ok _) quiet = enable-Quiet route c quiet
  reenabled-Quiet none c (ok _) quiet = quiet
  reenabled-Quiet (some route) c (err _) quiet = quiet
  reenabled-Quiet none c (err _) quiet = quiet

  reported-Quiet :
      (cause : MutationError) (c : CodecControl) (result : Outcome E)
      → IsQuiet c.bus
      → IsQuiet (reported answer shown cause c result).0.bus
  unfolding reported
  reported-Quiet cause c (ok _) quiet = quiet
  reported-Quiet cause c (err _) quiet = disable-Quiet c quiet

  concluded-Quiet :
      {W : Type 0} (commit : W → W × Result MutationError (Unit {0})) (previous c : CodecControl)
      (outcome : Result MutationError (Unit {0}))
      → IsQuiet c.bus
      → IsQuiet (concluded answer shown commit previous c outcome).0.bus
  unfolding concluded rolled_back
  concluded-Quiet commit previous c (ok _) quiet = quiet
  concluded-Quiet commit previous c (err cause) quiet = reported-Quiet cause _ _ (
      reenabled-Quiet previous.passthrough _ _
        (IsQuiet-after c.bus (Quiet.apply-Quiet answer previous.audio) quiet))

  step-Quiet :
      {W : Type 0} (op : Operation W) (s : CodecControl × W)
      → IsQuiet s.0.bus
      → IsQuiet (step op s).0.bus
  unfolding step change_audio
  step-Quiet (change audio commit) s quiet =
      concluded-Quiet commit s.0 _ _ (apply-Quiet_control audio s.0 quiet)
  step-Quiet (switch_on route) s quiet = enable-Quiet route s.0 quiet
  step-Quiet switch_off s quiet = disable-Quiet s.0 quiet

  run-Quiet :
      {W : Type 0} (ops : List (Operation W)) (s : CodecControl × W)
      → IsQuiet s.0.bus
      → IsQuiet (run ops s).0.bus
  unfolding run
  run-Quiet [] s quiet = quiet
  run-Quiet (op ∷ ops) s quiet = run-Quiet ops (step op s) (step-Quiet op s quiet)

  started-bus :
      (audio : AudioSettings) (bus : Bus) (result : Outcome E) {out : Bus} {c : CodecControl}
      → started answer audio bus result ≡ (out, ok c)
      → c.bus ≡ bus
  unfolding started
  started-bus audio bus (ok _) made = sym (ap CodecControl.bus (ok-injective (ap (λ p. p.1) made)))
  started-bus audio bus (err _) made = let other = ap (λ p. p.1) made in cc

  -- From a new control on a bus without events, over any changes of the settings, enables and disables, whatever
  -- the bus answers: the mixer's input is written only when the last value written to DAC_CONTROL3 is 4, which
  -- mutes the DAC; and another value is written to DAC_CONTROL3 only directly after a wait of at least 100 ms in
  -- such a state. (The control was made.)
  pub run-new-IsQuiet :
      {W : Type 0} (audio : AudioSettings) (ops : List (Operation W)) (world : W) {bus : Bus}
      {c : CodecControl}
      → new answer [] audio ≡ (bus, ok c)
      → IsQuiet (run ops (c, world)).0.bus
  unfolding new
  run-new-IsQuiet audio ops world {bus} {c} made =
      let (configured, result) = configure answer audio [] in
      run-Quiet ops (c, world)
        (subst IsQuiet (sym (started-bus audio configured result made)) (configured-Quiet audio))
