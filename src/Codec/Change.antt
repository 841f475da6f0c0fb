-- ===== src/Codec/Change.antt =====
-- A change of the audio settings is all or nothing: applied and committed, or rolled back, or closed.
use esp32_streamline.Prelude.{
  ℕ, Option, some, none, true, Result, ok, err, ◌≡◌, refl, ◌⊎◌, inl, inr, Bool-cases, is_some,
  Option-cases, ap, ◌==◌,
}
use esp32_streamline.Prelude.Bytes.{Text}
use esp32_streamline.Config.{AudioSettings}
use esp32_streamline.Mutation.{MutationError}
use mathlib.Core.Path.{subst}
use mathlib.Core.Option.{some-injective}
use esp32_streamline.Codec.{Bus, AnalogPassthroughRoute, route_for_audio_change}
use esp32_streamline.Codec.Driver.{Outcome, enable_passthrough, disable_passthrough}
use esp32_streamline.Codec.Driver
use esp32_streamline.Codec.Control.{
  CodecControl, AudioChangeError, enable, enabled, disable, apply, applied, write_audio, selected,
  change_audio, committed, concluded, rolled_back, reenabled, reported, or_else,
}
use esp32_streamline.Codec.Logic.{Ends}
use esp32_streamline.Codec.Sync.{
  Anything, IsTuned, IsOpen, IsRouted, IsSounding, IsInSync, apply-Tuned,
  apply_with_passthrough-Tuned, enable_passthrough-Tuned,
}

-- After an error: the former route, if the rollback went well, and none otherwise.
abbrev IsRestored : CodecControl → CodecControl → Option Text → Type 0
IsRestored c c' none = (c'.passthrough ≡ c.passthrough) × IsInSync c'
IsRestored c c' (some _) = c'.passthrough ≡ none

-- The three outcomes of a change from `c`, for what the commit did.
abbrev pub IsConcluded :
    CodecControl → AudioSettings → CodecControl → Result AudioChangeError (Unit {0}) → Type 0
IsConcluded c audio c' (ok _) = (c'.audio ≡ audio) × IsInSync c'
IsConcluded c audio c' (err e) = (c'.audio ≡ c.audio) × IsRestored c c' e.rollback_error

-- A success is the commit's, and an error is the commit's or leaves the world alone.
abbrev pub IsRecorded :
    {W : Type 0}
    → (W → W × Result MutationError (Unit {0}))
    → W
    → W
    → Result AudioChangeError (Unit {0})
    → Type 0
IsRecorded commit world world' (ok _) = commit world ≡ (world', ok tt)
IsRecorded commit world world' (err e) = (world' ≡ world) ⊎ (commit world ≡ (world', err e.cause))

rerouted-output :
    (previous next : AudioSettings) (line : ℕ) {route : AnalogPassthroughRoute}
    → route_for_audio_change true previous next line ≡ some route
    → line ≡ route.output_line
unfolding route_for_audio_change
rerouted-output previous next line {route} e =
    elim (Bool-cases (previous.input_line == next.input_line)) [
      | inl same ↦ let impossible = rw same at e in cc
      | inr other ↦ ap AnalogPassthroughRoute.output_line (some-injective _ _ (rw other at e))
    ]

module _ {E : Type 0} (answer : Bus → ℕ → ℕ → Result E (Unit {0})) where
  -- What `apply` leaves: the new settings in sync, or a control whose route is as before or closed.
  abbrev IsApplied : CodecControl → AudioSettings → CodecControl → Outcome E → Type 0
  IsApplied c audio c' (ok _) =
      (c'.audio ≡ audio) × IsInSync c' × ((c.passthrough ≡ none) → c'.passthrough ≡ none)
  IsApplied c audio c' (err _) = (c.passthrough ≡ none) → c'.passthrough ≡ none

  applied-Applied :
      (c : CodecControl) (audio : AudioSettings) (route : Option AnalogPassthroughRoute) (bus : Bus)
      (result : Outcome E)
      → ((c.passthrough ≡ none) → or_else route c.passthrough ≡ none)
      → Ends Anything
          (λ bus. IsTuned audio bus × IsRouted (or_else route c.passthrough) bus)
          bus
          result
      → IsApplied c audio
          (applied answer c audio route bus result).0
          (applied answer c audio route bus result).1
  unfolding applied
  applied-Applied c audio route bus (ok _) off synced = (refl, synced, off)
  applied-Applied c audio route bus (err _) stays nothing =
      elim (Bool-cases (is_some c.passthrough)) [
        | inl on ↦ rw on (λ off. refl)
        | inr off ↦ rw off (λ off. off)
      ]

  -- The route that a change selects has the output of the route that is open.
  selected-output :
      (audio : AudioSettings) (c : CodecControl) (route : AnalogPassthroughRoute)
      → selected c audio ≡ some route
      → IsRouted c.passthrough c.bus
      → IsSounding route.output_line c.bus
  unfolding selected route_for_audio_change
  selected-output audio c route e routed = elim (Option-cases c.passthrough) [
    | inl off ↦ let impossible = rw off at e in cc
    | inr (current, on) ↦
        let open_now : IsOpen current c.bus = subst (λ r. IsRouted r c.bus) on routed in
        subst (λ line. IsSounding line c.bus)
          (rerouted-output c.audio audio current.output_line (rw on at e)) open_now.2
  ]

  write_audio-Tuned :
      (c : CodecControl) (audio : AudioSettings) (route : Option AnalogPassthroughRoute)
      → selected c audio ≡ route
      → IsRouted c.passthrough c.bus
      → Ends Anything
          (λ bus. IsTuned audio bus × IsRouted (or_else route c.passthrough) bus)
          (write_audio answer route audio c.bus).0
          (write_audio answer route audio c.bus).1
  unfolding write_audio or_else
  write_audio-Tuned c audio none e routed =
      (apply-Tuned answer audio c.passthrough).ends c.bus routed
  write_audio-Tuned c audio (some route) e routed =
      (apply_with_passthrough-Tuned answer audio route).ends c.bus
        (selected-output audio c route e routed)

  -- Without a route, a change selects none.
  selected-none :
      (audio : AudioSettings) (c : CodecControl)
      → c.passthrough ≡ none
      → or_else (selected c audio) c.passthrough ≡ none
  unfolding selected or_else
  selected-none audio c off = rw off refl

  apply-Applied :
      (audio : AudioSettings) (c : CodecControl)
      → IsInSync c
      → IsApplied c audio (apply answer audio c).0 (apply answer audio c).1
  unfolding apply
  apply-Applied audio c synced =
      let route = selected c audio in
      applied-Applied c audio route _ _ (selected-none audio c)
        (write_audio-Tuned c audio route refl synced.1)

  -- The rollback from a control `c`, whose route is not open where there was none before.
  abbrev IsBack : AudioSettings → Option AnalogPassthroughRoute → CodecControl → Outcome E → Type 0
  IsBack audio route c (ok _) = (c.passthrough ≡ route) × IsTuned audio c.bus × IsRouted route c.bus
  IsBack audio route c (err _) = Unit {0}

  enabled-Back :
      (audio : AudioSettings) (route : AnalogPassthroughRoute) (c : CodecControl) (bus : Bus)
      (result : Outcome E)
      → Ends Anything (λ bus. IsTuned audio bus × IsOpen route bus) bus result
      → IsBack audio (some route) (enabled route c bus result).0 (enabled route c bus result).1
  unfolding enabled
  enabled-Back audio route c bus (ok _) set = (refl, set.0, set.1)
  enabled-Back audio route c bus (err _) set = tt

  reenabled-Back :
      (audio : AudioSettings) (route : Option AnalogPassthroughRoute) (c : CodecControl)
      (result : Outcome E)
      → ((route ≡ none) → c.passthrough ≡ none)
      → Ends Anything (λ bus. IsTuned audio bus × Unit {0}) c.bus result
      → IsBack audio route (reenabled answer route c result).0 (reenabled answer route c result).1
  unfolding reenabled enable
  reenabled-Back audio (some route) c (ok _) off set =
      enabled-Back audio route c _ _
        ((enable_passthrough-Tuned answer audio route).ends c.bus set.0)
  reenabled-Back audio none c (ok _) off set = (off refl, set.0, tt)
  reenabled-Back audio (some route) c (err _) off set = tt
  reenabled-Back audio none c (err _) off set = tt

  same_route :
      (audio : AudioSettings) (route : Option AnalogPassthroughRoute) (c : CodecControl)
      (rollback : Outcome E)
      → IsBack audio route c rollback
      → IsBack audio route (record c { audio = audio }) rollback
  same_route audio route c (ok _) back = back
  same_route audio route c (err _) back = back

  rolled_back-Back :
      (audio : AudioSettings) (route : Option AnalogPassthroughRoute) (c : CodecControl)
      → ((route ≡ none) → c.passthrough ≡ none)
      → IsBack audio route (rolled_back answer audio route c).0 (rolled_back answer audio route c).1
  unfolding rolled_back
  rolled_back-Back audio route c off =
      let (bus, result) = Driver.apply answer audio c.bus in
      let (back, rollback) = reenabled answer route (record c { bus = bus }) result in
      same_route audio route back rollback (
        reenabled-Back audio route (record c { bus = bus }) result off
          ((apply-Tuned answer audio none).ends c.bus tt))

  -- After `rolled_back`, whose control has the former settings.
  reported-Restored :
      (shown : E → Text) (cause : MutationError) (c back : CodecControl) (rollback : Outcome E)
      → IsBack c.audio c.passthrough back rollback
      → back.audio ≡ c.audio
      → IsConcluded c c.audio
          (reported answer shown cause back rollback).0
          (err (reported answer shown cause back rollback).1)
  unfolding reported disable
  reported-Restored shown cause c back (ok _) h same = (same, (h.0, rw (same, h.0) (h.1, h.2)))
  reported-Restored shown cause c back (err _) h same = (same, refl)

  reported-cause :
      (shown : E → Text) (cause : MutationError) (c : CodecControl) (rollback : Outcome E)
      → (reported answer shown cause c rollback).1.cause ≡ cause
  unfolding reported
  reported-cause shown cause c (ok _) = refl
  reported-cause shown cause c (err _) = refl

  module _ {W : Type 0} (shown : E → Text) (commit : W → W × Result MutationError (Unit {0})) where
    concluded-Concluded :
        (audio : AudioSettings) (c c' : CodecControl) (outcome : Result MutationError (Unit {0}))
        → ((c.passthrough ≡ none) → c'.passthrough ≡ none)
        → ((outcome ≡ ok tt) → (c'.audio ≡ audio) × IsInSync c')
        → IsConcluded c audio
            (concluded answer shown commit c c' outcome).0
            (concluded answer shown commit c c' outcome).1
    unfolding concluded rolled_back
    concluded-Concluded audio c c' (ok tt) off settled = settled refl
    concluded-Concluded audio c c' (err cause) off settled =
        reported-Restored shown cause c _ _ (rolled_back-Back c.audio c.passthrough c' off) refl

    -- `outcome` comes from the commit where the settings were applied.
    committed-Concluded :
        (audio : AudioSettings) (c c' : CodecControl) (result : Outcome E) (world : W)
        → IsApplied c audio c' result
        → let outcome = (committed answer shown commit world result).1 in
          IsConcluded c audio
            (concluded answer shown commit c c' outcome).0
            (concluded answer shown commit c c' outcome).1
    unfolding committed
    committed-Concluded audio c c' (ok _) world h =
        concluded-Concluded audio c c' (commit world).1 h.2 (λ _. (h.0, h.1))
    committed-Concluded audio c c' (err e) world h =
        concluded-Concluded audio c c' (err _) h (λ wrong. cc)

    concluded-IsRecorded :
        (c c' : CodecControl) (world world' : W) (outcome : Result MutationError (Unit {0}))
        → commit world ≡ (world', outcome)
        → IsRecorded commit world world' (concluded answer shown commit c c' outcome).1
    unfolding concluded
    concluded-IsRecorded c c' world world' (ok tt) ran = ran
    concluded-IsRecorded c c' world world' (err cause) ran =
        let (back, rollback) = rolled_back answer c.audio c.passthrough c' in
        inr (rw (reported-cause shown cause back rollback) ran)

    recorded :
        (c c' : CodecControl) (result : Outcome E) (world : W)
        → IsRecorded commit world
            (committed answer shown commit world result).0
            (concluded answer shown commit c c' (committed answer shown commit world result).1).1
    unfolding committed concluded
    recorded c c' (ok _) world = concluded-IsRecorded c c' world _ (commit world).1 refl
    recorded c c' (err e) world = inl refl

    pub change_audio-IsRecorded :
        (audio : AudioSettings) (c : CodecControl) (world : W)
        → let out = change_audio answer shown commit audio c world in
          IsRecorded commit world out.1 out.2
    unfolding change_audio
    change_audio-IsRecorded audio c world =
        let (c', result) = apply answer audio c in recorded c c' result world

    -- The registers agree with a control if, by the last values written, the input gain, the line and the attenuation
    -- of the converter are those of its settings; and if it has a route, the mixer takes the input of the route,
    -- both mixers pass it on, the volumes and the power of the route's output pair are up, and the DAC is not
    -- muted. On a control with which they agree, a change has three outcomes: a success has the new settings, the
    -- registers agree, and its commit succeeded; an error without a rollback error has the former settings and
    -- route, and the registers agree; an error with one has the former settings and no route. On an error the
    -- world is unchanged, or the commit gave that very error.
    pub change_audio-IsConcluded :
        (audio : AudioSettings) (c : CodecControl) (world : W)
        → IsInSync c
        → let out = change_audio answer shown commit audio c world in
          IsConcluded c audio out.0 out.2 × IsRecorded commit world out.1 out.2
    unfolding change_audio
    change_audio-IsConcluded audio c world synced =
        let (c', result) = apply answer audio c in
        (
          committed-Concluded audio c c' result world (apply-Applied audio c synced),
          recorded c c' result world,
        )
