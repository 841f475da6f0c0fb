-- ===== src/Codec/Control.antt =====
-- `CodecControl` (firmware/streamline/src/codec/control.rs). The commit of a change is the parameter of `change_audio`; it runs on a world of
-- its own.
use esp32_streamline.Prelude.{
  ℕ, Bool, true, Option, none, some, Result, ok, err, ◌++◌, if◌then◌else◌, and_then, is_some,
}
use esp32_streamline.Prelude.Bytes.{Text, bytes}
use esp32_streamline.Config.{AudioSettings}
use esp32_streamline.Mutation.{MutationError, internal}
use esp32_streamline.Codec.{
  Bus, AnalogPassthroughRoute, CodecFault, not_closed, describe, route_for_audio_change,
}
use esp32_streamline.Codec.Driver
use esp32_streamline.Codec.Driver.{
  Outcome, configure, apply_with_passthrough, enable_passthrough, disable_passthrough,
}

pub record CodecControl : Type 0 where
  pub bus : Bus
  pub audio : AudioSettings
  pub passthrough : Option AnalogPassthroughRoute

pub record AudioChangeError : Type 0 where
  pub cause : MutationError
  pub rollback_error : Option Text

unfoldable pub passthrough_active : CodecControl → Bool
passthrough_active c = is_some c.passthrough

-- The error of a change, with that of the close after it.
abbrev after_close : {E : Type 0} → CodecFault E → Outcome E → CodecFault E
after_close cause (ok _) = cause
after_close cause (err close) = not_closed cause close

unfoldable pub enabled :
    {E : Type 0}
    → AnalogPassthroughRoute
    → CodecControl
    → Bus
    → Outcome E
    → CodecControl × Outcome E
enabled route c bus (ok _) = (record c { bus = bus; passthrough = some route }, ok tt)
enabled route c bus (err e) = (record c { bus = bus }, err e)

unfoldable pub selected : CodecControl → AudioSettings → Option AnalogPassthroughRoute
unfolding route_for_audio_change
selected c audio =
    and_then c.passthrough
      (λ current. route_for_audio_change true c.audio audio current.output_line)

unfoldable pub or_else :
    Option AnalogPassthroughRoute → Option AnalogPassthroughRoute → Option AnalogPassthroughRoute
or_else (some route) old = some route
or_else none old = old

module _ {E : Type 0} (answer : Bus → ℕ → ℕ → Result E (Unit {0})) where
  unfoldable pub enable : AnalogPassthroughRoute → CodecControl → CodecControl × Outcome E
  unfolding enable_passthrough enabled
  enable route c =
      let (bus, result) = enable_passthrough answer route c.bus in enabled route c bus result

  unfoldable pub disable : CodecControl → CodecControl × Outcome E
  unfolding disable_passthrough
  disable c =
      let (bus, result) = disable_passthrough answer c.bus in
      (record c { bus = bus; passthrough = none }, result)

  -- `CodecControl::new` on the events of a bus; without a control where it fails.
  unfoldable pub started :
      AudioSettings → Bus → Outcome E → Bus × Result (CodecFault E) CodecControl
  started audio bus (ok _) = (bus, ok (record { bus = bus; audio = audio; passthrough = none }))
  started audio bus (err e) = ((disable_passthrough answer bus).0, err e)

  unfoldable pub new : Bus → AudioSettings → Bus × Result (CodecFault E) CodecControl
  unfolding configure started
  new bus audio = let (bus', result) = configure answer audio bus in started audio bus' result

  -- The writes of `apply`, with the route that the change selects, or without.
  unfoldable pub write_audio : Option AnalogPassthroughRoute → AudioSettings → Bus → Bus × Outcome E
  write_audio (some route) audio bus = apply_with_passthrough answer audio route bus
  write_audio none audio bus = Driver.apply answer audio bus

  -- After the writes: an error closes an active route.
  unfoldable pub applied :
      CodecControl
      → AudioSettings
      → Option AnalogPassthroughRoute
      → Bus
      → Outcome E
      → CodecControl × Outcome E
  unfolding or_else
  applied c audio route bus (ok _) =
      (record { bus = bus; audio = audio; passthrough = or_else route c.passthrough }, ok tt)
  applied c audio route bus (err e) =
      if is_some c.passthrough
      then (
        record c { bus = (disable_passthrough answer bus).0; passthrough = none },
        err (after_close e (disable_passthrough answer bus).1),
      )
      else (record c { bus = bus }, err e)

  unfoldable pub apply : AudioSettings → CodecControl → CodecControl × Outcome E
  unfolding write_audio selected applied
  apply audio c =
      let route = selected c audio in
      let (bus, result) = write_audio route audio c.bus in applied c audio route bus result

  -- The rollback: the previous settings are written, and the previous route is enabled again.
  unfoldable pub reenabled :
      Option AnalogPassthroughRoute → CodecControl → Outcome E → CodecControl × Outcome E
  unfolding enable
  reenabled (some route) c (ok _) = enable route c
  reenabled none c (ok _) = (c, ok tt)
  reenabled _ c (err e) = (c, err e)

  unfoldable pub rolled_back :
      AudioSettings → Option AnalogPassthroughRoute → CodecControl → CodecControl × Outcome E
  unfolding reenabled
  rolled_back audio route c =
      let (bus, result) = Driver.apply answer audio c.bus in
      let (c', rollback) = reenabled route (record c { bus = bus }) result in
      (record c' { audio = audio }, rollback)

  module _ (shown : E → Text) where
    -- A rollback that failed closes the route.
    unfoldable pub reported :
        MutationError → CodecControl → Outcome E → CodecControl × AudioChangeError
    unfolding disable describe
    reported cause c (ok _) = (c, record { cause = cause; rollback_error = none })
    reported cause c (err e) = (
      (disable c).0,
      record {
        cause = cause;
        rollback_error = some (
            bytes "audio rollback failed: "
            ++ describe shown e
            ++ bytes "; streaming is paused; retry settings or restart");
      },
    )

    module _ {W : Type 0} (commit : W → W × Result MutationError (Unit {0})) where
      -- The commit is made only where the settings were applied.
      unfoldable pub committed : W → Outcome E → W × Result MutationError (Unit {0})
      unfolding describe
      committed world (ok _) = commit world
      committed world (err e) =
          (world, err (internal (bytes "could not apply audio settings: " ++ describe shown e)))

      unfoldable pub concluded :
          (previous c : CodecControl)
          → Result MutationError (Unit {0})
          → CodecControl × Result AudioChangeError (Unit {0})
      unfolding rolled_back reported
      concluded previous c (ok _) = (c, ok tt)
      concluded previous c (err cause) =
          let (c', rollback) = rolled_back previous.audio previous.passthrough c in
          let (c'', error) = reported cause c' rollback in (c'', err error)

      unfoldable pub change_audio :
          AudioSettings → CodecControl → W → CodecControl × W × Result AudioChangeError (Unit {0})
      unfolding apply committed concluded
      change_audio audio c world =
          let (c', result) = apply audio c in
          let (world', outcome) = committed world result in
          let (c'', answered) = concluded c c' outcome in (c'', world', answered)
