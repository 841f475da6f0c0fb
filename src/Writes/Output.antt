-- ===== src/Writes/Output.antt =====
-- The handler of the local analog output
-- (firmware/streamline/src/adapters/http/handlers/analog_passthrough.rs), and of the stream (stream.rs).
use esp32_streamline.Prelude.{
  ℕ, Bool, true, false, Option, none, some, Result, ok, err, map_err, ◌&&◌, if◌then◌else◌, is_none,
}
use esp32_streamline.Prelude.Bytes.{Text, bytes}
use esp32_streamline.Board.{AnalogPassthrough}
use esp32_streamline.Config.{RuntimeConfig, ConfigError}
use esp32_streamline.Stream.Status.{set_streaming_enabled}
use esp32_streamline.Mutation.{MutationError, unavailable, internal}
use esp32_streamline.Codec.{Bus, AnalogPassthroughRoute, describe}
use esp32_streamline.Codec.Control.{CodecControl, enable, disable}
use esp32_streamline.Codec.Passthrough.{record_fault, reconcile}
use esp32_streamline.Writes.{ApiState, Store, Written, update_configuration}
use esp32_streamline.Writes.Audio.{passthrough_text}

abbrev pub route_of : Option AnalogPassthrough → ℕ → Option AnalogPassthroughRoute
route_of none input_line = none
route_of (some capability) input_line =
    some (record { input_line = input_line; output_line = capability.output_line })

-- The change of the configuration, which gives the input line.
abbrev pub enable_output : Bool → RuntimeConfig → Result MutationError (RuntimeConfig × ℕ)
enable_output enabled next =
    ok (record next { analog_passthrough_enabled = enabled }, next.audio.input_line)

unfoldable pub set_stream : {S R : Type 0} → ApiState S R → Bool → Written S R (Unit {0})
unfolding set_streaming_enabled
set_stream s enabled = elim s.stream [
  | none ↦ (s, err (unavailable (bytes "audio capture is not running")))
  | some stream ↦ (record s { stream = some (set_streaming_enabled stream enabled) }, ok tt)
]

module _ {S R E : Type 0} (store : Store S) (debug : ConfigError → Text)
    (answer : Bus → ℕ → ℕ → Result E (Unit {0})) (brief : E → Text) where
  -- Without a codec, an output that is wanted is a fault.
  unfoldable pub without_codec : ApiState S R → Bool → Written S R (Unit {0})
  unfolding record_fault
  without_codec s true = (
    record s {
      analog_passthrough = record_fault (bytes "audio codec is unavailable") s.analog_passthrough;
    },
    err (unavailable (bytes "audio codec is unavailable")),
  )
  without_codec s false =
      (record s { analog_passthrough = record { active = false; fault = none } }, ok tt)

  unfoldable pub reconciled_with :
      Option CodecControl → ApiState S R → Bool → ℕ → Written S R (Unit {0})
  unfolding without_codec reconcile passthrough_text describe
  reconciled_with none s enabled input_line = without_codec s enabled
  reconciled_with (some c) s enabled input_line =
      let (passthrough, c', result) =
        reconcile (enable answer) (disable answer) (describe brief) enabled
          (route_of s.board.analog_passthrough input_line) s.analog_passthrough c in
      (
        record s { codec = some c'; analog_passthrough = passthrough },
        map_err (λ e. internal (passthrough_text e)) result,
      )

  unfoldable pub then_reconciled :
      ApiState S R → Bool → Result MutationError ℕ → Written S R (Unit {0})
  unfolding reconciled_with
  then_reconciled s enabled (err e) = (s, err e)
  then_reconciled s enabled (ok input_line) = reconciled_with s.codec s enabled input_line

  unfoldable pub set_analog_passthrough : ApiState S R → Bool → Written S R (Unit {0})
  unfolding update_configuration then_reconciled
  set_analog_passthrough s enabled =
      if enabled && is_none s.board.analog_passthrough
      then (s, err (unavailable (bytes "local analog output is not supported by this board")))
      else let (s', input_line) = update_configuration store debug s (enable_output enabled) in
        then_reconciled s' enabled input_line
