-- ===== src/Mutation.antt =====
-- The outcome of a write (firmware/streamline/src/mutation.rs) with the texts of the errors that it takes over
-- from transport.rs.
use esp32_streamline.Prelude.{ℕ, ◌++◌}
use esp32_streamline.Prelude.Bytes.{Text, bytes}
use esp32_streamline.Transport.Keys.{
  TransportError, unsupported_version, invalid_key_state, invalid_key_id, duplicate_key_id,
  pending_key_exists, rollback_key_exists, no_pending_key, pending_key_unverified, no_active_key,
  no_rollback_key,
}
use esp32_streamline.Transport.Settings.{VerifyPendingError, missing_target, no_pending, rejected}

pub data MutationError : Type 0 where
  invalid_input conflict unavailable persistence internal : Text → MutationError

unfoldable pub status : MutationError → ℕ
status (invalid_input _) = 400
status (conflict _) = 409
status (unavailable _) = 503
status (persistence _) = 500
status (internal _) = 500

unfoldable pub message : MutationError → Text
message (invalid_input m) = m
message (conflict m) = m
message (unavailable m) = m
message (persistence m) = m
message (internal m) = m

transport_text : TransportError → Text
transport_text unsupported_version = bytes "unsupported PCM transport contract version"
transport_text invalid_key_state = bytes "invalid PCM transport key state"
transport_text invalid_key_id = bytes "invalid PCM transport key id"
transport_text duplicate_key_id = bytes "PCM transport key ids must be unique"
transport_text pending_key_exists = bytes "a pending PCM transport key already exists"
transport_text rollback_key_exists =
    bytes "retire the PCM transport rollback key before staging another key"
transport_text no_pending_key = bytes "no pending PCM transport key exists"
transport_text pending_key_unverified = bytes "pending PCM transport key has not been verified"
transport_text no_active_key = bytes "no active PCM transport key exists"
transport_text no_rollback_key = bytes "no PCM transport rollback key exists"

verify_text : VerifyPendingError → Text
verify_text missing_target = bytes "configure a bridge target before verifying a key"
verify_text no_pending = bytes "no pending PCM transport key exists"
verify_text (rejected reason) = bytes "verification failed: " ++ reason

-- The class of each error of the transport, with its text.
classify_transport : TransportError → Text → MutationError
classify_transport pending_key_exists = conflict
classify_transport rollback_key_exists = conflict
classify_transport duplicate_key_id = conflict
classify_transport no_pending_key = conflict
classify_transport pending_key_unverified = conflict
classify_transport no_active_key = conflict
classify_transport no_rollback_key = conflict
classify_transport unsupported_version = invalid_input
classify_transport invalid_key_state = invalid_input
classify_transport invalid_key_id = invalid_input

unfoldable pub of_transport : TransportError → MutationError
unfolding classify_transport transport_text
of_transport e = classify_transport e (transport_text e)

classify_verify : VerifyPendingError → Text → MutationError
classify_verify no_pending = conflict
classify_verify missing_target = invalid_input
classify_verify (rejected _) = invalid_input

unfoldable pub of_verify : VerifyPendingError → MutationError
unfolding classify_verify verify_text
of_verify e = classify_verify e (verify_text e)
