-- ===== src/Transport/Settings.antt =====
-- `TransportSettings` of firmware/streamline/src/transport.rs, and `verify_pending`, which proves a staged
-- key against the bridge before it may become active.
pub mod Verify
use esp32_streamline.Prelude.{
  ℕ, Bool, true, false, not, ◌&&◌, Option, none, some, Result, ok, err, ◌==◌, if◌then◌else◌, ◌>>◌,
  refuse_if, map_err, is_none, List, [], ◌∷◌,
}
use esp32_streamline.Prelude.Bytes.{Text}
use esp32_streamline.Transport.Keys.{
  TransportKey, TransportKeys, TransportError, unsupported_version, no_active_key, active_key,
  pending_key, mark_pending_verified, validate, default_keys,
}

abbrev pub contract_version_now : ℕ
contract_version_now = 1

abbrev pub default_port : ℕ
default_port = 39000

pub data TransportMode : Type 0 where
  cleartext tls_psk : TransportMode

abbrev is_tls : TransportMode → Bool
is_tls cleartext = false
is_tls tls_psk = true

pub record TransportSettings : Type 0 where
  pub contract_version : ℕ
  pub mode : TransportMode
  pub keys : TransportKeys

unfoldable pub default_settings : TransportSettings
default_settings = record {
  contract_version = contract_version_now;
  mode = cleartext;
  keys = default_keys;
}

unfoldable pub validate_settings : TransportSettings → Result TransportError (Unit {0})
validate_settings s = do
  refuse_if (not (s.contract_version == contract_version_now)) unsupported_version
  validate s.keys
  refuse_if (is_tls s.mode && is_none (active_key s.keys)) no_active_key

unfoldable pub requires_restart_to : TransportSettings → TransportSettings → Bool
requires_restart_to s next = elim s.mode [
  | cleartext ↦ is_tls next.mode
  | tls_psk ↦ not (is_tls next.mode)
]

pub data VerifyPendingError : Type 0 where
  missing_target no_pending : VerifyPendingError
  rejected : Text → VerifyPendingError

abbrev pub is_empty : Text → Bool
is_empty [] = true
is_empty (_ ∷ _) = false

-- `verify` is the adapter's `KeyVerifier`: one attempt to reach the bridge with the key.
module _ (verify : Text → ℕ → TransportKey → Result Text (Unit {0})) where
  pub verify_pending :
      TransportSettings → Text → ℕ → TransportSettings × Result VerifyPendingError (Unit {0})
  verify_pending s host port =
      if is_empty host then (s, err missing_target) else elim (pending_key s.keys) [
        | none ↦ (s, err no_pending)
        | some key ↦ elim (verify host port key) [
          | err reason ↦ (s, err (rejected reason))
          | ok _ ↦
              let (keys, result) = mark_pending_verified s.keys in
              (record s { keys = keys }, map_err (λ _. no_pending) result)
        ]
      ]
