-- ===== src/Transport/Settings/Verify.antt =====
-- A key becomes active only after the bridge accepted it, and TLS mode always has a key.
use esp32_streamline.Prelude.{ℕ, true, false, some, Result, ok, ◌≡◌, ◌↔◌, ◌≢◌, ◌⊎◌, is_some, arith}
use esp32_streamline.Prelude.Bytes.{Text}
use esp32_streamline.Transport.Keys.{
  TransportKey, active_key, pending_key, mark_pending_verified, activate, validate,
}
use esp32_streamline.Transport.Settings.{
  TransportSettings, tls_psk, contract_version_now, validate_settings, verify_pending, is_empty,
}

module _ (verify : Text → ℕ → TransportKey → Result Text (Unit {0})) where
  -- `verify_pending` succeeds exactly when a target is set, a key is pending, and the bridge at that
  -- target accepts that key.
  verify_pending_iff :
      (s : TransportSettings) (host : Text) (port : ℕ)
      → ((verify_pending verify s host port).1 ≡ ok tt) ↔ (
          (is_empty host ≡ false)
          × ((k : TransportKey) × (pending_key s.keys ≡ some k) × (verify host port k ≡ ok tt)))
  unfolding verify_pending mark_pending_verified pending_key
  verify_pending_iff s host port = (λ h. ground arith, λ h. ground (arith, h.1.1, h.1.2))

  -- With a pending key: a refusal leaves the settings as they were; a success means that the bridge accepted
  -- that key, keeps the active and the pending key, and lets `activate` promote the very key that was
  -- accepted.
  pub verify_pending_then_activate :
      (s : TransportSettings) (host : Text) (port : ℕ) (k : TransportKey)
      → pending_key s.keys ≡ some k
      → let (s', result) = verify_pending verify s host port in
        (result ≢ ok tt) × (s' ≡ s)
        ⊎ (result ≡ ok tt)
          × (verify host port k ≡ ok tt)
          × ((activate s'.keys).1 ≡ ok tt)
          × (active_key (activate s'.keys).0 ≡ some k)
          × (active_key s'.keys ≡ active_key s.keys)
          × (pending_key s'.keys ≡ some k)
  unfolding verify_pending mark_pending_verified activate active_key pending_key
  verify_pending_then_activate s host port k h = ground arith

-- In TLS mode, settings that pass validation have valid keys, an active key to offer, and the present
-- contract version.
tls_has_key :
    (s : TransportSettings)
    → validate_settings s ≡ ok tt
    → s.mode ≡ tls_psk
    → (validate s.keys ≡ ok tt)
      × (is_some (active_key s.keys) ≡ true)
      × (s.contract_version ≡ contract_version_now)
unfolding validate_settings
tls_has_key s h m = ground arith
