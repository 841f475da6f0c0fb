-- ===== src/Transport/Tests.antt =====
-- Settings with a staged key, and a connector and streams that answer as the tests want.
use esp32_streamline.Prelude.{
  ℕ, zero, suc, replicate, ◌+◌, ◌≡◌, ◌≢◌, ◌⊎◌, refl, arith, true, false, none, some, Result, ok,
  err, List, [], ◌∷◌, ◌++◌,
}
use mathlib.Core.List.{append-nil}
use esp32_streamline.Prelude.Bytes.{Text, bytes}
use esp32_streamline.Transport.Keys.{
  TransportKey, slot_a, slot_b, active_key, pending_key, activate, make_key,
}
use esp32_streamline.Transport.Settings.{TransportSettings, tls_psk, verify_pending}
use esp32_streamline.Transport.Settings.Verify.{verify_pending_then_activate}
use esp32_streamline.Transport.Sender.{new, send_all}
use esp32_streamline.Transport.Sender.Replies.{Request, batch, close, Means, send_all_lem}
use esp32_streamline.Transport.WriteAll.{write_all_with}
use esp32_streamline.Transport.WriteAll.Complete.{SendsPrefix, write_all_with_lem}

abbrev one : TransportKey
one = make_key (replicate 16 1) (replicate 32 1)

abbrev two : TransportKey
two = make_key (replicate 16 2) (replicate 32 2)

abbrev staged : TransportSettings
staged = record {
  contract_version = 1;
  mode = tls_psk;
  keys = record {
    key_a = some one;
    key_b = some two;
    active = some slot_a;
    pending = some slot_b;
    pending_verified = false;
  };
}

-- A bridge that accepts every key.
abbrev willing : Text → ℕ → TransportKey → Result Text (Unit {0})
willing host port key = ok tt

abbrev host : Text
host = bytes "bridge.local"

verify_pending_then_activate_example :
    let (s', result) = verify_pending willing staged host 39000 in
    (result ≢ ok tt) × (s' ≡ staged)
    ⊎ (result ≡ ok tt)
      × (willing host 39000 two ≡ ok tt)
      × ((activate s'.keys).1 ≡ ok tt)
      × (active_key (activate s'.keys).0 ≡ some two)
      × (active_key s'.keys ≡ active_key staged.keys)
      × (pending_key s'.keys ≡ some two)
unfolding pending_key
verify_pending_then_activate_example =
    verify_pending_then_activate willing staged host 39000 two refl

-- The connector counts its connections, and a stream fails on an empty batch.
abbrev dial : ℕ → ℕ × Result ℕ ℕ
dial c = (c + 1, ok 0)

abbrev transmit : ℕ → Text → ℕ × Result ℕ (Unit {0})
transmit s [] = (s, err 5)
transmit s (b ∷ bs) = (s + 1, ok tt)

send_all_lem_example :
    let (s', reply) = send_all dial transmit (new 0) (1 ∷ []) true in
    Means dial transmit (new 0) true s' reply
unfolding new
send_all_lem_example = send_all_lem dial transmit (new 0) (1 ∷ []) true (λ h. ground arith)

abbrev requests : List Request
requests =
    batch (1 ∷ []) false ∷ batch (1 ∷ []) true ∷ batch [] true ∷ batch (2 ∷ []) true ∷ close ∷ []

-- A transport that takes one byte at a time.
abbrev by_byte : Text → Text → Text × Result ℕ ℕ
by_byte sent [] = (sent, ok 0)
by_byte sent (b ∷ bs) = (sent ++ b ∷ [], ok 1)

by_byte-SendsPrefix : SendsPrefix by_byte (λ sent. sent)
by_byte-SendsPrefix w [] n h le = ground (arith, append-nil w)
by_byte-SendsPrefix w (b ∷ bs) zero h le = ground arith
by_byte-SendsPrefix w (b ∷ bs) (suc zero) h le = refl
by_byte-SendsPrefix w (b ∷ bs) (suc (suc n)) h le = ground arith

write_all_with_lem_example :
    (write_all_with by_byte [] (1 ∷ 2 ∷ 3 ∷ []) ≢ none)
    × ((w' : Text)
        → write_all_with by_byte [] (1 ∷ 2 ∷ 3 ∷ []) ≡ some (w', ok tt)
        → w' ≡ 1 ∷ 2 ∷ 3 ∷ [])
write_all_with_lem_example =
    write_all_with_lem by_byte (λ sent. sent) by_byte-SendsPrefix [] (1 ∷ 2 ∷ 3 ∷ [])
