-- ===== src/Config/Moves.antt =====
-- Moving a configuration to another board, and to another bridge.
use esp32_streamline.Prelude.{
  ℕ, ◌≡◌, ◌⊎◌, inl, inr, Bool, true, false, ◌&&◌, Option, none, some, ok, List, [], ◌∷◌, arith,
  refl, is_some, Bool-cases, is_ok,
}
use esp32_streamline.Prelude.Bytes.{Text, eq_of_text_eq}
use esp32_streamline.Transport.Keys.{reset_pending_verification}
use esp32_streamline.Board as B
use esp32_streamline.Board.{Board}
use esp32_streamline.Board.Lines.{accepts_line-default_line}
use esp32_streamline.Config.{
  RuntimeConfig, AudioSettings, validate, validate_device_settings, validate_audio,
  with_board_compatible_with, compatible_with, line_or_default, on_line, adapted, retain_known,
  any_unknown, update_target, network,
}

retain_known-known {ℓ} :
    {A : Type ℓ} (known : Text → Bool) (xs : List (Text × A))
    → any_unknown known (retain_known known xs) ≡ false
unfolding retain_known any_unknown
retain_known-known known [] = refl
retain_known-known known ((k, a) ∷ rest) = ground (arith, retain_known-known known rest)

retain_known-all {ℓ} :
    {A : Type ℓ} (known : Text → Bool) (xs : List (Text × A))
    → any_unknown known xs ≡ false
    → retain_known known xs ≡ xs
unfolding retain_known any_unknown
retain_known-all known [] h = refl
retain_known-all known ((k, a) ∷ rest) h = ground (arith, retain_known-all known rest)

line_stands :
    (a : AudioSettings) (b : Board)
    → B.validate b ≡ ok tt
    → (line : ℕ) × (line_or_default a b ≡ some line) × (B.accepts_line b line ≡ true)
unfolding line_or_default
line_stands a b v =
    let (d, e, acc) = accepts_line-default_line b v in
    elim (Bool-cases (B.accepts_line b a.input_line)) [
      | inl on_board ↦ (a.input_line, ground arith, on_board)
      | inr off_board ↦ (d, ground (arith, e), acc)
    ]

validate_audio-on_line :
    (a : AudioSettings) (b : Board) (line : ℕ)
    → B.accepts_line b line ≡ true
    → validate_audio (on_line a b line) b ≡ ok (on_line a b line)
unfolding on_line validate_audio
validate_audio-on_line a b line h = ground arith

compatible_same :
    (a : AudioSettings) (b : Board)
    → is_ok (validate_audio a b) ≡ true
    → compatible_with a b ≡ some a
unfolding compatible_with validate_audio on_line line_or_default
compatible_same a b v = ground arith

-- A configuration that is valid on one board is carried to any other valid board by
-- `with_board_compatible_with`: the move gives a configuration, and that is valid on the new board.
validate-with_board_compatible_with :
    (c : RuntimeConfig) (from to : Board)
    → validate c from ≡ ok tt
    → B.validate to ≡ ok tt
    → (d : RuntimeConfig) × (with_board_compatible_with c to ≡ some d) × (validate d to ≡ ok tt)
unfolding with_board_compatible_with compatible_with adapted validate validate_device_settings
    network
validate-with_board_compatible_with c from to h v =
    let (line, e, acc) = line_stands c.audio to v in
    let audio = on_line c.audio to line in
    let leds = retain_known-known (B.has_led to) c.led_roles in
    let buttons = retain_known-known (B.has_button to) c.button_actions in
    let good = validate_audio-on_line c.audio to line acc in
    (adapted c to audio, ground (arith, e), ground arith)

parts_of_valid :
    (c : RuntimeConfig) (b : Board)
    → validate c b ≡ ok tt
    → (is_ok (validate_audio c.audio b) ≡ true)
      × ((c.analog_passthrough_enabled && is_some b.analog_passthrough)
          ≡ c.analog_passthrough_enabled)
      × (any_unknown (B.has_led b) c.led_roles ≡ false)
      × (any_unknown (B.has_button b) c.button_actions ≡ false)
unfolding validate validate_device_settings
parts_of_valid c b h = ground arith

-- A configuration that is valid on a board is moved to that board unchanged.
with_board_compatible_with_same :
    (c : RuntimeConfig) (b : Board) → validate c b ≡ ok tt → with_board_compatible_with c b ≡ some c
unfolding with_board_compatible_with adapted
with_board_compatible_with_same c b h =
    let (audio, out, leds, buttons) = parts_of_valid c b h in
    rw
      (
        compatible_same c.audio b audio,
        out,
        retain_known-all (B.has_led b) c.led_roles leds,
        retain_known-all (B.has_button b) c.button_actions buttons,
      )
      refl

-- After an edit of the bridge endpoint, either host and port are what they were and the transport
-- settings are untouched, or a staged key counts as unverified and no key is lost.
update_target_lem :
    (trim : Text → Text) (c : RuntimeConfig) (host : Option Text) (port : Option ℕ)
    → let d = update_target trim c host port in
      ((d.target_host ≡ c.target_host)
        × (d.target_port ≡ c.target_port)
        × (d.transport ≡ c.transport))
      ⊎ ((d.transport.keys.pending_verified ≡ false)
          × (d.transport.keys.pending ≡ c.transport.keys.pending)
          × (d.transport.keys.active ≡ c.transport.keys.active)
          × (d.transport.keys.key_a ≡ c.transport.keys.key_a)
          × (d.transport.keys.key_b ≡ c.transport.keys.key_b))
unfolding update_target reset_pending_verification
update_target_lem trim c none none = inl (refl, refl, refl)
update_target_lem trim c none (some p) = ground arith
update_target_lem trim c (some h) none = ground (arith, eq_of_text_eq (trim h) c.target_host)
update_target_lem trim c (some h) (some p) = ground (arith, eq_of_text_eq (trim h) c.target_host)

-- A configuration that is valid on one board is carried to any other valid board by
-- `with_board_compatible_with`: the move gives a configuration, and that is valid on the new board. The
-- move to the board on which it is valid leaves it unchanged.
pub with_board_compatible_with_lem :
    (c : RuntimeConfig) (from to : Board)
    → validate c from ≡ ok tt
    → B.validate to ≡ ok tt
    → ((d : RuntimeConfig) × (with_board_compatible_with c to ≡ some d) × (validate d to ≡ ok tt))
      × (with_board_compatible_with c from ≡ some c)
with_board_compatible_with_lem c from to h v =
    (validate-with_board_compatible_with c from to h v, with_board_compatible_with_same c from h)
