-- ===== src/Codec/Quiet.antt =====
-- The mixer is switched only while the DAC is muted, and the DAC is opened only after the mixer has settled.
use esp32_streamline.Prelude.{
  &&-both, ℕ, Result, ok, List, [], ◌∷◌, Bool, true, false, ◌≡◌, refl, ◌⊎◌, sym, not, Result-cases,
  ◌∙◌, inl, inr, Bool-cases, arith, ◌==◌, if◌then◌else◌, ◌&&◌, leb, is_some_and, >>=-eq-ok,
  ok-injective,
}
use mathlib.Core.Path.{subst}
use esp32_streamline.Config.{AudioSettings}
use esp32_streamline.Codec.{
  Bus, wrote, failed, waited, AnalogPassthroughRoute, dac_control3, dac_control16, input_controls,
  passthrough_input_register, passthrough_output, input_register, input_writes, CodecFault,
  dac_power, dac_control17, dac_control20,
}
use esp32_streamline.Codec.Driver
use esp32_streamline.Codec.Driver.{
  Outcome, write_all, write, delay_ms, given, configure, apply, apply_with_passthrough,
  setup_writes, route_writes, enable_passthrough, disable_passthrough, attempt_all, logged,
  first_of,
}
use esp32_streamline.Codec.Logic.{register, Triple, then-Triple, given-Triple, write-Triple}

pub is_muted : Bus → Bool
unfolding register
is_muted bus = is_some_and (register dac_control3 bus) (λ v. v == 4)

-- The last event is a wait of 100 ms, in a muted state.
pub is_settled : Bus → Bool
unfolding is_muted
is_settled (waited millis ∷ past) = leb 100 millis && is_muted past
is_settled _ = false

-- May this write follow on these events?
abbrev is_allowed : ℕ → ℕ → Bus → Bool
is_allowed r v past =
    if r == dac_control16
    then is_muted past
    else if r == dac_control3
    then if v == 4 then true else is_settled past
    else true

unfoldable pub is_quiet : Bus → Bool
unfolding is_settled is_muted
is_quiet [] = true
is_quiet (wrote r v ∷ past) = is_quiet past && is_allowed r v past
is_quiet (failed _ _ ∷ past) = is_quiet past
is_quiet (waited _ ∷ past) = is_quiet past

abbrev pub IsQuiet : Bus → Type 0
IsQuiet bus = is_quiet bus ≡ true

abbrev pub IsMuted : Bus → Type 0
IsMuted bus = (is_quiet bus ≡ true) × (is_muted bus ≡ true)

abbrev IsSettled : Bus → Type 0
IsSettled bus = (is_quiet bus ≡ true) × (is_settled bus ≡ true)

-- Writes that leave a muted DAC muted, and those that also leave the mixer alone.
abbrev is_hushed : List (ℕ × ℕ) → Bool
is_hushed [] = true
is_hushed (w ∷ ws) = (if w.0 == dac_control3 then w.1 == 4 else true) && is_hushed ws

-- A write that is allowed after any events.
abbrev is_plain : ℕ → ℕ → Bool
is_plain r v = not (r == dac_control16) && (if r == dac_control3 then v == 4 else true)

abbrev all_plain : List (ℕ × ℕ) → Bool
all_plain [] = true
all_plain (w ∷ ws) = is_plain w.0 w.1 && all_plain ws

module _ {E : Type 0} (answer : Bus → ℕ → ℕ → Result E (Unit {0})) where
  write_all-Muted :
      (ws : List (ℕ × ℕ))
      → is_hushed ws ≡ true
      → Triple answer IsQuiet IsMuted (write_all answer ws) IsMuted
  unfolding write_all is_quiet is_muted is_settled register
  write_all-Muted [] h = record { ends = λ bus m. m }
  write_all-Muted (w ∷ ws) h =
      then-Triple answer IsQuiet
        (write-Triple answer IsQuiet w.0 w.1 (λ bus m. ground arith) (λ bus m. m.0))
        (write_all-Muted ws (ground (arith, h)))

  mute-Muted : Triple answer IsQuiet IsQuiet (write answer dac_control3 4) IsMuted
  unfolding is_quiet is_muted is_settled register
  mute-Muted = write-Triple answer IsQuiet dac_control3 4 (λ bus q. ground arith) (λ bus q. q)

  -- A list that begins with the mute.
  IsMuted-first :
      (ws : List (ℕ × ℕ))
      → is_hushed ws ≡ true
      → Triple answer IsQuiet IsQuiet (write_all answer ((dac_control3, 4) ∷ ws)) IsMuted
  unfolding write_all
  IsMuted-first ws h = then-Triple answer IsQuiet mute-Muted (write_all-Muted ws h)

  unmute-Quiet :
      Triple answer IsQuiet IsMuted
        (Driver.◌then◌ answer (delay_ms answer 100) (write answer dac_control3 0))
        IsQuiet
  unfolding is_quiet is_muted is_settled register delay_ms
  unmute-Quiet =
      then-Triple answer IsQuiet {Q = IsSettled} {first = delay_ms answer 100}
        (record { ends = λ bus m. m })
        (write-Triple answer IsQuiet dac_control3 0 (λ bus s. ground arith) (λ bus s. s.0))

  pub configure-Quiet :
      (audio : AudioSettings) → Triple answer IsQuiet IsQuiet (configure answer audio) IsMuted
  unfolding configure setup_writes
  configure-Quiet audio =
      given-Triple answer IsQuiet (input_register audio.input_line) _ (λ bus q. q)
        (λ input e. IsMuted-first (setup_writes audio input) refl)

  input_controls-hushed :
      (audio : AudioSettings) {ws : List (ℕ × ℕ)}
      → input_controls {E = E} audio ≡ ok ws
      → is_hushed ws ≡ true
  unfolding input_controls input_writes
  input_controls-hushed audio e =
      let (input, given, made) = >>=-eq-ok (input_register audio.input_line) _ e in
      subst (λ ws. is_hushed ws ≡ true) (ok-injective made) refl

  apply-Muted : (audio : AudioSettings) → Triple answer IsQuiet IsMuted (apply answer audio) IsMuted
  unfolding apply
  apply-Muted audio =
      given-Triple answer IsQuiet (input_controls audio) _ (λ bus m. m.0)
        (λ ws e. write_all-Muted ws (input_controls-hushed audio e))

  switch_input-Muted :
      (value : Result (CodecFault E) ℕ)
      → Triple answer IsQuiet IsMuted (given answer value (write answer dac_control16)) IsMuted
  unfolding is_quiet is_muted is_settled register
  switch_input-Muted value =
      given-Triple answer IsQuiet value _ (λ bus m. m.0)
        (λ v e. write-Triple answer IsQuiet dac_control16 v (λ bus m. ground arith) (λ bus m. m.0))

  pub apply_with_passthrough-Quiet :
      (audio : AudioSettings) (route : AnalogPassthroughRoute)
      → Triple answer IsQuiet IsQuiet (apply_with_passthrough answer audio route) IsQuiet
  unfolding apply_with_passthrough
  apply_with_passthrough-Quiet audio route =
      given-Triple answer IsQuiet (passthrough_output route.output_line) _ (λ bus q. q)
        (λ output e. then-Triple answer IsQuiet mute-Muted (
          then-Triple answer IsQuiet (apply-Muted audio) (
            then-Triple answer IsQuiet
              (switch_input-Muted (passthrough_input_register route.input_line)) unmute-Quiet)))

  pub passthrough_output-pairs :
      (line : ℕ) {output : ℕ × ℕ × ℕ}
      → passthrough_output {E = E} line ≡ ok output
      → ((line ≡ 1) × (output ≡ (46, 47, 48))) ⊎ ((line ≡ 2) × (output ≡ (48, 49, 12)))
  unfolding passthrough_output
  passthrough_output-pairs line {output} e = elim (Bool-cases (line == 1)) [
    | inl one ↦
        inl (ground (arith, one), sym (ok-injective {E = CodecFault E} (sym (rw one refl) ∙ e)))
    | inr other ↦ elim (Bool-cases (line == 2)) [
      | inl two ↦ inr (ground (arith, two), sym (ok-injective (sym (rw (other, two) refl) ∙ e)))
      | inr none_of ↦ let impossible = rw (other, none_of) at e in cc
    ]
  ]

  pub passthrough_output-cases :
      (line : ℕ) {output : ℕ × ℕ × ℕ}
      → passthrough_output {E = E} line ≡ ok output
      → (output ≡ (46, 47, 48)) ⊎ (output ≡ (48, 49, 12))
  passthrough_output-cases line e = elim (passthrough_output-pairs line e) [
    | inl (_, one) ↦ inl one
    | inr (_, two) ↦ inr two
  ]

  -- The volume registers of the output pairs are none of the two that matter.
  route_writes-hushed :
      (line input : ℕ) {output : ℕ × ℕ × ℕ}
      → passthrough_output {E = E} line ≡ ok output
      → is_hushed (route_writes input output) ≡ true
  unfolding passthrough_output route_writes
  route_writes-hushed line input e = elim (passthrough_output-cases line e) [
    | inl one ↦ rw one refl
    | inr two ↦ rw two refl
  ]

  pub enable_passthrough-Quiet :
      (route : AnalogPassthroughRoute)
      → Triple answer IsQuiet IsQuiet (enable_passthrough answer route) IsQuiet
  unfolding enable_passthrough
  enable_passthrough-Quiet route =
      given-Triple answer IsQuiet (passthrough_output route.output_line) _ (λ bus q. q)
        (λ output e.
          given-Triple answer IsQuiet (passthrough_input_register route.input_line) _ (λ bus q. q)
            (λ input f.
              then-Triple answer IsQuiet
                (IsMuted-first (route_writes input output)
                  (route_writes-hushed route.output_line input e))
                unmute-Quiet))

  write-Quiet :
      (r v : ℕ) (bus : Bus) → is_plain r v ≡ true → IsQuiet bus → IsQuiet (write answer r v bus).0
  unfolding write is_quiet
  write-Quiet r v bus plain quiet = elim (Result-cases (answer bus r v)) [
    | inl (a, e) ↦ rw e (ground (arith, plain))
    | inr (f, e) ↦ rw e quiet
  ]

  attempt_all-Quiet :
      (ws : List (ℕ × ℕ))
      → all_plain ws ≡ true
      → (bus : Bus) → IsQuiet bus
      → IsQuiet (attempt_all answer ws bus).0
  unfolding attempt_all
  attempt_all-Quiet [] h bus quiet = quiet
  attempt_all-Quiet (w ∷ ws) h bus quiet =
      let (first, rest) = &&-both (is_plain w.0 w.1) (all_plain ws) h in
      attempt_all-Quiet ws rest _ (write-Quiet w.0 w.1 bus first quiet)

  pub disable_passthrough-Quiet :
      (bus : Bus) → IsQuiet bus → IsQuiet (disable_passthrough answer bus).0
  unfolding disable_passthrough
  disable_passthrough-Quiet bus =
      attempt_all-Quiet
        ((dac_control3, 4) ∷ (dac_power, 0) ∷ (dac_control17, 144) ∷ (dac_control20, 144) ∷ []) refl
        bus

  write_all-Quiet :
      (ws : List (ℕ × ℕ))
      → all_plain ws ≡ true
      → Triple answer IsQuiet IsQuiet (write_all answer ws) IsQuiet
  unfolding write_all is_quiet
  write_all-Quiet [] h = record { ends = λ bus q. q }
  write_all-Quiet (w ∷ ws) h =
      let (first, rest) = &&-both (is_plain w.0 w.1) (all_plain ws) h in
      then-Triple answer IsQuiet
        (write-Triple answer IsQuiet w.0 w.1 (λ bus q. ground (arith, first)) (λ bus q. q))
        (write_all-Quiet ws rest)

  input_controls-plain :
      (audio : AudioSettings) {ws : List (ℕ × ℕ)}
      → input_controls {E = E} audio ≡ ok ws
      → all_plain ws ≡ true
  unfolding input_controls input_writes
  input_controls-plain audio e =
      let (input, given, made) = >>=-eq-ok (input_register audio.input_line) _ e in
      subst (λ ws. all_plain ws ≡ true) (ok-injective made) refl

  pub apply-Quiet :
      (audio : AudioSettings) → Triple answer IsQuiet IsQuiet (apply answer audio) IsQuiet
  unfolding apply
  apply-Quiet audio =
      given-Triple answer IsQuiet (input_controls audio) _ (λ bus q. q)
        (λ ws e. write_all-Quiet ws (input_controls-plain audio e))
