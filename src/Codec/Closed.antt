-- ===== src/Codec/Closed.antt =====
-- The close of a route attempts every write, and leaves the converter alone.
use esp32_streamline.Prelude.{
  &&-both, ◌∙◌, ap, ℕ, Bool, true, false, not, ◌&&◌, some, Result, ok, err, List, [], ◌∷◌, ◌≡◌,
  refl, Result-cases, inl, inr, ◌==◌, arith,
}
use esp32_streamline.Config.{AudioSettings}
use esp32_streamline.Codec.{
  Bus, wrote, failed, waited, dac_power, dac_control3, dac_control17, dac_control20, adc_control1,
  adc_control2, adc_control8, adc_control9,
}
use esp32_streamline.Codec.Driver.{
  write_all, delay_ms, route_writes, enable_passthrough, Outcome, write, attempt_all,
  disable_passthrough, first_of,
}
use esp32_streamline.Codec.Logic.{register, Triple, then-Triple, given-Triple, write-Triple}
use esp32_streamline.Codec.Quiet.{passthrough_output-cases}
use esp32_streamline.Codec.{AnalogPassthroughRoute, passthrough_output, passthrough_input_register}
use esp32_streamline.Codec.Sync.{IsTuned}

-- The writes that the bus was asked for, the latest first, whatever it answered.
pub requests : Bus → List (ℕ × ℕ)
requests [] = []
requests (wrote r v ∷ bus) = (r, v) ∷ requests bus
requests (failed r v ∷ bus) = (r, v) ∷ requests bus
requests (waited _ ∷ bus) = requests bus

abbrev avoids : ℕ → List (ℕ × ℕ) → Bool
avoids r [] = true
avoids r (w ∷ ws) = not (w.0 == r) && avoids r ws

abbrev pub closing : List (ℕ × ℕ)
closing = (dac_control3, 4) ∷ (dac_power, 0) ∷ (dac_control17, 144) ∷ (dac_control20, 144) ∷ []

first_of-ok :
    {E : Type 0} (first rest : Outcome E)
    → first_of first rest ≡ ok tt
    → (first ≡ ok tt) × (rest ≡ ok tt)
first_of-ok (ok tt) rest e = (refl, e)
first_of-ok (err f) rest e = cc

==_refl : (n : ℕ) → (n == n) ≡ true
==_refl n = ground arith

-- A list in front of another, its first element deepest.
abbrev pub onto : List (ℕ × ℕ) → List (ℕ × ℕ) → List (ℕ × ℕ)
onto [] past = past
onto (w ∷ ws) past = onto ws (w ∷ past)

module _ {E : Type 0} (answer : Bus → ℕ → ℕ → Result E (Unit {0})) where
  register-write :
      (r r' v : ℕ) (bus : Bus)
      → (r' == r) ≡ false
      → register r (write answer r' v bus).0 ≡ register r bus
  unfolding write register
  register-write r r' v bus other = elim (Result-cases (answer bus r' v)) [
    | inl (a, e) ↦ rw (e, other) refl
    | inr (f, e) ↦ rw e refl
  ]

  register-attempt_all :
      (r : ℕ) (ws : List (ℕ × ℕ)) (bus : Bus)
      → avoids r ws ≡ true
      → register r (attempt_all answer ws bus).0 ≡ register r bus
  unfolding attempt_all
  register-attempt_all r [] bus h = refl
  register-attempt_all r (w ∷ ws) bus h =
      register-attempt_all r ws _ (ground (arith, h))
      ∙ register-write r w.0 w.1 bus (ground (arith, h))

  requests-write : (r v : ℕ) (bus : Bus) → requests (write answer r v bus).0 ≡ (r, v) ∷ requests bus
  unfolding write requests
  requests-write r v bus = elim (Result-cases (answer bus r v)) [
    | inl (a, e) ↦ rw e refl
    | inr (f, e) ↦ rw e refl
  ]

  pub requests-attempt_all :
      (ws : List (ℕ × ℕ)) (bus : Bus)
      → requests (attempt_all answer ws bus).0 ≡ onto ws (requests bus)
  unfolding attempt_all
  requests-attempt_all [] bus = refl
  requests-attempt_all (w ∷ ws) bus =
      requests-attempt_all ws _ ∙ ap (onto ws) (requests-write w.0 w.1 bus)

  written :
      (r v : ℕ) (bus : Bus)
      → (write answer r v bus).1 ≡ ok tt
      → register r (write answer r v bus).0 ≡ some v
  unfolding write register
  written r v bus done = elim (Result-cases (answer bus r v)) [
    | inl (a, e) ↦ rw (e, ==_refl) refl
    | inr (f, e) ↦ let refused = rw e at done in cc
  ]

  -- Where no error is reported, the DAC is muted and without power.
  pub disable_passthrough-closes :
      (bus : Bus)
      → (disable_passthrough answer bus).1 ≡ ok tt
      → let bus' = (disable_passthrough answer bus).0 in
        (register dac_control3 bus' ≡ some 4) × (register dac_power bus' ≡ some 0)
  unfolding disable_passthrough attempt_all
  disable_passthrough-closes bus done =
      let b1 = (write answer dac_control3 4 bus).0 in
      let b2 = (write answer dac_power 0 b1).0 in
      let b3 = (write answer dac_control17 144 b2).0 in
      let rest3 = first_of-ok _ _ done in
      let rest2 = first_of-ok _ _ rest3.1 in
      (
        register-write dac_control3 dac_control20 144 b3 refl
            ∙ register-write dac_control3 dac_control17 144 b2 refl
            ∙ register-write dac_control3 dac_power 0 b1 refl
            ∙ written dac_control3 4 bus rest3.0,
        register-write dac_power dac_control20 144 b3 refl
            ∙ register-write dac_power dac_control17 144 b2 refl
            ∙ written dac_power 0 b1 rest2.0,
      )

  pub disable_passthrough-Tuned :
      (audio : AudioSettings) (bus : Bus)
      → IsTuned audio bus
      → IsTuned audio (disable_passthrough answer bus).0
  unfolding disable_passthrough
  disable_passthrough-Tuned audio bus set = (
    register-attempt_all adc_control1 closing bus refl ∙ set.0,
    register-attempt_all adc_control2 closing bus refl ∙ set.1,
    register-attempt_all adc_control8 closing bus refl ∙ set.2,
    register-attempt_all adc_control9 closing bus refl ∙ set.3,
  )

-- The register is none of the four that set the converter.
abbrev is_spare : ℕ → Bool
is_spare r =
    not (r == adc_control1)
    && not (r == adc_control2)
    && not (r == adc_control8)
    && not (r == adc_control9)

abbrev all_spare : List (ℕ × ℕ) → Bool
all_spare [] = true
all_spare (w ∷ ws) = is_spare w.0 && all_spare ws

module _ {E : Type 0} (answer : Bus → ℕ → ℕ → Result E (Unit {0})) (audio : AudioSettings) where
  write-keeps :
      (r v : ℕ)
      → is_spare r ≡ true
      → Triple answer (IsTuned audio) (IsTuned audio) (write answer r v) (IsTuned audio)
  unfolding register
  write-keeps r v spare =
      write-Triple answer (IsTuned audio) r v (λ bus set. ground (arith, spare)) (λ bus set. set)

  write_all-keeps :
      (ws : List (ℕ × ℕ))
      → all_spare ws ≡ true
      → Triple answer (IsTuned audio) (IsTuned audio) (write_all answer ws) (IsTuned audio)
  unfolding write_all
  write_all-keeps [] h = record { ends = λ bus set. set }
  write_all-keeps (w ∷ ws) h =
      let (first, rest) = &&-both (is_spare w.0) (all_spare ws) h in
      then-Triple answer (IsTuned audio) (write-keeps w.0 w.1 first) (write_all-keeps ws rest)

  route_writes-spare :
      (line input : ℕ) {output : ℕ × ℕ × ℕ}
      → passthrough_output {E = E} line ≡ ok output
      → all_spare ((dac_control3, 4) ∷ route_writes input output) ≡ true
  unfolding route_writes
  route_writes-spare line input e = elim (passthrough_output-cases answer line e) [
    | inl one ↦ rw one refl
    | inr two ↦ rw two refl
  ]

  delay_ms-keeps :
      (millis : ℕ)
      → Triple answer (IsTuned audio) (IsTuned audio) (delay_ms answer millis) (IsTuned audio)
  unfolding delay_ms register
  delay_ms-keeps millis = record { ends = λ bus set. set }

  -- Also an enable that failed has not changed the converter.
  pub enable_passthrough-keeps :
      (route : AnalogPassthroughRoute)
      → Triple answer
          (IsTuned audio)
          (IsTuned audio)
          (enable_passthrough answer route)
          (IsTuned audio)
  unfolding enable_passthrough
  enable_passthrough-keeps route =
      given-Triple answer (IsTuned audio) (passthrough_output route.output_line) _ (λ bus set. set)
        (λ output e.
          given-Triple answer (IsTuned audio) (passthrough_input_register route.input_line) _
            (λ bus set. set)
            (λ input f.
              then-Triple answer (IsTuned audio)
                (write_all-keeps ((dac_control3, 4) ∷ route_writes input output)
                  (route_writes-spare route.output_line input e))
                (then-Triple answer (IsTuned audio) (delay_ms-keeps 100)
                  (write-keeps dac_control3 0 refl))))
