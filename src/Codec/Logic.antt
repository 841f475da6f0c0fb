-- ===== src/Codec/Logic.antt =====
-- What a call of the driver ensures, piece by piece: `Triple I P action Q` says that from a bus with `P` the
-- action ends with `Q`, or with an error and `I`.
use esp32_streamline.Prelude.{
  ℕ, Option, none, some, Result, ok, err, [], ◌∷◌, ◌≡◌, refl, ◌==◌, if◌then◌else◌, Result-cases,
  inl, inr,
}
use esp32_streamline.Codec.{Bus, wrote, failed, waited, CodecFault}
use esp32_streamline.Codec.Driver
use esp32_streamline.Codec.Driver.{Outcome, write_all, write, proceed, logged, given}

-- What a register holds: the value of the last write that succeeded.
unfoldable pub register : ℕ → Bus → Option ℕ
register r [] = none
register r (wrote r' v ∷ past) = let before = register r past in if r' == r then some v else before
register r (failed _ _ ∷ past) = register r past
register r (waited _ ∷ past) = register r past

-- After a result: the end of what went well, or what holds even after an error.
abbrev pub Ends : {E : Type 0} → (Bus → Type 0) → (Bus → Type 0) → Bus → Outcome E → Type 0
Ends I Q bus (ok _) = Q bus
Ends I Q bus (err _) = I bus

module _ {E : Type 0} (answer : Bus → ℕ → ℕ → Result E (Unit {0})) (I : Bus → Type 0) where
  pub record Triple (P : Bus → Type 0) (action : Bus → Bus × Outcome E) (Q : Bus → Type 0)
      : Type 0 where
    pub ends : (bus : Bus) → P bus → Ends I Q (action bus).0 (action bus).1

  proceed-Ends :
      {Q : Bus → Type 0} (S : Bus → Type 0) (bus : Bus) (result : Outcome E)
      (next : Bus → Bus × Outcome E)
      → Ends I Q bus result
      → Triple Q next S
      → Ends I S (proceed answer bus result next).0 (proceed answer bus result next).1
  proceed-Ends S bus (ok _) next first second = second.ends bus first
  proceed-Ends S bus (err _) next first second = first

  pub pre-Triple :
      {P R Q : Bus → Type 0} {action : Bus → Bus × Outcome E}
      → ((bus : Bus) → P bus → R bus)
      → Triple R action Q
      → Triple P action Q
  pre-Triple stronger f = record { ends = λ bus p. f.ends bus (stronger bus p) }

  -- One action after the other.
  pub then-Triple :
      {P Q S : Bus → Type 0} {first second : Bus → Bus × Outcome E}
      → Triple P first Q
      → Triple Q second S
      → Triple P (Driver.◌then◌ answer first second) S
  then-Triple {P} {Q} {S} {first} {second} f g = record {
    ends = λ bus p. proceed-Ends S (first bus).0 (first bus).1 second (f.ends bus p) g;
  }

  pub given-Triple :
      {A : Type 0} {P Q : Bus → Type 0} (value : Result (CodecFault E) A)
      (next : A → Bus → Bus × Outcome E)
      → ((bus : Bus) → P bus → I bus)
      → ((a : A) → value ≡ ok a → Triple P (next a) Q)
      → Triple P (given answer value next) Q
  given-Triple (ok a) next weaker then_next = then_next a refl
  given-Triple (err _) next weaker then_next = record { ends = weaker }

  pub write-Triple :
      {P Q : Bus → Type 0} (r v : ℕ)
      → ((bus : Bus) → P bus → Q (wrote r v ∷ bus))
      → ((bus : Bus) → P bus → I (failed r v ∷ bus))
      → Triple P (write answer r v) Q
  unfolding write
  write-Triple r v succeeds fails = record {
    ends = λ bus p. elim (Result-cases (answer bus r v)) [
      | inl (a, e) ↦ rw e (succeeds bus p)
      | inr (f, e) ↦ rw e (fails bus p)
    ];
  }

-- What holds in every case.
pub Ends-both :
    {E : Type 0} (I : Bus → Type 0) (bus : Bus) (result : Outcome E) → Ends I I bus result → I bus
Ends-both I bus (ok _) both = both
Ends-both I bus (err _) both = both
