-- ===== src/Button/Debounce.antt =====
-- The detector of button.rs reports the debounced presses of a history of polls, each once.
use esp32_streamline.Prelude.{
  ◌<◌, ◌≡◌, Bool, false, ◌&&◌, arith, if◌then◌else◌, refl, Option, none, some, List, [], ◌∷◌,
}
use esp32_streamline.Button.{PressDetector, new, update, bool_eq, was_released}

pub polls : PressDetector → List Bool → List Bool
polls d [] = []
polls d (p ∷ ps) = let (d', fired) = update d p in fired ∷ polls d' ps

abbrev agrees : Option Bool → Bool → Bool
agrees none p = false
agrees (some b) p = bool_eq p b

-- The specification: `before` is the poll before, `level` the last level that two polls in a row agreed on.
-- A press is reported where such a level is pressed and the one before it was released.
pub spec : Option Bool → Option Bool → List Bool → List Bool
spec before level [] = []
spec before level (p ∷ ps) =
    let agreed = agrees before p in
    (agreed && p && was_released level) ∷ spec (some p) (if agreed then some p else level) ps

-- What the detector's fields say of the polls so far.
abbrev Knows : Option Bool → Option Bool → PressDetector → Type 0
Knows none level d = (d.stable ≡ level) × (d.candidate ≡ false) × (d.held_polls ≡ 0)
Knows (some b) level d = (d.stable ≡ level) × (d.candidate ≡ b) × (0 < d.held_polls)

polls-spec_from :
    (d : PressDetector) (before level : Option Bool) (ps : List Bool)
    → Knows before level d
    → polls d ps ≡ spec before level ps
unfolding polls spec update
polls-spec_from d before level [] k = refl
polls-spec_from d none level (p ∷ ps) k =
    ground (arith, polls-spec_from (update d p).0 (some p) level ps)
polls-spec_from d (some b) level (p ∷ ps) k =
    ground
      (arith, polls-spec_from (update d p).0 (some p) (if bool_eq p b then some p else level) ps)

-- Over any history of polls the detector reports exactly the presses of the specification: a level that
-- two polls in a row agree on counts, and a press is reported where such a level is pressed and the one
-- before it was released.
pub polls-spec : (ps : List Bool) → polls new ps ≡ spec none none ps
unfolding new
polls-spec ps = polls-spec_from new none none ps (refl, refl, refl)
