-- ===== src/Button/Tests.antt =====
-- The polls of a button that bounces.
use esp32_streamline.Prelude.{◌≡◌, true, false, none, Bool, List, [], ◌∷◌}
use esp32_streamline.Button.{new}
use esp32_streamline.Button.Debounce.{polls, spec, polls-spec}

abbrev bouncing : List Bool
bouncing = false ∷ false ∷ true ∷ false ∷ true ∷ true ∷ true ∷ false ∷ false ∷ true ∷ true ∷ []

polls-spec_example : polls new bouncing ≡ spec none none bouncing
polls-spec_example = polls-spec bouncing
