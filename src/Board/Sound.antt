-- ===== src/Board/Sound.antt =====
-- What a board that passes validation is good for, said of its fields alone.
use esp32_streamline.Prelude.{
  ℕ, ◌≤◌, ◌<◌, ◌≡◌, ◌≢◌, ◌⊎◌, true, false, ok, List, [], ◌∷◌, ◌++◌, map, length, arith,
}
use esp32_streamline.Prelude.Bytes.{Text, text_eq, text_eq_refl}
use esp32_streamline.Board.{
  Board, PinMap, Led, Button, InputOption, is_output_gpio, is_gpio, has_gpio, has_line, has_led_id,
  has_button_id, validate_output_gpio, validate_input_gpio, validate_pins, validate_leds,
  validate_buttons, validate_gpios, validate_lines, gpios, validate, is_empty,
}

-- No element stands twice.
abbrev Differs {ℓ} : {A : Type ℓ} → A → List A → Type ℓ
Differs a [] = Unit
Differs a (b ∷ bs) = (b ≢ a) × Differs a bs

abbrev AreDistinct {ℓ} : {A : Type ℓ} → List A → Type ℓ
AreDistinct [] = Unit
AreDistinct (a ∷ rest) = Differs a rest × AreDistinct rest

-- The pads that can drive, and those that can read: 34 to 39 are inputs only.
abbrev IsDriver : ℕ → Type 0
IsDriver g = (g ≤ 5) ⊎ ((12 ≤ g) × (g ≤ 23)) ⊎ ((25 ≤ g) × (g ≤ 33))

abbrev IsPad : ℕ → Type 0
IsPad g = (g ≤ 5) ⊎ ((12 ≤ g) × (g ≤ 23)) ⊎ ((25 ≤ g) × (g ≤ 39))

-- The six pins of the codec, the one of each LED and the one of each button.
abbrev used : Board → List ℕ
used b =
    b.pins.sda
    ∷ b.pins.scl
    ∷ b.pins.mclk
    ∷ b.pins.bclk
    ∷ b.pins.ws
    ∷ b.pins.din
    ∷ (map (λ (l : Led). l.gpio) b.leds ++ map (λ (k : Button). k.gpio) b.buttons)

-- The data come in on the last pin, and the others go out.
abbrev PinsFit : PinMap → Type 0
PinsFit p =
    IsDriver p.sda
    × IsDriver p.scl
    × IsDriver p.mclk
    × IsDriver p.bclk
    × IsDriver p.ws
    × IsPad p.din

abbrev LedsFit : List Led → Type 0
LedsFit [] = Unit
LedsFit (l ∷ ls) = IsDriver l.gpio × (l.id ≢ []) × (l.label ≢ []) × LedsFit ls

abbrev ButtonsFit : List Button → Type 0
ButtonsFit [] = Unit
ButtonsFit (b ∷ bs) = IsPad b.gpio × (b.id ≢ []) × (b.label ≢ []) × ButtonsFit bs

abbrev LinesFit : List InputOption → Type 0
LinesFit [] = Unit
LinesFit (o ∷ os) = (o.label ≢ []) × LinesFit os

differing : (s t : Text) → text_eq s t ≡ false → s ≢ t
differing s t h e = ground (arith, e, text_eq_refl t)

filled : (s : Text) → is_empty s ≡ false → s ≢ []
filled [] h = cc
filled (c ∷ s) h = λ e. cc

drives : (g : ℕ) → is_output_gpio g ≡ true → IsDriver g
unfolding is_output_gpio
drives g h = ground arith

reads : (g : ℕ) → is_gpio g ≡ true → IsPad g
unfolding is_gpio
reads g h = ground arith

has_gpio-Differs : (g : ℕ) (gs : List ℕ) → has_gpio g gs ≡ false → Differs g gs
unfolding has_gpio
has_gpio-Differs g [] h = tt
has_gpio-Differs g (x ∷ gs) h = ground (arith, has_gpio-Differs g gs)

has_line-Differs :
    (line : ℕ) (os : List InputOption)
    → has_line line os ≡ false
    → Differs line (map (λ (o : InputOption). o.line) os)
unfolding has_line
has_line-Differs line [] h = tt
has_line-Differs line (o ∷ os) h = ground (arith, has_line-Differs line os)

has_led_id-Differs :
    (id : Text) (ls : List Led) → has_led_id id ls ≡ false → Differs id (map (λ (l : Led). l.id) ls)
unfolding has_led_id
has_led_id-Differs id [] h = tt
has_led_id-Differs id (l ∷ ls) h = ground (arith, differing l.id id, has_led_id-Differs id ls)

has_button_id-Differs :
    (id : Text) (bs : List Button)
    → has_button_id id bs ≡ false
    → Differs id (map (λ (b : Button). b.id) bs)
unfolding has_button_id
has_button_id-Differs id [] h = tt
has_button_id-Differs id (b ∷ bs) h = ground (arith, differing b.id id, has_button_id-Differs id bs)

gpios_distinct : (gs : List ℕ) → validate_gpios gs ≡ ok tt → AreDistinct gs
unfolding validate_gpios
gpios_distinct [] h = tt
gpios_distinct (g ∷ gs) h = ground (arith, has_gpio-Differs g gs, gpios_distinct gs)

pins_fit : (p : PinMap) → validate_pins p ≡ ok tt → PinsFit p
unfolding validate_pins validate_output_gpio validate_input_gpio
pins_fit p h =
    ground
      (arith, drives p.sda, drives p.scl, drives p.mclk, drives p.bclk, drives p.ws, reads p.din)

leds_fit :
    (ls : List Led)
    → validate_leds ls ≡ ok tt
    → LedsFit ls × AreDistinct (map (λ (l : Led). l.id) ls)
unfolding validate_leds validate_output_gpio
leds_fit [] h = (tt, tt)
leds_fit (l ∷ ls) h =
    ground
      (arith, drives l.gpio, filled l.id, filled l.label, has_led_id-Differs l.id ls, leds_fit ls)

buttons_fit :
    (bs : List Button)
    → validate_buttons bs ≡ ok tt
    → ButtonsFit bs × AreDistinct (map (λ (b : Button). b.id) bs)
unfolding validate_buttons validate_input_gpio
buttons_fit [] h = (tt, tt)
buttons_fit (b ∷ bs) h = ground (
  arith,
  reads b.gpio,
  filled b.id,
  filled b.label,
  has_button_id-Differs b.id bs,
  buttons_fit bs,
)

lines_fit :
    (os : List InputOption)
    → validate_lines os ≡ ok tt
    → LinesFit os × AreDistinct (map (λ (o : InputOption). o.line) os)
unfolding validate_lines
lines_fit [] h = (tt, tt)
lines_fit (o ∷ os) h = ground (arith, filled o.label, has_line-Differs o.line os, lines_fit os)

pub record IsSound (b : Board) : Type 0 where
  pins_distinct : AreDistinct (used b)
  pins_fit : PinsFit b.pins
  leds_fit : LedsFit b.leds × AreDistinct (map (λ (l : Led). l.id) b.leds)
  buttons_fit : ButtonsFit b.buttons × AreDistinct (map (λ (k : Button). k.id) b.buttons)
  lines_fit : LinesFit b.input_lines × AreDistinct (map (λ (o : InputOption). o.line) b.input_lines)
  few_leds : length b.leds ≤ 8
  few_buttons : length b.buttons ≤ 8
  gain_percent : b.input_gain_max ≤ 100
  address : b.codec.i2c_address < 128
  pub input : 0 < length b.input_lines

nonempty : (os : List InputOption) → is_empty os ≡ false → 0 < length os
nonempty [] h = ground arith
nonempty (o ∷ os) h = omega arith

-- A board that passes validation is fit in its pins, its LEDs, its buttons and its input lines.
pub validate-IsSound : (b : Board) → validate b ≡ ok tt → IsSound b
unfolding validate gpios
validate-IsSound b h = ground (
  arith,
  gpios_distinct (gpios b),
  pins_fit b.pins,
  leds_fit b.leds,
  buttons_fit b.buttons,
  lines_fit b.input_lines,
  nonempty b.input_lines,
)
