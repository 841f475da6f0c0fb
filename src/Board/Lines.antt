-- ===== src/Board/Lines.antt =====
-- Input lines: the factory default and the next line of a button press are lines of the board.
use esp32_streamline.Prelude.{
  ℕ, zero, suc, ◌+◌, ◌%◌, ◌<◌, ◌≡◌, true, refl, ap, Bool-cases, ◌==◌, ◌++◌, inl, inr, ok, List, [],
  ◌∷◌, length, get_or, arith, Option, none, some, refl,
}
use esp32_streamline.Board.{
  Board, InputOption, validate, accepts_line, default_line, has_line, position, lines,
  next_input_line, line_after, default_line,
}
use esp32_streamline.Board.Sound.{IsSound, validate-IsSound}

has_line-get_or :
    (os : List InputOption) (i : ℕ) → i < length os → has_line (get_or (lines os) i 0) os ≡ true
unfolding has_line
has_line-get_or [] i h = absurd (omega arith)
has_line-get_or (o ∷ os) zero h = ground arith
has_line-get_or (o ∷ os) (suc i) h = ground (arith, has_line-get_or os i)

next_in_bounds : (i n : ℕ) → 0 < n → (i + 1) % n < n
next_in_bounds i n h = omega arith

selects :
    (os : List InputOption) (r : Option ℕ) → 0 < length os → has_line (line_after os r) os ≡ true
unfolding line_after
selects os none h = has_line-get_or os 0 h
selects os (some i) h = has_line-get_or os ((i + 1) % length os) (next_in_bounds i (length os) h)

-- On a board that passes validation a press selects a line of the board, from whatever line is current.
accepts_line-next_input_line :
    (b : Board) (current : ℕ)
    → validate b ≡ ok tt
    → accepts_line b (next_input_line b current) ≡ true
unfolding accepts_line next_input_line
accepts_line-next_input_line b current v =
    selects b.input_lines (position current b.input_lines) (validate-IsSound b v).input

default_of :
    (os : List InputOption)
    → 0 < length os
    → (o : InputOption) × (rest : List InputOption) × (os ≡ o ∷ rest)
default_of [] h = absurd (omega arith)
default_of (o ∷ os) h = (o, os, refl)

-- A board that passes validation has a default line, and that is one of its lines.
pub accepts_line-default_line :
    (b : Board)
    → validate b ≡ ok tt
    → (line : ℕ) × (default_line b ≡ some line) × (accepts_line b line ≡ true)
unfolding accepts_line default_line has_line
accepts_line-default_line b v =
    let (o, rest, e) = default_of b.input_lines (validate-IsSound b v).input in
    (o.line, ground (arith, e), ground (arith, e))

-- An input of the board has this line.
abbrev pub IsLine : ℕ → List InputOption → Type 0
IsLine line os =
    (before after : List InputOption) × (o : InputOption) × (os ≡ before ++ o ∷ after)
    × (o.line ≡ line)

has_line-IsLine : (line : ℕ) (os : List InputOption) → has_line line os ≡ true → IsLine line os
unfolding has_line
has_line-IsLine line [] h = cc
has_line-IsLine line (o ∷ os) h = elim (Bool-cases (o.line == line)) [
  | inl here ↦ ([], os, o, refl, ground (arith, here))
  | inr other ↦
      let (before, after, found, e, same) = has_line-IsLine line os (ground (arith, h, other)) in
      (o ∷ before, after, found, ap (λ rest. o ∷ rest) e, same)
]

-- On a board that passes validation, no GPIO stands twice among the six pins of the codec, those of the LEDs and
-- those of the buttons; the five pins that go out and the LEDs are on pads that can drive, and the data pin and
-- the buttons on pads of the chip; the ids of LEDs, those of buttons, and the input lines have no repetition,
-- the ids and labels of these are not empty; there are at most eight LEDs and eight buttons, the gain is a
-- percentage, the codec's address has seven bits, and there is an input line. And a press selects the line of
-- one of its inputs, from whatever line is current.
pub validate_lem :
    (b : Board) (current : ℕ)
    → validate b ≡ ok tt
    → IsSound b × IsLine (next_input_line b current) b.input_lines
unfolding accepts_line
validate_lem b current v = (
  validate-IsSound b v,
  has_line-IsLine (next_input_line b current) b.input_lines
      (accepts_line-next_input_line b current v),
)
