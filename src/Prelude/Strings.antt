-- ===== src/Prelude/Strings.antt =====
-- The operations of Rust's `str` that the code calls, on bytes.
use Prim.Native.Nat.{ℕ, ◌+◌, ◌-◌, ◌*◌}
use mathlib.Core.Bool.{Bool, ◌&&◌, ◌||◌}
use mathlib.Core.Option.{Option, none, some}
use mathlib.Core.List.{List, [], ◌∷◌, reverse}
use esp32_streamline.Prelude.Tests.{◌==◌, leb, if◌then◌else◌}
use esp32_streamline.Prelude.Words.{u32_mod}
use esp32_streamline.Prelude.Results.{and_then, is_some}
use esp32_streamline.Prelude.Bytes.{Text}

unfoldable pub strip_prefix : Text → Text → Option Text
strip_prefix [] s = some s
strip_prefix (p ∷ ps) [] = none
strip_prefix (p ∷ ps) (x ∷ xs) = if p == x then strip_prefix ps xs else none

-- A byte put back in front of the first part.
abbrev cons_first : ℕ → Option (Text × Text) → Option (Text × Text)
cons_first x none = none
cons_first x (some (a, b)) = some (x ∷ a, b)

abbrev split_here : Option Text → Option (Text × Text) → Option (Text × Text)
split_here (some rest) later = some ([], rest)
split_here none later = later

-- `split_once` at the first occurrence of a pattern that is not empty.
unfoldable pub split_once : Text → Text → Option (Text × Text)
unfolding strip_prefix
split_once pattern [] = none
split_once pattern (x ∷ xs) =
    split_here (strip_prefix pattern (x ∷ xs)) (cons_first x (split_once pattern xs))

-- From the end, the bytes of the suffix have to stand.
unfoldable pub strip_suffix : Text → Text → Option Text
unfolding strip_prefix
strip_suffix s suffix =
    and_then (strip_prefix (reverse suffix) (reverse s)) (λ rest. some (reverse rest))

unfoldable pub ends_with : Text → Text → Bool
unfolding strip_suffix
ends_with s suffix = is_some (strip_suffix s suffix)

-- The first part of a list of parts, with a byte in front.
abbrev cons_part : ℕ → List Text → List Text
cons_part x [] = (x ∷ []) ∷ []
cons_part x (p ∷ ps) = (x ∷ p) ∷ ps

-- `split` at one ASCII byte: always one part at least.
unfoldable pub split : ℕ → Text → List Text
split c [] = [] ∷ []
split c (x ∷ xs) = let rest = split c xs in if x == c then [] ∷ rest else cons_part x rest

-- `str::lines`: the parts between line feeds, where one carriage return goes with the line feed after
-- it, and without a last part that is empty.
without_return : Text → Text
without_return [] = []
without_return (x ∷ []) = if x == 13 then [] else x ∷ []
without_return (x ∷ y ∷ xs) = x ∷ without_return (y ∷ xs)

lines_of : List Text → List Text
unfolding without_return
lines_of [] = []
lines_of ([] ∷ []) = []
lines_of ((x ∷ xs) ∷ []) = (x ∷ xs) ∷ []
lines_of (p ∷ q ∷ ps) = without_return p ∷ lines_of (q ∷ ps)

unfoldable pub lines : Text → List Text
unfolding split lines_of
lines s = lines_of (split 10 s)

abbrev pub is_ascii_digit : ℕ → Bool
is_ascii_digit c = leb b'0' c && leb c b'9'

-- `u32::from_str`: a sign `+` may stand first, a digit has to follow, and the value has to fit.
unfoldable pub parse_digits : Text → ℕ → Option ℕ
parse_digits [] n = some n
parse_digits (c ∷ cs) n =
    let n' = n * 10 + (c - b'0') in
    let rest = parse_digits cs n' in if is_ascii_digit c && leb n' (u32_mod - 1) then rest else none

unfoldable pub parse_some_digits : Text → Option ℕ
unfolding parse_digits
parse_some_digits [] = none
parse_some_digits (c ∷ cs) = parse_digits (c ∷ cs) 0

unfoldable pub parse_u32 : Text → Option ℕ
unfolding parse_some_digits
parse_u32 [] = none
parse_u32 (c ∷ cs) = if c == b'+' then parse_some_digits cs else parse_some_digits (c ∷ cs)

abbrev pub to_ascii_lowercase : Text → Text
to_ascii_lowercase [] = []
to_ascii_lowercase (c ∷ cs) =
    (if leb b'A' c && leb c b'Z' then c + 32 else c) ∷ to_ascii_lowercase cs

abbrev pub is_ascii_hexdigit : ℕ → Bool
is_ascii_hexdigit c = is_ascii_digit c || (leb b'a' c && leb c b'f') || (leb b'A' c && leb c b'F')
