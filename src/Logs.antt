-- ===== src/Logs.antt =====
-- The log buffer of firmware/streamline/src/logs.rs. `held` is `bytes[..filled]`: what stands beyond it is
-- never read. A buffer found in memory with `filled` above `N` is a list longer than `N`.
pub mod Accounts
mod Tests
use esp32_streamline.Prelude.{
  ℕ, zero, suc, ◌+◌, ◌-◌, ◌/◌, min, max, Bool, true, false, not, ◌&&◌, ◌||◌, Option, none, some,
  List, [], ◌∷◌, ◌++◌, length, take, drop, ltb, leb, ◌==◌, if◌then◌else◌,
}
use mathlib.Core.List.{reverse}
use esp32_streamline.Prelude.Words.{add64}
use esp32_streamline.Prelude.Bytes.{Text}
use esp32_streamline.Prelude.Strings.{split}

abbrev pub max_line_bytes : ℕ
max_line_bytes = 240

abbrev layout_tag : ℕ
layout_tag = 1280264241

pub record LogBuffer : Type 0 where
  pub layout : ℕ
  pub boot : ℕ
  pub next_sequence : ℕ
  pub dropped : ℕ
  pub held : List ℕ

unfoldable pub new : LogBuffer
new = record { layout = 0; boot = 0; next_sequence = 0; dropped = 0; held = [] }

pub reset : LogBuffer → ℕ → LogBuffer
reset b boot = record {
  layout = layout_tag;
  boot = boot;
  next_sequence = 0;
  dropped = 0;
  held = [];
}

-- `byte.is_ascii_control()`.
abbrev is_control : ℕ → Bool
is_control byte = leb byte 31 || (byte == 127)

-- Where `sanitize` stands: in text, after an escape byte, or in a control sequence.
pub data Mode : Type 0 where
  text escape sequence : Mode

-- The bytes kept. A control sequence ends with a byte in 0x40..=0x7e.
unfoldable pub scan : Mode → List ℕ → List ℕ
scan text [] = []
scan text (b ∷ bs) =
    let in_escape = scan escape bs in
    let in_text = scan text bs in
    if b == 27 then in_escape else (if is_control b then in_text else b ∷ in_text)
scan escape [] = []
scan escape (b ∷ bs) =
    let in_sequence = scan sequence bs in
    let in_escape = scan escape bs in
    let in_text = scan text bs in
    if b == b'['
    then in_sequence
    else (if b == 27 then in_escape else (if is_control b then in_text else b ∷ in_text))
scan sequence [] = []
scan sequence (b ∷ bs) =
    let in_sequence = scan sequence bs in
    let in_text = scan text bs in if leb 64 b && leb b 126 then in_text else in_sequence

-- Spaces at the end are cut.
abbrev pub cons_trimmed : ℕ → List ℕ → List ℕ
cons_trimmed b [] = if b == b' ' then [] else b ∷ []
cons_trimmed b (c ∷ bs) = b ∷ c ∷ bs

pub trim_end : List ℕ → List ℕ
trim_end [] = []
trim_end (b ∷ []) = if b == b' ' then [] else b ∷ []
trim_end (b ∷ c ∷ bs) = cons_trimmed b (trim_end (c ∷ bs))

pub sanitize : List ℕ → List ℕ
unfolding scan trim_end
sanitize raw = trim_end (take max_line_bytes (scan text raw))

-- The newlines of `stored()`.
abbrev pub newlines : List ℕ → ℕ
newlines [] = 0
newlines (b ∷ bs) = (if b == 10 then 1 else 0) + newlines bs

abbrev pub ends_open : List ℕ → Bool
ends_open [] = false
ends_open (b ∷ []) = not (b == 10)
ends_open (b ∷ c ∷ bs) = ends_open (c ∷ bs)

-- From the first newline on, it is left out; all without one.
abbrev pub drop_line : List ℕ → List ℕ
drop_line [] = []
drop_line (b ∷ bs) = let rest = drop_line bs in if b == 10 then bs else rest

abbrev before_newline : List ℕ → ℕ
before_newline [] = 0
before_newline (b ∷ bs) = let rest = before_newline bs in if b == 10 then 0 else rest + 1

-- The loop of `evict`, with the lines that it drops.
pub evict_lines : ℕ → ℕ → List ℕ → ℕ → List ℕ × ℕ
evict_lines zero keep_below rest dropped = (rest, dropped)
evict_lines (suc fuel) keep_below rest dropped =
    let further = evict_lines fuel keep_below (drop_line rest) (add64 dropped 1) in
    if ltb keep_below (length rest) then further else (rest, dropped)

module _ (N : ℕ) where
  abbrev eviction_bytes : ℕ
  eviction_bytes = N / 4

  pub stored : LogBuffer → List ℕ
  stored b = take N b.held

  pub is_open : LogBuffer → Bool
  is_open b = ends_open (take N b.held)

  stored_line_count : LogBuffer → ℕ
  unfolding stored is_open
  stored_line_count b = newlines (stored b) + (if is_open b then 1 else 0)

  unfoldable is_intact : LogBuffer → Bool
  unfolding stored_line_count
  is_intact b =
      (b.layout == layout_tag) && leb (length b.held) N && leb (stored_line_count b) b.next_sequence

  unfoldable first_sequence : LogBuffer → ℕ
  unfolding stored_line_count
  first_sequence b = b.next_sequence - stored_line_count b

  -- After the last newline: from the end, the bytes up to it.
  pub open_length : LogBuffer → ℕ
  unfolding stored
  open_length b = before_newline (reverse (stored b))

  -- Each turn of the loop drops a byte at least, so the fuel is enough.
  pub evict : LogBuffer → LogBuffer
  unfolding evict_lines
  evict b =
      let keep_below = N - max eviction_bytes 1 in
      let (rest, dropped) = evict_lines (length b.held) keep_below b.held b.dropped in
      record b { held = rest; dropped = dropped }

  -- `while self.filled as usize + length + 1 > N { self.evict(); }`.
  unfoldable pub make_room : ℕ → LogBuffer → ℕ → LogBuffer
  unfolding evict
  make_room zero b length_ = b
  make_room (suc fuel) b length_ =
      let further = make_room fuel (evict b) length_ in
      if ltb N (length b.held + length_ + 1) then further else b

  unfoldable pub write : LogBuffer → List ℕ → LogBuffer
  unfolding is_open
  write b segment = record b {
    held = b.held ++ segment;
    next_sequence = if is_open b then b.next_sequence else add64 b.next_sequence 1;
  }

  unfoldable pub extend : LogBuffer → List ℕ → LogBuffer
  unfolding sanitize open_length make_room write
  extend b raw =
      let segment = sanitize raw in
      let length_ = min (length segment) (max_line_bytes - open_length b) in
      if length_ == 0 then b else write (make_room 2 b length_) (take length_ segment)

  pub terminate : LogBuffer → LogBuffer
  unfolding is_open
  terminate b = if is_open b then record b { held = b.held ++ 10 ∷ [] } else b

  pub append_rest : LogBuffer → List (List ℕ) → LogBuffer
  unfolding extend terminate
  append_rest b [] = b
  append_rest b (segment ∷ segments) = append_rest (extend (terminate b) segment) segments

  pub append_segments : LogBuffer → List (List ℕ) → LogBuffer
  unfolding append_rest
  append_segments b [] = b
  append_segments b (first ∷ segments) = append_rest (extend b first) segments

  pub append : LogBuffer → List ℕ → LogBuffer
  unfolding append_segments split
  append b chunk = append_segments b (split 10 chunk)

  copied : LogBuffer → List ℕ → ℕ → LogBuffer
  copied b kept passed = record {
    layout = layout_tag;
    boot = b.boot;
    next_sequence = b.next_sequence;
    dropped = add64 b.dropped passed;
    held = kept;
  }

  -- Into a buffer of capacity `M`, which the call resets first: `destination` has nothing of its own
  -- left. A tail without a newline keeps nothing, as `drop_line` of it.
  pub copy_into : ℕ → LogBuffer → LogBuffer
  unfolding stored copied
  copy_into M b =
      let bytes = stored b in
      let kept = drop_line (drop (length bytes - M) bytes) in
      if ltb (length bytes) M
      then copied b bytes 0
      else copied b kept (newlines bytes - newlines kept)
