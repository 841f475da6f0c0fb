-- ===== src/Stream/Levels.antt =====
-- Level analysis of one captured packet (firmware/streamline/src/levels.rs).
use esp32_streamline.Prelude.{ℕ, ◌+◌, ◌-◌, ◌*◌, leb, ltb, ◌==◌, if◌then◌else◌, max, List, ◌∷◌}
use esp32_streamline.Prelude.Words.{u16_mod, add32, add64}

abbrev clip_threshold_abs : ℕ
clip_threshold_abs = 32760

pub record LevelStats : Type 0 where
  pub peak_left : ℕ
  pub peak_right : ℕ
  pub rms_left : ℕ
  pub rms_right : ℕ
  pub clipped : ℕ

-- `i16::from_le_bytes([lo, hi]).unsigned_abs()`: the magnitude of the two's complement value.
magnitude : ℕ → ℕ → ℕ
magnitude lo hi = let word = lo + hi * 256 in if ltb word 32768 then word else u16_mod - word

-- The variables of the loop. `sum_sq_*` and `frames` are u64, `clipped` is u32.
pub record Totals : Type 0 where
  pub peak_left : ℕ
  pub peak_right : ℕ
  sum_sq_left : ℕ
  sum_sq_right : ℕ
  pub clipped : ℕ
  pub frames : ℕ

no_totals : Totals
no_totals = record {
  peak_left = 0;
  peak_right = 0;
  sum_sq_left = 0;
  sum_sq_right = 0;
  clipped = 0;
  frames = 0;
}

abbrev clip_count : ℕ → ℕ
clip_count level = if leb clip_threshold_abs level then 1 else 0

add_frame : Totals → ℕ → ℕ → Totals
add_frame t left right = record {
  peak_left = max t.peak_left left;
  peak_right = max t.peak_right right;
  sum_sq_left = add64 t.sum_sq_left (left * left);
  sum_sq_right = add64 t.sum_sq_right (right * right);
  clipped = add32 (add32 t.clipped (clip_count left)) (clip_count right);
  frames = add64 t.frames 1;
}

-- `pcm.chunks_exact(4)`, which leaves an unfinished frame at the end out.
scan : Totals → List ℕ → Totals
unfolding add_frame magnitude
scan t (l0 ∷ l1 ∷ r0 ∷ r1 ∷ pcm) = scan (add_frame t (magnitude l0 l1) (magnitude r0 r1)) pcm
scan t _ = t

-- `(sum_sq as f64 / frames as f64).sqrt() as u16` is floating-point arithmetic: the parameter
-- `root_mean` of a sum of squares and a count that is not 0.
module _ (root_mean : ℕ → ℕ → ℕ) where
  pub rms : ℕ → ℕ → ℕ
  rms sum_sq frames = if frames == 0 then 0 else root_mean sum_sq frames

  abbrev pub analyze : List ℕ → LevelStats
  unfolding rms scan no_totals
  analyze pcm =
      let t = scan no_totals pcm in
      record {
        peak_left = t.peak_left;
        peak_right = t.peak_right;
        rms_left = rms t.sum_sq_left t.frames;
        rms_right = rms t.sum_sq_right t.frames;
        clipped = t.clipped;
      }
