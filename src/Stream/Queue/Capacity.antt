-- ===== src/Stream/Queue/Capacity.antt =====
-- No chunk of the packet queue grows past the capacity that it was allocated with.
use esp32_streamline.Prelude.{
  ℕ, zero, suc, ◌+◌, ◌/◌, ◌%◌, ◌<◌, ◌≤◌, ◌≡◌, refl, true, List, [], ◌∷◌, length, ◌==◌,
  if◌then◌else◌, arith, ==_iff,
}
use esp32_streamline.Prelude.Tables.{every_below, every_below_sound}
use esp32_streamline.Stream.Queue.{queue_depth, chunk_depth, chunk_count, PacketStorage, chunk}
use esp32_streamline.Stream.Queue.Storage.{slice, Holds}

-- How many of the `n` ring positions from `h` on lie in chunk `c`.
hits : ℕ → ℕ → ℕ → ℕ
hits c h zero = 0
hits c h (suc n) = (if (h / chunk_depth) == c then 1 else 0) + hits c ((h + 1) % queue_depth) n

length-slice : {T : Type 0} (c h : ℕ) (xs : List T) → length (slice c h xs) ≡ hits c h (length xs)
unfolding hits
length-slice c h [] = refl
length-slice c h (x ∷ xs) = ground (arith, length-slice c ((h + 1) % queue_depth) xs)

hits_mono : (c h m n : ℕ) → m ≤ n → hits c h m ≤ hits c h n
unfolding hits
hits_mono c h zero n le = omega arith
hits_mono c h (suc m) zero le = absurd (omega arith)
hits_mono c h (suc m) (suc n) le = omega (arith, hits_mono c ((h + 1) % queue_depth) m n)

-- A whole round of the ring meets each chunk eight times, from wherever it starts.
whole_round :
    every_below chunk_count
      (λ c. every_below queue_depth (λ h. hits c h queue_depth == chunk_depth))
    ≡ true
unfolding every_below hits
whole_round = refl

hits_round : (c h : ℕ) → c < chunk_count → h < queue_depth → hits c h queue_depth ≡ chunk_depth
hits_round c h lc lh = (==_iff _ _).0 (
    every_below_sound queue_depth (λ k. hits c k queue_depth == chunk_depth) h
      (every_below_sound chunk_count
        (λ d. every_below queue_depth (λ k. hits d k queue_depth == chunk_depth)) c whole_round lc)
      lh)

-- A storage that holds its packets keeps every chunk within `CHUNK_DEPTH`.
pub chunk-le-depth :
    {T : Type 0} (s : PacketStorage T) (xs : List T) (c : ℕ)
    → Holds s xs
    → c < chunk_count
    → length (chunk s.chunks c) ≤ chunk_depth
chunk-le-depth s xs c v lt = rw (v.held c lt) (
    omega (
      arith,
      length-slice c s.head xs,
      hits_round c s.head lt v.head_in,
      hits_mono c s.head (length xs) queue_depth v.room,
    ))
