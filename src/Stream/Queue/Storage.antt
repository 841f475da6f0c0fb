-- ===== src/Stream/Queue/Storage.antt =====
-- What the chunked storage holds: the packets of a window of the ring, chunk by chunk.
use esp32_streamline.Prelude.{
  ℕ, zero, suc, ◌+◌, ◌/◌, ◌%◌, ◌<◌, ◌≤◌, ◌≡◌, ◌≢◌, refl, ap, ◌∙◌, none, some, List, [], ◌∷◌, ◌++◌,
  get_or, set, length, length-set, length-append, ◌==◌, if◌then◌else◌, arith,
}
use mathlib.Core.List.{append-nil}
use esp32_streamline.Stream.Queue.{
  queue_depth, chunk_depth, chunk_count, without_front, PacketStorage, chunk, pop_front, push_back,
}

module _ {T : Type 0} where
  -- Of packets at the ring positions from `h` on, those of chunk `c`, oldest first.
  abbrev pub slice : ℕ → ℕ → List T → List T
  slice c h [] = []
  slice c h (x ∷ xs) =
      let rest = slice c ((h + 1) % queue_depth) xs in
      if (h / chunk_depth) == c then x ∷ rest else rest

  get_or-set_self :
      (cs : List (List T)) (i : ℕ) (v : List T) → i < length cs → get_or (set cs i v) i [] ≡ v
  get_or-set_self [] i v h = absurd (omega arith)
  get_or-set_self (x ∷ xs) zero v h = refl
  get_or-set_self (x ∷ xs) (suc i) v h = get_or-set_self xs i v (omega arith)

  get_or-set_ne :
      (cs : List (List T)) (i j : ℕ) (v : List T)
      → i ≢ j
      → get_or (set cs i v) j [] ≡ get_or cs j []
  get_or-set_ne [] i j v h = refl
  get_or-set_ne (x ∷ xs) zero zero v h = absurd (h refl)
  get_or-set_ne (x ∷ xs) zero (suc j) v h = refl
  get_or-set_ne (x ∷ xs) (suc i) zero v h = refl
  get_or-set_ne (x ∷ xs) (suc i) (suc j) v h = get_or-set_ne xs i j v (λ e. h (ap suc e))

  -- The storage holds the packets `xs`, oldest first.
  pub record Holds (s : PacketStorage T) (xs : List T) : Type 0 where
    pub shape : length s.chunks ≡ chunk_count
    pub head_in : s.head < queue_depth
    pub len_is : s.len ≡ length xs
    pub room : length xs ≤ queue_depth
    pub held : (c : ℕ) → c < chunk_count → chunk s.chunks c ≡ slice c s.head xs

  slice-append :
      (c h : ℕ) (xs : List T) (x : T)
      → h < queue_depth
      → slice c h (xs ++ x ∷ [])
        ≡ slice c h xs
          ++ (if ((h + length xs) % queue_depth / chunk_depth) == c then x ∷ [] else [])
  slice-append c h [] x lt = let e : (h + 0) % queue_depth ≡ h = omega arith in rw e
  slice-append c h (y ∷ xs) x lt =
      let e : (h + suc (length xs)) % queue_depth
          ≡ ((h + 1) % queue_depth + length xs) % queue_depth =
        omega arith in
      rw e (ground (arith, slice-append c ((h + 1) % queue_depth) xs x))

  pub pop_front-Holds :
      (s : PacketStorage T) (x : T) (xs : List T)
      → Holds s (x ∷ xs)
      → Holds (pop_front s).0 xs × ((pop_front s).1 ≡ some x)
  unfolding pop_front
  pop_front-Holds s x xs v = (
    record {
      shape = ground (
        arith,
        length-set s.chunks (s.head / chunk_depth)
            (without_front (chunk s.chunks (s.head / chunk_depth))),
      );
      head_in = ground arith;
      len_is = ground arith;
      room = omega arith;
      held = λ c lt. ground (
        arith,
        v.held c lt,
        v.held (s.head / chunk_depth) (omega arith),
        get_or-set_self s.chunks (s.head / chunk_depth)
            (without_front (chunk s.chunks (s.head / chunk_depth))) (omega arith),
        get_or-set_ne s.chunks (s.head / chunk_depth) c
            (without_front (chunk s.chunks (s.head / chunk_depth))),
      );
    },
    ground (arith, v.held (s.head / chunk_depth) (omega arith)),
  )

  pub push_back-Holds :
      (s : PacketStorage T) (x : T) (xs : List T)
      → length xs < queue_depth
      → Holds s xs
      → Holds (push_back s x) (xs ++ x ∷ [])
  unfolding push_back
  push_back-Holds s x xs h v = record {
    shape = length-set s.chunks _ _ ∙ v.shape;
    head_in = v.head_in;
    len_is = omega (arith, v.len_is, length-append xs (x ∷ []));
    room = omega (arith, length-append xs (x ∷ []));
    held = λ c lt.
        let i = (s.head + s.len) % queue_depth / chunk_depth in
        ground (
          arith,
          v.held c lt,
          slice-append c s.head xs x,
          get_or-set_self s.chunks i (chunk s.chunks i ++ x ∷ []) (omega arith),
          get_or-set_ne s.chunks i c (chunk s.chunks i ++ x ∷ []),
          append-nil (slice c s.head xs),
        );
  }

  pub pop_front-empty : (s : PacketStorage T) → s.len ≡ 0 → pop_front s ≡ (s, none)
  unfolding pop_front
  pop_front-empty s e = ground arith
