-- ===== src/Stream/Queue/Refine.antt =====
-- The chunked ring behaves as a plain list of at most 48 packets that drops its oldest when it is full.
use esp32_streamline.Prelude.{
  ℕ, zero, suc, ◌+◌, ◌<◌, ◌≤◌, ◌≡◌, refl, ap, ap₂, Bool, true, false, Option, none, some, List, [],
  ◌∷◌, ◌++◌, length, length-append, ◌==◌, if◌then◌else◌, arith, replicate, get_or,
}
use native.Mathlib.Decide.{dec_lt}
use esp32_streamline.Stream.Queue.{
  queue_depth, chunk_depth, chunk_count, PacketStorage, chunk, pop_front, new_storage,
  push_drop_oldest, suspend, resume, pop, without_front,
}
use esp32_streamline.Stream.Queue.Storage.{Holds, pop_front-Holds, pop_front-empty, push_back-Holds}
use esp32_streamline.Stream.Queue.Capacity.{chunk-le-depth}

pub data Call (T : Type 0) : Type 0 where
  pushes : T → Call T
  pops suspends resumes : Call T

pub data Reply (T : Type 0) : Type 0 where
  pushed : Bool → ℕ → Reply T
  popped : Option (T × ℕ) → Reply T
  done : Reply T

module _ {T : Type 0} where
  -- The specification: `none` while suspended.
  spec_step : Option (List T) → Call T → Option (List T) × Reply T
  spec_step none (pushes x) = (none, pushed false 0)
  spec_step (some xs) (pushes x) =
      if length xs == queue_depth
      then (some (without_front xs ++ x ∷ []), pushed true queue_depth)
      else (some (xs ++ x ∷ []), pushed false (length xs + 1))
  spec_step none pops = (none, popped none)
  spec_step (some []) pops = (some [], popped none)
  spec_step (some (x ∷ xs)) pops = (some xs, popped (some (x, length xs)))
  spec_step q suspends = (none, done)
  spec_step none resumes = (some [], done)
  spec_step (some xs) resumes = (some xs, done)

  unfoldable pub step : Option (PacketStorage T) → Call T → Option (PacketStorage T) × Reply T
  step q (pushes x) = let (q', dropped, depth) = push_drop_oldest q x in (q', pushed dropped depth)
  step q pops = let (q', packet) = pop q in (q', popped packet)
  step q suspends = (suspend q, done)
  step q resumes = (resume q, done)

  unfoldable pub run : Option (PacketStorage T) → List (Call T) → List (Reply T)
  run q [] = []
  run q (c ∷ cs) = let (q', r) = step q c in r ∷ run q' cs

  pub spec_run : Option (List T) → List (Call T) → List (Reply T)
  spec_run q [] = []
  spec_run q (c ∷ cs) = let (q', r) = spec_step q c in r ∷ spec_run q' cs

  abbrev Stands : Option (PacketStorage T) → Option (List T) → Type 0
  Stands none none = Unit
  Stands (some s) (some xs) = Holds s xs
  Stands none (some xs) = ⊥
  Stands (some s) none = ⊥

  push_room :
      (s : PacketStorage T) (xs : List T) (x : T)
      → length xs < queue_depth
      → Holds s xs
      → Stands (step (some s) (pushes x)).0 (spec_step (some xs) (pushes x)).0
        × ((step (some s) (pushes x)).1 ≡ (spec_step (some xs) (pushes x)).1)
  unfolding step spec_step push_drop_oldest
  push_room s xs x lt v =
      let e : (s.len == queue_depth) ≡ false = ground arith in
      let f : (length xs == queue_depth) ≡ false = ground arith in
      let w = push_back-Holds s x xs lt v in
      rw (e, f) (w, ap (pushed false) (omega (arith, w.len_is, length-append xs (x ∷ []))))

  push_full :
      (s : PacketStorage T) (y : T) (ys : List T) (x : T)
      → suc (length ys) ≡ queue_depth
      → Holds s (y ∷ ys)
      → Stands (step (some s) (pushes x)).0 (spec_step (some (y ∷ ys)) (pushes x)).0
        × ((step (some s) (pushes x)).1 ≡ (spec_step (some (y ∷ ys)) (pushes x)).1)
  unfolding step spec_step push_drop_oldest
  push_full s y ys x n v =
      let e : (s.len == queue_depth) ≡ true = ground arith in
      let f : (suc (length ys) == queue_depth) ≡ true = ground arith in
      let w = push_back-Holds (pop_front s).0 x ys (omega arith) (pop_front-Holds s y ys v).0 in
      rw (e, f) (w, ap (pushed true) (omega (arith, w.len_is, length-append ys (x ∷ []))))

  push_step :
      (s : PacketStorage T) (xs : List T) (x : T)
      → Holds s xs
      → Stands (step (some s) (pushes x)).0 (spec_step (some xs) (pushes x)).0
        × ((step (some s) (pushes x)).1 ≡ (spec_step (some xs) (pushes x)).1)
  push_step s [] x v = push_room s [] x (omega arith) v
  push_step s (y ∷ ys) x v = elim (dec_lt (suc (length ys)) queue_depth) [
    | yes lt ↦ push_room s (y ∷ ys) x lt v
    | no ge ↦ push_full s y ys x (omega (arith, v.room)) v
  ]

  pop_step :
      (s : PacketStorage T) (xs : List T)
      → Holds s xs
      → Stands (step (some s) pops).0 (spec_step (some xs) pops).0
        × ((step (some s) pops).1 ≡ (spec_step (some xs) pops).1)
  unfolding step spec_step pop
  pop_step s [] v = rw (pop_front-empty s v.len_is, step, pop) (v, refl)
  pop_step s (x ∷ xs) v =
      let (w, e) = pop_front-Holds s x xs v in
      rw (e, step, pop) (w, ap (λ n. popped (some (x, n))) w.len_is)

get_or-replicate_nil : (T : Type 0) (n c : ℕ) → get_or (replicate {A = List T} n []) c [] ≡ []
get_or-replicate_nil T zero c = refl
get_or-replicate_nil T (suc n) zero = refl
get_or-replicate_nil T (suc n) (suc c) = get_or-replicate_nil T n c

pub new-Holds : (T : Type 0) → Holds (new_storage T) []
unfolding new_storage
new-Holds T = record {
  shape = refl;
  head_in = omega arith;
  len_is = refl;
  room = omega arith;
  held = λ c _. get_or-replicate_nil T chunk_count c;
}

module _ {T : Type 0} where
  -- One call on the storage does what the specification does: the same reply, and storage that stands for
  -- the specification's next state.
  queue-step_refines :
      (q : Option (PacketStorage T)) (m : Option (List T)) (c : Call T)
      → Stands q m
      → Stands (step q c).0 (spec_step m c).0 × ((step q c).1 ≡ (spec_step m c).1)
  unfolding step spec_step push_drop_oldest pop suspend resume
  queue-step_refines none none (pushes x) h = (tt, refl)
  queue-step_refines none none pops h = (tt, refl)
  queue-step_refines none none suspends h = (tt, refl)
  queue-step_refines none none resumes h = (new-Holds T, refl)
  queue-step_refines none (some xs) c h = absurd h
  queue-step_refines (some s) none c h = absurd h
  queue-step_refines (some s) (some xs) (pushes x) h = push_step s xs x h
  queue-step_refines (some s) (some xs) pops h = pop_step s xs h
  queue-step_refines (some s) (some xs) suspends h = (tt, refl)
  queue-step_refines (some s) (some xs) resumes h = (h, refl)

  -- On storage that stands for a list, or is suspended with it, any sequence of calls gives the replies of
  -- the specification: a list of at most 48 packets that drops its oldest when a packet finds it full.
  queue-run_refines :
      (q : Option (PacketStorage T)) (m : Option (List T)) (cs : List (Call T))
      → Stands q m
      → run q cs ≡ spec_run m cs
  unfolding run spec_run
  queue-run_refines q m [] h = refl
  queue-run_refines q m (c ∷ cs) h =
      let (w, e) = queue-step_refines q m c h in
      ap₂ ◌∷◌ e (queue-run_refines (step q c).0 (spec_step m c).0 cs w)

  unfoldable pub after : Option (PacketStorage T) → List (Call T) → Option (PacketStorage T)
  after q [] = q
  after q (c ∷ cs) = after (step q c).0 cs

  after-Stands :
      (q : Option (PacketStorage T)) (m : Option (List T)) (cs : List (Call T))
      → Stands q m
      → (n : Option (List T)) × Stands (after q cs) n
  unfolding after
  after-Stands q m [] h = (m, h)
  after-Stands q m (c ∷ cs) h =
      after-Stands (step q c).0 (spec_step m c).0 cs (queue-step_refines q m c h).0

  -- Depth and chunks within what was allocated.
  abbrev pub IsWithin : Option (PacketStorage T) → Type 0
  IsWithin none = Unit
  IsWithin (some s) =
      (s.len ≤ queue_depth) × ((c : ℕ) → c < chunk_count → length (chunk s.chunks c) ≤ chunk_depth)

  IsWithin-of_Stands :
      (q : Option (PacketStorage T)) (m : Option (List T)) → Stands q m → IsWithin q
  IsWithin-of_Stands none m h = tt
  IsWithin-of_Stands (some s) none h = absurd h
  IsWithin-of_Stands (some s) (some xs) h =
      (omega (arith, h.len_is, h.room), λ c lt. chunk-le-depth s xs c h lt)

  -- After any calls on a storage that stands for a queue, no chunk holds more packets than it was
  -- allocated for, and the depth is at most 48.
  after-IsWithin :
      (q : Option (PacketStorage T)) (m : Option (List T)) (cs : List (Call T))
      → Stands q m
      → IsWithin (after q cs)
  after-IsWithin q m cs h = let (n, w) = after-Stands q m cs h in IsWithin-of_Stands _ n w

  -- On storage that stands for a list, or is suspended with it, any sequence of calls gives the replies of
  -- the specification: a list of at most 48 packets that drops its oldest when a packet finds it full.
  -- And after it no chunk holds more packets than it was allocated for, and the depth is at most 48.
  pub queue_refines :
      (q : Option (PacketStorage T)) (m : Option (List T)) (cs : List (Call T))
      → Stands q m
      → (run q cs ≡ spec_run m cs) × IsWithin (after q cs)
  queue_refines q m cs h = (queue-run_refines q m cs h, after-IsWithin q m cs h)
