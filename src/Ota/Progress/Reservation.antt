-- ===== src/Ota/Progress/Reservation.antt =====
-- Concurrent requests for an update: at most one of them gets the worker.
use esp32_streamline.Prelude.{
  ℕ, zero, suc, ◌+◌, ◌≤◌, ◌≡◌, refl, ap, Bool, true, false, Bool-cases, List, [], ◌∷◌, ◌==◌,
  replicate, ◌⊎◌, inl, inr, if◌then◌else◌, arith,
}
use esp32_streamline.Ota.Progress.{
  Phase, is_busy, from_u8, checking, idle, up_to_date, downloading, verifying, installed, failed,
  update_available, OtaProgress, Begin, read, answered, begin_check, begin_load, begin_exchange,
  set_phase,
}

-- A request that has not called yet, or stands in `begin`, or was answered; `answered true` owns the
-- worker.
pub data Caller : Type 0 where
  calls : Caller
  within : Begin → Caller

-- Its next atomic operation.
advance : OtaProgress → Caller → OtaProgress × Caller
unfolding begin_load begin_exchange
advance p calls = (p, within (begin_load p))
advance p (within (answered granted)) = (p, within (answered granted))
advance p (within (read current)) = let (p', c) = begin_exchange p current in (p', within c)

-- The owner's worker sets a phase, and gives the worker up with a phase that is not busy.
work : OtaProgress → Phase → Caller → OtaProgress × Caller
unfolding set_phase
work p phase (within (answered true)) = (set_phase p phase, within (answered (is_busy phase)))
work p phase c = (p, c)

pub data Action : Type 0 where
  advances : ℕ → Action
  works : ℕ → Phase → Action

-- An operation of the caller at a position.
pub at :
    ℕ
    → (OtaProgress → Caller → OtaProgress × Caller)
    → OtaProgress
    → List Caller
    → OtaProgress × List Caller
at i f p [] = (p, [])
at zero f p (c ∷ cs) = let (p', c') = f p c in (p', c' ∷ cs)
at (suc i) f p (c ∷ cs) = let (p', cs') = at i f p cs in (p', c ∷ cs')

take_turn : OtaProgress × List Caller → Action → OtaProgress × List Caller
unfolding at advance work
take_turn (p, cs) (advances i) = at i advance p cs
take_turn (p, cs) (works i phase) = at i (λ q c. work q phase c) p cs

unfoldable pub run : OtaProgress × List Caller → List Action → OtaProgress × List Caller
unfolding take_turn
run world [] = world
run world (a ∷ rest) = run (take_turn world a) rest

abbrev count : Bool → ℕ
count b = if b then 1 else 0

abbrev owns : Caller → ℕ
owns (within (answered true)) = 1
owns c = 0

abbrev pub owners : List Caller → ℕ
owners [] = 0
owners (c ∷ cs) = owns c + owners cs

abbrev busy : OtaProgress → ℕ
busy p = count (is_busy (from_u8 p.phase))

-- What was read was not busy.
abbrev IsFree : Caller → Type 0
IsFree (within (read current)) = is_busy (from_u8 current) ≡ false
IsFree c = Unit

abbrev AreFree : List Caller → Type 0
AreFree [] = Unit
AreFree (c ∷ cs) = IsFree c × AreFree cs

begin_check-IsFree : (v : ℕ) → IsFree (within (begin_check v)) × (owns (within (begin_check v)) ≡ 0)
unfolding begin_check
begin_check-IsFree v = elim (Bool-cases (is_busy (from_u8 v))) [
  | inl e ↦ rw (e) (tt, refl)
  | inr e ↦ rw (e) (e, refl)
]

advance-keeps :
    (p : OtaProgress) (c : Caller)
    → IsFree c
    → IsFree (advance p c).1 × (owns (advance p c).1 + busy p ≡ owns c + busy (advance p c).0)
unfolding advance begin_load
advance-keeps p calls h = let (f, n) = begin_check-IsFree p.phase in (f, ap (λ k. k + busy p) n)
advance-keeps p (within (answered granted)) h = (tt, refl)
advance-keeps p (within (read current)) h =
    let (f, n) = begin_check-IsFree p.phase in
    elim (Bool-cases (p.phase == current)) [
      | inl e ↦
          let same : p.phase ≡ current = ground arith in
          let g : is_busy (from_u8 p.phase) ≡ false = rw (same) h in
          rw (e, begin_exchange) (tt, ap (λ b. 1 + count b) g)
      | inr e ↦ rw (e, begin_exchange) (f, ap (λ k. k + busy p) n)
    ]

work-keeps :
    (p : OtaProgress) (phase : Phase) (c : Caller)
    → IsFree c
    → IsFree (work p phase c).1
      × (((owns (work p phase c).1 + busy p ≡ owns c + busy (work p phase c).0)
          ⊎ (owns (work p phase c).1 + 1 ≡ owns c + busy (work p phase c).0)))
unfolding work set_phase from_u8
work-keeps p idle (within (answered true)) h = (tt, inr refl)
work-keeps p checking (within (answered true)) h = (tt, inr refl)
work-keeps p up_to_date (within (answered true)) h = (tt, inr refl)
work-keeps p downloading (within (answered true)) h = (tt, inr refl)
work-keeps p verifying (within (answered true)) h = (tt, inr refl)
work-keeps p installed (within (answered true)) h = (tt, inr refl)
work-keeps p failed (within (answered true)) h = (tt, inr refl)
work-keeps p update_available (within (answered true)) h = (tt, inr refl)
work-keeps p phase calls h = (tt, inl refl)
work-keeps p phase (within (read current)) h = (h, inl refl)
work-keeps p phase (within (answered false)) h = (tt, inl refl)

-- The callers read only what was free, and own no more than the phase says.
abbrev Reserved : OtaProgress × List Caller → Type 0
Reserved (p, cs) = AreFree cs × (owners cs ≤ busy p)

-- What an operation of one caller does to the count.
abbrev Keeps : (OtaProgress → Caller → OtaProgress × Caller) → Type 0
Keeps f =
    (p : OtaProgress) (c : Caller)
    → IsFree c
    → IsFree (f p c).1
      × ((owns (f p c).1 + busy p ≡ owns c + busy (f p c).0)
          ⊎ (owns (f p c).1 + 1 ≡ owns c + busy (f p c).0))

at-Keeps :
    (i : ℕ) (f : OtaProgress → Caller → OtaProgress × Caller) (p : OtaProgress) (cs : List Caller)
    → Keeps f
    → AreFree cs
    → AreFree (at i f p cs).1
      × ((owners (at i f p cs).1 + busy p ≡ owners cs + busy (at i f p cs).0)
          ⊎ (owners (at i f p cs).1 + 1 ≡ owners cs + busy (at i f p cs).0))
unfolding at
at-Keeps i f p [] k h = (tt, inl refl)
at-Keeps zero f p (c ∷ cs) k (h, hs) =
    let (g, e) = k p c h in
    ((g, hs), elim e [ inl a ↦ inl (omega (arith, a)) | inr a ↦ inr (omega (arith, a)) ])
at-Keeps (suc i) f p (c ∷ cs) k (h, hs) =
    let (gs, e) = at-Keeps i f p cs k hs in
    ((h, gs), elim e [ inl a ↦ inl (omega (arith, a)) | inr a ↦ inr (omega (arith, a)) ])

count-le-one : (b : Bool) → count b ≤ 1
count-le-one true = omega arith
count-le-one false = omega arith

at-Reserved :
    (i : ℕ) (f : OtaProgress → Caller → OtaProgress × Caller) (p : OtaProgress) (cs : List Caller)
    → Keeps f
    → Reserved (p, cs)
    → Reserved (at i f p cs)
at-Reserved i f p cs k (h, le) =
    let (g, e) = at-Keeps i f p cs k h in
    let one = count-le-one (is_busy (from_u8 p.phase)) in
    (g, elim e [ inl a ↦ omega (arith, a, le, one) | inr a ↦ omega (arith, a, le, one) ])

take_turn-Reserved :
    (world : OtaProgress × List Caller) (a : Action) → Reserved world → Reserved (take_turn world a)
unfolding take_turn
take_turn-Reserved (p, cs) (advances i) h =
    at-Reserved i advance p cs (λ q c f. let (g, e) = advance-keeps q c f in (g, inl e)) h
take_turn-Reserved (p, cs) (works i phase) h =
    at-Reserved i (λ q c. work q phase c) p cs (λ q c f. work-keeps q phase c f) h

run-Reserved :
    (world : OtaProgress × List Caller) (actions : List Action)
    → Reserved world
    → Reserved (run world actions)
unfolding run
run-Reserved world [] h = h
run-Reserved world (a ∷ rest) h =
    run-Reserved (take_turn world a) rest (take_turn-Reserved world a h)

replicate-AreFree : (n : ℕ) → AreFree (replicate n calls) × (owners (replicate n calls) ≡ 0)
replicate-AreFree zero = (tt, refl)
replicate-AreFree (suc n) = let (f, o) = replicate-AreFree n in ((tt, f), omega (arith, o))

-- However the atomic operations of any number of requests and the phases that the workers set are
-- interleaved, from any phase, at most one request owns the worker that it was granted, and none while
-- the phase is not busy.
pub begin-exclusive :
    (p : OtaProgress) (requests : ℕ) (actions : List Action)
    → let (reached, callers) = run (p, replicate requests calls) actions in
      owners callers ≤ (if is_busy (from_u8 reached.phase) then 1 else 0)
begin-exclusive p requests actions =
    let (f, o) = replicate-AreFree requests in
    (run-Reserved (p, replicate requests calls) actions (f, omega (arith, o))).1
