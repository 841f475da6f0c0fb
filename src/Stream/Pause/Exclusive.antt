-- ===== src/Stream/Pause/Exclusive.antt =====
-- What a pause that was granted guarantees, while no other maintenance asks for or ends a pause.
use esp32_streamline.Prelude.{
  ◌||◌, ◌⊎◌, ℕ, zero, suc, ◌/◌, ◌<◌, ◌≡◌, ◌≢◌, refl, ap, ◌∙◌, Bool, true, false, not, ◌&&◌,
  Bool-cases, List, [], ◌∷◌, ◌++◌, length, is_ok, inl, inr, arith,
}
use esp32_streamline.Stream.Status.{
  StreamStatus, request_transport_quiesce, transport_quiesced, transport_quiesce_requested,
  set_streaming_enabled, acknowledge_transport_quiesced,
}
use esp32_streamline.Stream.Queue.{suspend}
use esp32_streamline.Stream.Network.{
  Event, asks_quiesce, ends_quiesce, switches, captures, World, act, acts, turn_of, turn,
  PacketSink, sending_allowed, note_depth, release, step,
}
use esp32_streamline.Stream.Network.Handshake.{act-suspended, IsReleased, release-IsReleased}
use esp32_streamline.Stream.Pause.{
  Move, sends, acted, move, moves, wait_ms, later, request, poll, pause_transport, timeout_ms,
  poll_ms,
}

-- Neither asks for a pause nor ends one.
abbrev IsQuiet : Event → Type 0
IsQuiet asks_quiesce = ⊥
IsQuiet ends_quiesce = ⊥
IsQuiet (switches enabled) = Unit
IsQuiet (captures packet) = Unit

abbrev AreQuiet : List Event → Type 0
AreQuiet [] = Unit
AreQuiet (e ∷ es) = IsQuiet e × AreQuiet es

abbrev TurnsAreQuiet : List (List Event) → Type 0
TurnsAreQuiet [] = Unit
TurnsAreQuiet (es ∷ rest) = AreQuiet es × TurnsAreQuiet rest

abbrev MovesAreQuiet : List Move → Type 0
MovesAreQuiet [] = Unit
MovesAreQuiet (sends ∷ ms) = MovesAreQuiet ms
MovesAreQuiet (acted e ∷ ms) = IsQuiet e × MovesAreQuiet ms

abbrev WaitsAreQuiet : List (List Move) → Type 0
WaitsAreQuiet [] = Unit
WaitsAreQuiet (ms ∷ waits) = MovesAreQuiet ms × WaitsAreQuiet waits

-- The three flags of the handshake.
abbrev flags : StreamStatus → Bool × Bool × Bool
flags s = (s.transport_quiesce, s.is_quiesced, s.transport_present)

act-flags : (w : World) (e : Event) → IsQuiet e → flags (act w e).status ≡ flags w.status
unfolding act set_streaming_enabled
act-flags w asks_quiesce h = absurd h
act-flags w ends_quiesce h = absurd h
act-flags w (switches enabled) h = refl
act-flags w (captures packet) h = refl

act-others : (w : World) (e : Event) → (act w e).others ≡ w.others
unfolding act
act-others w asks_quiesce = refl
act-others w ends_quiesce = refl
act-others w (switches enabled) = refl
act-others w (captures packet) = refl

acts-flags : (w : World) (es : List Event) → AreQuiet es → flags (acts w es).status ≡ flags w.status
unfolding acts
acts-flags w [] h = refl
acts-flags w (e ∷ es) (q, qs) = acts-flags (act w e) es qs ∙ act-flags w e q

acts-others : (w : World) (es : List Event) → (acts w es).others ≡ w.others
unfolding acts
acts-others w [] = refl
acts-others w (e ∷ es) = acts-others (act w e) es ∙ act-others w e

-- A turn in which no maintenance acts leaves the flags, and quiet turns ahead.
turn_of-Keeps :
    (w : World) (turns : List (List Event))
    → w.others ≡ turns
    → TurnsAreQuiet turns
    → (flags (turn_of w turns).status ≡ flags w.status) × TurnsAreQuiet (turn_of w turns).others
unfolding turn_of
turn_of-Keeps w [] e h = (refl, rw (e) h)
turn_of-Keeps w (es ∷ rest) e (q, qs) =
    let w' : World = record w { others = rest } in (acts-flags w' es q, rw (acts-others w' es) qs)

turn-Keeps :
    (w : World)
    → TurnsAreQuiet w.others
    → (flags (turn w).status ≡ flags w.status) × TurnsAreQuiet (turn w).others
unfolding turn
turn-Keeps w h = turn_of-Keeps w w.others refl h

refused : (paused asked : Bool) → asked ≡ true → (not paused && not asked) ≡ false
refused paused asked h = ground arith

unanswered : (present acked : Bool) → present ≡ true → acked ≡ false → (not present || acked) ≢ true
unanswered present acked p a h = ground arith

answered : (present acked : Bool) → acked ≡ true → (not present || acked) ≡ true
answered present acked h = ground arith

module _ {S : Type 0} (sink : PacketSink S) where
  -- Asked for, with the acknowledgement as given, and no maintenance ahead.
  abbrev IsAsked : Bool → World × S → Type 0
  IsAsked acked ws = (flags ws.0.status ≡ (true, acked, true)) × TurnsAreQuiet ws.0.others

  abbrev IsGranted : World × S → Type 0
  IsGranted ws = IsAsked true ws × IsReleased sink ws.0 ws.1

  turn-IsAsked :
      (acked : Bool) (w : World) (s : S) → IsAsked acked (w, s) → IsAsked acked (turn w, s)
  turn-IsAsked acked w s (f, q) = let (g, k) = turn-Keeps w q in (g ∙ f, k)

  release-IsGranted :
      (acked : Bool) (w : World) (s : S) → IsAsked acked (w, s) → IsGranted (release sink w s)
  unfolding release note_depth suspend acknowledge_transport_quiesced
  release-IsGranted acked w s h =
      let closed = turn w in
      let emptied = turn (record closed { queue = suspend closed.queue }) in
      let noted = turn (note_depth emptied 0) in
      let asked = turn noted in
      let h1 = turn-IsAsked acked w s h in
      let h2 = turn-IsAsked acked (record closed { queue = suspend closed.queue }) s h1 in
      let h3 = turn-IsAsked acked (note_depth emptied 0) s h2 in
      let h4 = turn-IsAsked acked noted s h3 in
      let e : noted.status.transport_quiesce ≡ true = ap (λ t. t.0) h3.0 in
      let p : asked.status.transport_present ≡ true = ap (λ t. t.2) h4.0 in
      let q : asked.status.transport_quiesce ≡ true = ap (λ t. t.0) h4.0 in
      let acked' : World = record asked { status = acknowledge_transport_quiesced asked.status } in
      let h5 : IsAsked true (acked', s) = (rw (q, p) refl, h4.1) in
      (
        rw (e, release, transport_quiesce_requested) (turn-IsAsked true acked' s h5),
        release-IsReleased sink w s,
      )

  step-IsGranted :
      (acked : Bool) (w : World) (s : S) → IsAsked acked (w, s) → IsGranted (step sink w s)
  unfolding step
  step-IsGranted acked w s h =
      let e : w.status.transport_quiesce ≡ true = ap (λ t. t.0) h.0 in
      rw (refused w.status.paused w.status.transport_quiesce e, step)
        (release-IsGranted acked w s h)

  act-IsAsked :
      (acked : Bool) (w : World) (s : S) (e : Event)
      → IsQuiet e
      → IsAsked acked (w, s)
      → IsAsked acked (act w e, s)
  act-IsAsked acked w s e q h = (act-flags w e q ∙ h.0, rw (act-others w e) h.1)

  moves-IsGranted :
      (ws : World × S) (ms : List Move)
      → MovesAreQuiet ms
      → IsGranted ws
      → IsGranted (moves sink ws ms)
  unfolding moves move
  moves-IsGranted ws [] q h = h
  moves-IsGranted (w, s) (sends ∷ ms) q h =
      moves-IsGranted (step sink w s) ms q (step-IsGranted true w s h.0)
  moves-IsGranted (w, s) (acted e ∷ ms) (q, qs) (h, r) =
      moves-IsGranted (act w e, s) ms qs (act-IsAsked true w s e q h, (act-suspended w e r.0, r.1))

  -- Asked for, and granted once acknowledged.
  abbrev IsPending : World × S → Type 0
  IsPending ws = IsAsked false ws ⊎ IsGranted ws

  moves-IsPending :
      (ws : World × S) (ms : List Move)
      → MovesAreQuiet ms
      → IsPending ws
      → IsPending (moves sink ws ms)
  unfolding moves move
  moves-IsPending ws [] q h = h
  moves-IsPending ws (sends ∷ ms) q (inr h) = inr (moves-IsGranted ws (sends ∷ ms) q h)
  moves-IsPending ws (acted e ∷ ms) q (inr h) = inr (moves-IsGranted ws (acted e ∷ ms) q h)
  moves-IsPending (w, s) (sends ∷ ms) q (inl h) =
      inr (moves-IsGranted (step sink w s) ms q (step-IsGranted false w s h))
  moves-IsPending (w, s) (acted e ∷ ms) (q, qs) (inl h) =
      moves-IsPending (act w e, s) ms qs (inl (act-IsAsked false w s e q h))

  wait-IsPending :
      (ws : World × S) (waits : List (List Move))
      → WaitsAreQuiet waits
      → IsPending ws
      → IsPending (wait_ms sink ws waits) × WaitsAreQuiet (later waits)
  unfolding wait_ms
  wait-IsPending ws [] q h = (h, q)
  wait-IsPending ws (ms ∷ waits) (q, qs) h = (moves-IsPending ws ms q h, qs)

  acknowledged-IsGranted :
      (ws : World × S) → IsPending ws → transport_quiesced ws.0.status ≡ true → IsGranted ws
  unfolding transport_quiesced
  acknowledged-IsGranted ws (inr h) e = h
  acknowledged-IsGranted ws (inl h) e = absurd (
      unanswered ws.0.status.transport_present ws.0.status.is_quiesced (ap (λ t. t.2) h.0)
        (ap (λ t. t.1) h.0) e)

  poll-IsGranted :
      (left : ℕ) (ws : World × S) (waits : List (List Move))
      → WaitsAreQuiet waits
      → IsPending ws
      → is_ok (poll sink left ws waits).1 ≡ true
      → IsGranted (poll sink left ws waits).0
  unfolding poll
  poll-IsGranted zero ws waits q h = λ e. cc
  poll-IsGranted (suc left) ws waits q h =
      let (h', q') = wait-IsPending ws waits q h in
      elim (Bool-cases (transport_quiesced ws.0.status)) [
        | inl f ↦ rw (f, poll) (λ e. acknowledged-IsGranted ws h f)
        | inr f ↦ rw (f, poll) (poll-IsGranted left (wait_ms sink ws waits) (later waits) q' h')
      ]

  -- While no other maintenance asks for or ends a pause, and a network task is present, a pause that is
  -- granted holds: whatever the network task, the capture task and the user's switch do afterwards, no
  -- connection is open, no packet is held, and sending is not allowed. (The request falls between two steps of
  -- the network task.)
  pub pause_transport-exclusive :
      (w : World) (s : S) (waits : List (List Move)) (held : List Move)
      → w.status.transport_present ≡ true
      → TurnsAreQuiet w.others
      → WaitsAreQuiet waits
      → MovesAreQuiet held
      → is_ok (pause_transport sink (w, s) waits).1 ≡ true
      → let granted = moves sink (pause_transport sink (w, s) waits).0 held in
        IsReleased sink granted.0 granted.1 × (sending_allowed granted.0.status ≡ false)
  unfolding pause_transport request request_transport_quiesce
  pause_transport-exclusive w s waits held present quiet waited kept e =
      let asked : World = record w { status = request_transport_quiesce w.status } in
      let g =
        poll-IsGranted (timeout_ms / poll_ms) (asked, s) waits waited
          (inl (ap (λ p. (true, false, p)) present, quiet)) e in
      let k = moves-IsGranted (poll sink (timeout_ms / poll_ms) (asked, s) waits).0 held kept g in
      let after = moves sink (poll sink (timeout_ms / poll_ms) (asked, s) waits).0 held in
      (k.1, refused after.0.status.paused after.0.status.transport_quiesce (ap (λ t. t.0) k.0.0))

  poll-granted :
      (left : ℕ) (ws : World × S) (waits : List (List Move))
      → IsGranted ws
      → is_ok (poll sink (suc left) ws waits).1 ≡ true
  unfolding poll transport_quiesced
  poll-granted left ws waits h =
      let e =
        answered ws.0.status.transport_present ws.0.status.is_quiesced (ap (λ t. t.1) h.0.0) in
      rw (e, poll) refl

  step_pending : (w : World) (s : S) → IsPending (w, s) → IsGranted (step sink w s)
  step_pending w s (inl h) = step-IsGranted false w s h
  step_pending w s (inr h) = step-IsGranted true w s h.0

  poll-answers :
      (idle : List (List Move)) (left : ℕ) (ws : World × S) (rest : List (List Move))
      → length idle < left
      → WaitsAreQuiet idle
      → IsPending ws
      → is_ok (poll sink (suc left) ws (idle ++ (sends ∷ []) ∷ rest)).1 ≡ true
  unfolding poll
  poll-answers idle zero ws rest lt q h = absurd (omega (arith, lt))
  poll-answers [] (suc left) (w, s) rest lt q h = elim (Bool-cases (transport_quiesced w.status)) [
    | inl f ↦ rw (f, poll) refl
    | inr f ↦ rw (f, poll) (poll-granted left (step sink w s) rest (step_pending w s h))
  ]
  poll-answers (ms ∷ idle) (suc left) ws rest lt (q, qs) h =
      elim (Bool-cases (transport_quiesced ws.0.status)) [
        | inl f ↦ rw (f, poll) refl
        | inr f ↦
            rw (f, poll)
              (poll-answers idle left (moves sink ws ms) rest (omega (arith, lt)) qs
                (moves-IsPending ws ms q h))
      ]

  -- While no other maintenance acts, a pause is granted if the network task completes a step, on its own, in
  -- one of the first 99 waits.
  pub pause_transport-answers :
      (w : World) (s : S) (idle rest : List (List Move))
      → w.status.transport_present ≡ true
      → TurnsAreQuiet w.others
      → WaitsAreQuiet idle
      → length idle < 99
      → is_ok (pause_transport sink (w, s) (idle ++ (sends ∷ []) ∷ rest)).1 ≡ true
  unfolding pause_transport request request_transport_quiesce
  pause_transport-answers w s idle rest present quiet waited lt =
      let asked : World = record w { status = request_transport_quiesce w.status } in
      poll-answers idle 99 (asked, s) rest lt waited
        (inl (ap (λ p. (true, false, p)) present, quiet))
