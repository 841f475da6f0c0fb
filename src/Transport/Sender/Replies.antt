-- ===== src/Transport/Sender/Replies.antt =====
-- The replies of the reconnecting sender: every connection is reported once, with the first batch that it
-- carries, and a failure closes the stream.
use esp32_streamline.Prelude.{
  ℕ, ◌+◌, ◌≡◌, ◌≤◌, Bool, true, false, none, some, Result, ok, err, if◌then◌else◌, List, [], ◌∷◌,
  is_some, arith,
}
use esp32_streamline.Prelude.Bytes.{Text}
use esp32_streamline.Transport.Sender.{Sender, Sent, new, disconnect, send_all}

-- The flag stands only over an open stream.
abbrev IsConsistent : {C S : Type 0} → Sender C S → Type 0
IsConsistent s = s.new_connection ≡ true → is_some s.stream ≡ true

-- A caller's requests: a batch with the answer of `ready`, or a disconnect.
pub data Request : Type 0 where
  batch : Text → Bool → Request
  close : Request

-- Batches announced as the first of a connection.
abbrev announced : {E : Type 0} → Sent E → ℕ
announced (ok (some true)) = 1
announced (ok (some false)) = 0
announced (ok none) = 0
announced (err _) = 0

abbrev pending_announcement : {C S : Type 0} → Sender C S → ℕ
pending_announcement s = if s.new_connection then 1 else 0

module _ {C S E : Type 0} (connect : C → C × Result E S)
    (send : S → Text → S × Result E (Unit {0})) where
  -- Connections that a call opens.
  pub opened : Sender C S → ℕ
  opened s = elim s.stream [
    | some _ ↦ 0
    | none ↦ elim (connect s.connector).1 [ ok _ ↦ 1 | err _ ↦ 0 ]
  ]

  send_all-IsConsistent :
      (s : Sender C S) (bytes : Text) (ready : Bool)
      → IsConsistent s
      → IsConsistent (send_all connect send s bytes ready).0
  unfolding send_all
  send_all-IsConsistent s bytes ready h = ground arith

  -- One call never announces more connections than it found unannounced or opened itself.
  announced-send_all :
      (s : Sender C S) (bytes : Text) (ready : Bool)
      → let (s', reply) = send_all connect send s bytes ready in
        announced reply + pending_announcement s' ≤ opened s + pending_announcement s
  unfolding send_all opened
  announced-send_all s bytes ready = ground arith

  -- What a reply says: an error leaves no stream; a refused admission keeps the open stream and its
  -- flag; a batch sent clears the flag and reports it, and a connection that this call opened is always
  -- reported as new.
  abbrev pub Means : Sender C S → Bool → Sender C S → Sent E → Type 0
  Means s ready s' (err e) = s'.stream ≡ none
  Means s ready s' (ok none) =
      (ready ≡ false)
      × (is_some s'.stream ≡ true)
      × (pending_announcement s' ≡ opened s + pending_announcement s)
  Means s ready s' (ok (some b)) =
      (ready ≡ true)
      × (is_some s'.stream ≡ true)
      × (s'.new_connection ≡ false)
      × ((if b then 1 else 0) ≡ opened s + pending_announcement s)

  -- What a reply of `send_all` says, for a sender whose flag stands only over an open stream: an error
  -- leaves no stream; `Ok(None)` means that admission was refused and keeps the open stream with its
  -- announcement; a batch sent clears the flag, and reports exactly the connections not yet announced.
  pub send_all_lem :
      (s : Sender C S) (bytes : Text) (ready : Bool)
      → IsConsistent s
      → let (s', reply) = send_all connect send s bytes ready in Means s ready s' reply
  unfolding send_all opened
  send_all_lem s bytes ready h = ground arith

  serve : Sender C S → Request → Sender C S × Sent E
  serve s (batch bytes ready) = send_all connect send s bytes ready
  serve s close = (disconnect s, ok none)

  -- The announcements of a history of requests, the connections that it opened, and the sender it leaves.
  pub history : Sender C S → List Request → ℕ × ℕ × Sender C S
  unfolding serve opened
  history s [] = (0, 0, s)
  history s (close ∷ rs) = history (disconnect s) rs
  history s (batch bytes ready ∷ rs) =
      let (s', reply) = send_all connect send s bytes ready in
      let (said, made, last) = history s' rs in (announced reply + said, opened s + made, last)

  history_bound :
      (s : Sender C S) (rs : List Request)
      → (history s rs).0 ≤ (history s rs).1 + pending_announcement s
  unfolding history disconnect
  history_bound s [] = omega arith
  history_bound s (close ∷ rs) = omega (arith, history_bound (disconnect s) rs)
  history_bound s (batch bytes ready ∷ rs) = omega (
    arith,
    announced-send_all s bytes ready,
    history_bound (send_all connect send s bytes ready).0 rs,
  )

  -- Whatever the connector and the streams do, and wherever the caller disconnects, a fresh sender never
  -- reports more new connections than it opened.
  announced-le-opened :
      (c : C) (rs : List Request) → (history (new c) rs).0 ≤ (history (new c) rs).1
  unfolding new
  announced-le-opened c rs = omega (arith, history_bound (new c) rs)
