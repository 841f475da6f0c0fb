-- ===== src/Transport/Sender.antt =====
-- `ReconnectingSender` of firmware/streamline/src/transport.rs. The socket or TLS adapter behind it is a
-- parameter: `connect` takes and returns the connector, `send` the open stream.
pub mod Replies
use esp32_streamline.Prelude.{
  ℕ, Bool, true, false, Option, none, some, Result, ok, err, if◌then◌else◌, List, [], ◌∷◌,
}
use esp32_streamline.Prelude.Bytes.{Text}

pub record Sender (C S : Type 0) : Type 0 where
  pub connector : C
  pub stream : Option S
  pub new_connection : Bool

module _ {C S : Type 0} where
  unfoldable pub new : C → Sender C S
  new c = record { connector = c; stream = none; new_connection = false }

  unfoldable pub disconnect : Sender C S → Sender C S
  disconnect s = record s { stream = none; new_connection = false }

-- What `send_all` returns: `Ok(None)` is `ok none`, and `Ok(Some(b))` is `ok (some b)`.
abbrev pub Sent : Type 0 → Type 0
Sent E = Result E (Option Bool)

module _ {C S E : Type 0} (connect : C → C × Result E S)
    (send : S → Text → S × Result E (Unit {0})) where
  -- `self.stream.as_mut().expect(…).send_all(bytes)`, and `mem::take` of the flag.
  unfoldable pub deliver : Sender C S → S → Text → Sender C S × Sent E
  unfolding disconnect
  deliver s stream bytes =
      let (stream', result) = send stream bytes in
      elim result [
        | err e ↦ (disconnect (record s { stream = some stream' }), err e)
        | ok _ ↦
            (record s { stream = some stream'; new_connection = false }, ok (some s.new_connection))
      ]

  -- `ready` is the answer of the closure, which is asked once the stream is open.
  unfoldable pub admit : Sender C S → S → Text → Bool → Sender C S × Sent E
  unfolding deliver
  admit s stream bytes ready = if ready then deliver s stream bytes else (s, ok none)

  unfoldable pub send_all : Sender C S → Text → Bool → Sender C S × Sent E
  unfolding admit
  send_all s bytes ready = elim s.stream [
    | some stream ↦ admit s stream bytes ready
    | none ↦
        let (c, opened) = connect s.connector in
        elim opened [
          | err e ↦ (record s { connector = c }, err e)
          | ok stream ↦
              admit (record s { connector = c; stream = some stream; new_connection = true }) stream
                bytes ready
        ]
  ]
