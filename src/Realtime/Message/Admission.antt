-- ===== src/Realtime/Message/Admission.antt =====
-- What a message needs before the application's handler is asked
-- (`webSocketMessage` of deploy/worker/realtime_object.mjs), and what the handler's answer may send.
use akamata.Prelude.{
  ℕ, ◌≤◌, ◌≡◌, refl, Bool, true, ◌&&◌, Option, none, some, arith, Option-cases, inl, inr,
}
use akamata.Prelude.Numbers.{ℤ}
use akamata.Text.{Text, text}
use akamata.Json.{Json, get, integer_of, string_of, is_some}
use akamata.Realtime.Room.{Attachment, Socket, Room, truthy, connection_of, touch_presence}
use akamata.Realtime.Actions.{max_message, byte_length, Host}
use akamata.Realtime.Message.{
  Message, string_message, binary_message, asks, is_envelope, touch, admit, admit_message,
  message_begin,
}
use akamata.Realtime.Events.Promises.{promise_of, is_seen}
use akamata.Realtime.Events.Replay.{touched_promise}

-- The message that the handler is asked about: a string of at most 65536 bytes of UTF-8, which
-- `JSON.parse` takes to a value with an integer as its `protocol_version`, a string as its `event_type`, and a `payload`.
pub record IsAdmissible (host : Host) (message : Message) (envelope : Json) : Type 0 where
  pub source : Text
  pub is_string : message ≡ string_message source
  pub short : byte_length source ≤ 65536
  pub parsed : host.codec.parse source ≡ some envelope
  pub version : (n : ℤ) × (integer_of (get (text "protocol_version") envelope) ≡ some n)
  pub event_type : (t : Text) × (string_of (get (text "event_type") envelope) ≡ some t)
  pub payload : (p : Json) × (get (text "payload") envelope ≡ some p)

-- In the table of presence, `last_seen` is set in the row of the sender's connection, if there is one. All else stays.
pub record IsTouched (now : ℕ) (ws : Socket) (r r' : Room) : Type 0 where
  pub tables : promise_of r' ≡ is_seen now (truthy (connection_of ws)) (promise_of r)
  pub sockets : r'.sockets ≡ r.sockets

abbrev touched : ℕ → Room → Option Text → Room
touched now r o = elim o [
  | none ↦ r
  | some c ↦ record r { presence = touch_presence now c r.presence }
]

touched_sockets : (now : ℕ) (o : Option Text) (r : Room) → (touched now r o).sockets ≡ r.sockets
touched_sockets now none r = refl
touched_sockets now (some c) r = refl

touch-IsTouched : (now : ℕ) (ws : Socket) (r : Room) → IsTouched now ws r (touch now ws r)
unfolding touch
touch-IsTouched now ws r = record {
  tables = touched_promise now (truthy (connection_of ws)) r;
  sockets = touched_sockets now (truthy (connection_of ws)) r;
}

all_there :
    {A B C : Type 0} (a : Option A) (b : Option B) (c : Option C)
    → (is_some a && is_some b && is_some c) ≡ true
    → ((x : A) × (a ≡ some x)) × ((y : B) × (b ≡ some y)) × ((z : C) × (c ≡ some z))
all_there none b c e = ground arith
all_there (some x) none c e = ground arith
all_there (some x) (some y) none e = ground arith
all_there (some x) (some y) (some z) e = ((x, refl), (y, refl), (z, refl))

enveloped :
    (envelope : Json)
    → is_envelope envelope ≡ true
    → ((n : ℤ) × (integer_of (get (text "protocol_version") envelope) ≡ some n))
      × ((t : Text) × (string_of (get (text "event_type") envelope) ≡ some t))
      × ((p : Json) × (get (text "payload") envelope ≡ some p))
unfolding is_envelope
enveloped envelope e = all_there _ _ _ e

well_formed :
    {host : Host} {message : Message} {envelope : Json}
    → IsAdmissible host message envelope
    → is_envelope envelope ≡ true
unfolding is_envelope
well_formed a = rw (a.version.1, a.event_type.1, a.payload.1) refl

module _ (host : Host) where
  -- If the message is admissible (a string of at most 65536 bytes that parses to an envelope) and
  -- the handler is there, it is asked, with the attachment of the sender as the context, and the
  -- room is as before but for `last_seen` in the presence rows of the sender's connection.
  pub message_begin-asks :
      (now : ℕ) (ws : Socket) (message : Message) (envelope : Json) (r : Room)
      → IsAdmissible host message envelope
      → message_begin host now true ws message r ≡ asks ws.attachment envelope (touch now ws r)
  unfolding message_begin admit_message admit
  message_begin-asks now ws message envelope r a =
      rw (a.is_string, a.parsed, well_formed a) (ground (arith, a.short))

  -- If the handler is asked, it is there, and the message is a string of at most 65536 bytes that parses to the envelope,
  -- a value with an integer as `protocol_version`, a string as `event_type`, and a `payload`; the context is the
  -- attachment of the sender; the sockets and the stored entries are as before, and so is every presence row that is found by
  -- its connection id, but for `last_seen` in that of the sender's connection.
  pub asks-IsAdmissible :
      (now : ℕ) (available : Bool) (ws : Socket) (message : Message) (r : Room)
      (context : Option Attachment) (envelope : Json) (r' : Room)
      → message_begin host now available ws message r ≡ asks context envelope r'
      → (available ≡ true)
        × IsAdmissible host message envelope
        × (context ≡ ws.attachment)
        × IsTouched now ws r r'
  unfolding message_begin admit_message admit
  asks-IsAdmissible now available ws (binary_message bs) r context envelope r' e = ground arith
  asks-IsAdmissible now available ws (string_message s) r context envelope r' e =
      elim (Option-cases (host.codec.parse s)) [
        | inl unparsed ↦ ground arith
        | inr parsed ↦ ground (arith, admissible parsed, touch-IsTouched now ws r)
      ]
    where
      admissible :
          (parsed : (v : Json) × (host.codec.parse s ≡ some v))
          → byte_length s ≤ max_message
          → is_envelope parsed.0 ≡ true
          → IsAdmissible host (string_message s) parsed.0
      admissible parsed short well =
          let (version, event_type, payload) = enveloped parsed.0 well in
          record {
            version = version;
            event_type = event_type;
            payload = payload;
            source = s;
            is_string = refl;
            short = short;
            parsed = parsed.1;
          }
