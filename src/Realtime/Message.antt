-- ===== src/Realtime/Message.antt =====
-- `webSocketMessage` (deploy/worker/realtime_object.mjs). It awaits the application's handler once;
-- `message_begin` is what it does before, `message_end` what it does after, on the room as it is then.
pub mod Admission
pub mod Answer
pub mod Tables
use mathlib.Core.Option
use akamata.Prelude.{
  ℕ, zero, suc, ◌+◌, Bool, true, false, ◌&&◌, ◌||◌, not, Option, none, some, List, [], ◌∷◌, ltb,
  leb, ◌==◌, if◌then◌else◌, length,
}
use akamata.Prelude.Numbers.{ℤ, pos}
use akamata.Text.{Text, text}
use akamata.Json.{
  Json, array, object, Members, member, end, Codec, get, items, string_of, integer_of, is_some,
}
use akamata.Realtime.Room.{
  Attachment, Socket, Room, Run, done, threw, room_of, connection_of, truthy, touch_presence,
}
use akamata.Realtime.Delivery.{close}
use akamata.Realtime.Actions.{max_message, byte_length, Host, apply_actions}

pub data Message : Type 0 where
  string_message : Text → Message
  binary_message : List ℕ → Message

abbrev pub message_length : Message → ℕ
message_length (string_message s) = byte_length s
message_length (binary_message bs) = length bs

-- What the handler answers: `status`, and the text of the body.
pub record Response : Type 0 where
  pub status : ℕ
  pub body : Text

-- `response.ok`
abbrev pub is_ok : Response → Bool
is_ok x = leb 200 x.status && ltb x.status 300

-- Before the await: `webSocketMessage` has returned or thrown, or it asks the handler,
-- with the attachment as the context and the envelope.
pub data Begun : Type 0 where
  over : Run → Begun
  asks : Option Attachment → Json → Room → Begun

abbrev pub begun_room : Begun → Room
begun_room (over x) = room_of x
begun_room (asks context envelope r) = r

-- the tests on the envelope
unfoldable pub is_envelope : Json → Bool
unfolding get
is_envelope e =
    is_some (integer_of (get (text "protocol_version") e))
    && is_some (string_of (get (text "event_type") e))
    && is_some (get (text "payload") e)

unfoldable pub touch : ℕ → Socket → Room → Room
unfolding touch_presence
touch now ws r = elim (truthy (connection_of ws)) [
  | none ↦ r
  | some c ↦ record r { presence = touch_presence now c r.presence }
]

module _ (host : Host) where
  close_with : Socket → ℕ → Text → Room → Run
  unfolding close
  close_with ws code reason r = close host.valid_close ws.id (pos code) reason r

  -- after the tests on the length and the type: the text of the message
  admit : Bool → Socket → Option Json → Room → Begun
  unfolding close_with is_envelope
  admit available ws none r = over (close_with ws 1007 (text "malformed event") r)
  admit available ws (some envelope) r =
      if not (is_envelope envelope)
      then over (close_with ws 1007 (text "malformed event") r)
      else if not available
      then over (close_with ws 1011 (text "application handler unavailable") r)
      else asks ws.attachment envelope r

  admit_message : Bool → Socket → Message → Room → Begun
  unfolding admit
  admit_message available ws (string_message s) r = admit available ws (host.codec.parse s) r
  admit_message available ws (binary_message bs) r =
      over (close_with ws 1003 (text "text protocol required") r)

  -- `available`: `AKAMATA_REALTIME_HANDLER` is bound and has a `fetch`.
  unfoldable pub message_begin : ℕ → Bool → Socket → Message → Room → Begun
  unfolding admit_message touch
  message_begin now available ws message r =
      if ltb max_message (message_length message)
      then over (close_with ws 1009 (text "message too large") (touch now ws r))
      else admit_message available ws message (touch now ws r)

  refuse : Socket → ℕ → Room → Run
  unfolding close_with
  refuse ws status r =
      if status == 401 || status == 403
      then close_with ws 4003 (text "authorization rejected") r
      else if status == 426
      then close_with ws 4002 (text "unsupported protocol version") r
      else close_with ws 1007 (text "event rejected") r

  perform : Socket → Option Json → Room → Run
  unfolding close_with apply_actions
  perform ws (some (array xs)) r =
      if ltb 32 (length (items xs))
      then close_with ws 1011 (text "invalid handler response") r
      else apply_actions host ws.id (items xs) r
  perform ws _ r = close_with ws 1011 (text "invalid handler response") r

  unfoldable pub message_end : Socket → Response → Room → Run
  unfolding refuse perform
  message_end ws x r =
      if not (is_ok x) then refuse ws x.status r else perform ws (host.codec.parse x.body) r
