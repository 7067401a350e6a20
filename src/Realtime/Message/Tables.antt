-- ===== src/Realtime/Message/Tables.antt =====
-- The answer to a message changes sockets only
-- (`webSocketMessage` of deploy/worker/realtime_object.mjs).
use akamata.Prelude.{ℕ, Bool, Option, none, some, arith, ltb, if◌then◌else◌}
use akamata.Prelude.Numbers.{pos}
use akamata.Text.{Text, text}
use akamata.Json.{Json, array, items}
use akamata.Realtime.Room.{Socket, Room, room_of}
use akamata.Realtime.Actions.{max_message, Host}
use akamata.Realtime.Actions.Tables.{SameTables, close-SameTables, actions-SameTables}
use akamata.Realtime.Message.{
  Message, string_message, binary_message, message_length, Response, over, begun_room, touch, admit,
  admit_message, message_begin, close_with, refuse, perform, message_end,
}

module _ (host : Host) where
  close_with-SameTables :
      (ws : Socket) (code : ℕ) (reason : Text) (r : Room)
      → SameTables r (room_of (close_with host ws code reason r))
  unfolding close_with
  close_with-SameTables ws code reason r = close-SameTables host ws.id (pos code) reason r

  perform-SameTables :
      (ws : Socket) (o : Option Json) (r : Room) → SameTables r (room_of (perform host ws o r))
  unfolding perform
  perform-SameTables ws (some (array xs)) r = ground (
    arith,
    close_with-SameTables ws 1011 (text "invalid handler response") r,
    actions-SameTables host ws.id (items xs) r,
  )
  perform-SameTables ws o r = close_with-SameTables ws 1011 (text "invalid handler response") r

  refuse-SameTables :
      (ws : Socket) (status : ℕ) (r : Room) → SameTables r (room_of (refuse host ws status r))
  unfolding refuse
  refuse-SameTables ws status r = ground (
    arith,
    close_with-SameTables ws 4003 (text "authorization rejected") r,
    close_with-SameTables ws 4002 (text "unsupported protocol version") r,
    close_with-SameTables ws 1007 (text "event rejected") r,
  )

  -- Whatever the handler answers, the presence rows and the stored entries stay as they are.
  pub message_end-SameTables :
      (ws : Socket) (x : Response) (r : Room) → SameTables r (room_of (message_end host ws x r))
  unfolding message_end
  message_end-SameTables ws x r =
      ground
        (arith, perform-SameTables ws (host.codec.parse x.body) r, refuse-SameTables ws x.status r)

  admit-SameTables :
      (available : Bool) (ws : Socket) (o : Option Json) (r : Room)
      → SameTables r (begun_room (admit host available ws o r))
  unfolding admit
  admit-SameTables available ws none r = close_with-SameTables ws 1007 (text "malformed event") r
  admit-SameTables available ws (some envelope) r = ground (
    arith,
    close_with-SameTables ws 1007 (text "malformed event") r,
    close_with-SameTables ws 1011 (text "application handler unavailable") r,
  )

  begun-SameTables :
      (available : Bool) (ws : Socket) (message : Message) (r : Room)
      → SameTables r (
          begun_room (
            if ltb max_message (message_length message)
            then over (close_with host ws 1009 (text "message too large") r)
            else admit_message host available ws message r))
  unfolding admit_message
  begun-SameTables available ws (string_message s) r = ground (
    arith,
    close_with-SameTables ws 1009 (text "message too large") r,
    admit-SameTables available ws (host.codec.parse s) r,
  )
  begun-SameTables available ws (binary_message bs) r = ground (
    arith,
    close_with-SameTables ws 1009 (text "message too large") r,
    close_with-SameTables ws 1003 (text "text protocol required") r,
  )

  -- Until the handler has answered, a message sets `last_seen` in the presence rows of its connection,
  -- and changes nothing else in the tables.
  pub message_begin-SameTables :
      (now : ℕ) (available : Bool) (ws : Socket) (message : Message) (r : Room)
      → SameTables (touch now ws r) (begun_room (message_begin host now available ws message r))
  unfolding message_begin
  message_begin-SameTables now available ws message r =
      begun-SameTables available ws message (touch now ws r)
