-- ===== src/Realtime/Tests.antt =====
-- A room at concrete sockets, messages and actions (deploy/worker/realtime_object.mjs).
use akamata.Prelude.{
  ℕ, ◌≡◌, ◌≢◌, refl, Bool, true, false, Option, none, some, List, [], ◌∷◌, arith, if◌then◌else◌,
  inl,
}
use akamata.Prelude.Numbers.{pos}
use akamata.Text.{Text, text, same, to_lower}
use akamata.Text.Utf8.{encode}
use akamata.Json.{Json, null, integer, string, array, object, nil, cons, end, member, Codec, get}
use akamata.Realtime.Room.{Attachment, Socket, Room, room_of}
use akamata.Realtime.Delivery.{send_others}
use akamata.Realtime.Growth.{AllGrow}
use akamata.Realtime.Actions.{Host, apply_actions}
use akamata.Realtime.Actions.Bounds.{IsFromOne, apply_actions-AllGrow}
use akamata.Realtime.Actions.Broadcast.{send_others-refusing}
use akamata.Realtime.Message.{
  string_message, Response, asks, touch, message_begin, message_end, is_envelope,
}
use akamata.Realtime.Message.Admission.{
  IsAdmissible, IsTouched, message_begin-asks, asks-IsAdmissible,
}
use akamata.Realtime.Message.Answer.{IsGranted, message_end-AllGrow}
use akamata.Realtime.Join.{Handshake, switching, fetch}
use akamata.Realtime.Events.{Event, connects, receives, answers, leaves, handle_all}
use akamata.Realtime.Events.Soundness.{IsSound, handle_all-IsSound}
use akamata.Realtime.Events.Promises.{promise_of, replay_all}
use akamata.Realtime.Events.Replay.{handle_all-replay}

abbrev event : Json
event = object (
    member (text "protocol_version") (integer (pos 1))
      (member (text "event_type") (string (text "chat")) (member (text "payload") null end)))

abbrev to_all : Json
to_all = object (
    member (text "kind") (string (text "broadcast"))
      (member (text "envelope") (integer (pos 0)) end))

-- a codec that knows three texts
abbrev toy : Codec
toy = record {
  parse = λ s.
      if same s (text "0")
      then some (integer (pos 0))
      else if same s (text "event")
      then some event
      else if same s (text "[all]")
      then some (array (cons to_all nil))
      else none;
  stringify = λ v. text "0";
}

abbrev host : Host
host = record { codec = toy; valid_close = λ code reason. true }

abbrev ada : Attachment
ada = record {
  connection_id = text "c1";
  identity = text "ada";
  principal = text "0";
  metadata = text "0";
  connected_at = 5;
}

abbrev socket : ℕ → Bool → Socket
socket id stale = record { id = id; attachment = some ada; stale = stale; sent = []; closed = none }

abbrev room : Room
room = record {
  sockets = socket 1 false ∷ socket 2 true ∷ socket 3 false ∷ [];
  presence = [];
  entries = [];
}

abbrev answer : Response
answer = record { status = 200; body = text "[all]" }

admissible : IsAdmissible host (string_message (text "event")) event
unfolding encode same get is_envelope
admissible = record {
  source = text "event";
  is_string = refl;
  short = omega arith;
  parsed = refl;
  version = (pos 1, refl);
  event_type = (text "chat", refl);
  payload = (null, refl);
}

string_asks :
    message_begin host 9 true (socket 1 false) (string_message (text "event")) room
    ≡ asks (some ada) event (touch 9 (socket 1 false) room)
string_asks =
    message_begin-asks host 9 (socket 1 false) (string_message (text "event")) event room admissible

asks-IsAdmissible_example :
    (true ≡ true)
    × IsAdmissible host (string_message (text "event")) event
    × (some ada ≡ (socket 1 false).attachment)
    × IsTouched 9 (socket 1 false) room (touch 9 (socket 1 false) room)
asks-IsAdmissible_example =
    asks-IsAdmissible host 9 true (socket 1 false) (string_message (text "event")) room (some ada)
      event (touch 9 (socket 1 false) room) string_asks

message_end-AllGrow_example :
    AllGrow
      (IsGranted host answer)
      room.sockets
      (room_of (message_end host (socket 1 false) answer room)).sockets
message_end-AllGrow_example = message_end-AllGrow host (socket 1 false) answer room

apply_actions-AllGrow_example :
    AllGrow
      (IsFromOne host (to_all ∷ []))
      room.sockets
      (room_of (apply_actions host 1 (to_all ∷ []) room)).sockets
apply_actions-AllGrow_example = apply_actions-AllGrow host 1 (to_all ∷ []) room

send_others-refusing_example : send_others 1 (text "hi") room.sockets ≡ (false, room.sockets)
send_others-refusing_example =
    send_others-refusing 1 (text "hi") (socket 1 false ∷ []) (socket 2 true) (socket 3 false ∷ [])
      (inl refl, tt) (omega arith) refl

abbrev shake : Option Text → Handshake
shake authorized = record {
  upgrade = some (text "WebSocket");
  authorized = authorized;
  connection_id = some (text "c2");
  logical_identity = some (text "bob");
  principal = some (text "0");
  metadata = some (text "0");
}

joined : (fetch toy 7 4 (shake (some (text "1"))) room).0 ≡ switching
unfolding fetch same to_lower encode
joined = refl

unauthorized : (fetch toy 7 4 (shake none) room).0 ≢ switching
unfolding fetch same to_lower
unauthorized e = ground arith

abbrev empty : Room
empty = record { sockets = []; presence = []; entries = [] }

abbrev day : List Event
day =
    connects 7 4 (shake (some (text "1")))
    ∷ receives 8 true (socket 4 false) (string_message (text "event"))
    ∷ answers (socket 4 false) answer
    ∷ leaves (socket 4 false)
    ∷ []

handle_all-IsSound_example : IsSound toy (handle_all host day empty)
handle_all-IsSound_example =
    handle_all-IsSound host day empty (record { distinct = tt; rows = tt; joined = tt })

handle_all-replay_example :
    promise_of (handle_all host day empty) ≡ replay_all host day (promise_of empty)
handle_all-replay_example = handle_all-replay host day empty
