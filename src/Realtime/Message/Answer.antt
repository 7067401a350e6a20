-- ===== src/Realtime/Message/Answer.antt =====
-- What one message can put on the sockets of the room, before and after the handler's answer
-- (`webSocketMessage` of deploy/worker/realtime_object.mjs).
use akamata.Prelude.{
  ℕ, ◌≤◌, ◌≡◌, refl, subst, Bool, true, Option, none, some, arith, ltb, if◌then◌else◌, length,
  Bool-cases, inl, inr,
}
use akamata.Prelude.Numbers.{pos}
use akamata.Text.{Text, text}
use akamata.Json.{Json, Items, array, items}
use akamata.Realtime.Room.{Socket, Room, room_of}
use akamata.Realtime.Growth.{AllGrow, AllGrow-refl, AllGrow-weaken}
use akamata.Realtime.Actions.{max_message, Host, apply_actions}
use akamata.Realtime.Actions.Bounds.{IsFromOne, apply_actions-AllGrow, close-AllGrow}
use akamata.Realtime.Message.{
  Message, string_message, binary_message, message_length, Response, is_ok, over, touch, begun_room,
  close_with, admit, admit_message, message_begin, refuse, perform, message_end,
}

-- The texts that an answer may put on a socket: it is of a status from 200 to 299, its body is an array of
-- at most 32 actions, and the text comes from one of them.
abbrev pub IsGranted : Host → Response → Text → Type 0
IsGranted host x m =
    (xs : Items) × (is_ok x ≡ true)
    × (host.codec.parse x.body ≡ some (array xs))
    × (length (items xs) ≤ 32)
    × IsFromOne host (items xs) m

abbrev Nothing : Text → Type 0
Nothing m = ⊥

pub touch-sockets : (now : ℕ) (ws : Socket) (r : Room) → (touch now ws r).sockets ≡ r.sockets
unfolding touch
touch-sockets now ws r = ground arith

module _ (host : Host) where
  module _ (P : Text → Type 0) where
    close_with-AllGrow :
        (ws : Socket) (code : ℕ) (reason : Text) (r : Room)
        → AllGrow P r.sockets (room_of (close_with host ws code reason r)).sockets
    unfolding close_with
    close_with-AllGrow ws code reason r = close-AllGrow host P ws.id (pos code) reason r

    admit-AllGrow :
        (available : Bool) (ws : Socket) (o : Option Json) (r : Room)
        → AllGrow P r.sockets (begun_room (admit host available ws o r)).sockets
    unfolding admit
    admit-AllGrow available ws none r = close_with-AllGrow ws 1007 (text "malformed event") r
    admit-AllGrow available ws (some envelope) r = ground (
      arith,
      close_with-AllGrow ws 1007 (text "malformed event") r,
      close_with-AllGrow ws 1011 (text "application handler unavailable") r,
      AllGrow-refl P r.sockets,
    )

    begun-AllGrow :
        (available : Bool) (ws : Socket) (message : Message) (r : Room)
        → AllGrow P r.sockets
            (begun_room (
              if ltb max_message (message_length message)
              then over (close_with host ws 1009 (text "message too large") r)
              else admit_message host available ws message r)).sockets
    unfolding admit_message
    begun-AllGrow available ws (string_message s) r = ground (
      arith,
      close_with-AllGrow ws 1009 (text "message too large") r,
      admit-AllGrow available ws (host.codec.parse s) r,
    )
    begun-AllGrow available ws (binary_message bs) r = ground (
      arith,
      close_with-AllGrow ws 1009 (text "message too large") r,
      close_with-AllGrow ws 1003 (text "text protocol required") r,
    )

    refuse-AllGrow :
        (ws : Socket) (status : ℕ) (r : Room)
        → AllGrow P r.sockets (room_of (refuse host ws status r)).sockets
    unfolding refuse
    refuse-AllGrow ws status r = ground (
      arith,
      close_with-AllGrow ws 4003 (text "authorization rejected") r,
      close_with-AllGrow ws 4002 (text "unsupported protocol version") r,
      close_with-AllGrow ws 1007 (text "event rejected") r,
    )

  -- Until the handler has answered, no message puts a text on any socket, whether the message is
  -- refused or the handler is asked; and each socket keeps its id and attachment.
  pub message_begin-AllGrow :
      (now : ℕ) (available : Bool) (ws : Socket) (message : Message) (r : Room)
      → AllGrow
          (λ m. ⊥)
          r.sockets
          (begun_room (message_begin host now available ws message r)).sockets
  unfolding message_begin
  message_begin-AllGrow now available ws message r =
      subst
        (λ ss.
          AllGrow (λ m. ⊥) ss (begun_room (message_begin host now available ws message r)).sockets)
        (touch-sockets now ws r) (begun-AllGrow (λ m. ⊥) available ws message (touch now ws r))

  perform-AllGrow :
      (ws : Socket) (x : Response) (o : Option Json) (r : Room)
      → is_ok x ≡ true
      → host.codec.parse x.body ≡ o
      → AllGrow (IsGranted host x) r.sockets (room_of (perform host ws o r)).sockets
  unfolding perform
  perform-AllGrow ws x (some (array xs)) r ok e = elim (Bool-cases (ltb 32 (length (items xs)))) [
    | inl many ↦
        rw many (close_with-AllGrow (IsGranted host x) ws 1011 (text "invalid handler response") r)
    | inr few ↦ rw few (
        AllGrow-weaken (λ m p. (xs, ok, e, ground arith, p)) r.sockets
          (room_of (apply_actions host ws.id (items xs) r)).sockets
          (apply_actions-AllGrow host ws.id (items xs) r))
  ]
  perform-AllGrow ws x o r ok e =
      close_with-AllGrow (IsGranted host x) ws 1011 (text "invalid handler response") r

  -- Whatever the handler answers, each text that the message puts on a socket is granted by the answer:
  -- a success that is an array of at most 32 actions, one of which has the text as its envelope, of at
  -- most 65536 bytes. What had been sent before stays, and each socket keeps its id and attachment.
  pub message_end-AllGrow :
      (ws : Socket) (x : Response) (r : Room)
      → AllGrow (IsGranted host x) r.sockets (room_of (message_end host ws x r)).sockets
  unfolding message_end
  message_end-AllGrow ws x r = elim (Bool-cases (is_ok x)) [
    | inl ok ↦ rw ok (perform-AllGrow ws x (host.codec.parse x.body) r ok refl)
    | inr bad ↦ rw bad (refuse-AllGrow (IsGranted host x) ws x.status r)
  ]
