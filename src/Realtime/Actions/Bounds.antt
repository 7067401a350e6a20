-- ===== src/Realtime/Actions/Bounds.antt =====
-- What the actions of one answer can put on a socket (deploy/worker/realtime_object.mjs).
use mathlib.Core.List.{Memᴰ}
use mathlib.Core.List.Memᴰ.{head, tail}
use akamata.Prelude.{
  ℕ, ◌≤◌, ◌≡◌, refl, subst, Bool, true, false, Option, none, some, List, [], ◌∷◌, arith, Bool-cases,
  inl, inr,
}
use akamata.Prelude.Numbers.{ℤ}
use akamata.Text.{Text}
use akamata.Json.{Json, array, object}
use akamata.Realtime.Room.{Socket, Room, Run, done, threw, room_of}
use akamata.Realtime.Delivery.{send_others, send_to, close}
use akamata.Realtime.Actions.{
  max_message, byte_length, Host, Kind, direct, broadcast_all, broadcast_except_sender, disconnect,
  unknown, kind_of, encoded_of, ending, with_sockets, deliver, apply_kind, too_long, apply_object,
  apply_action, apply_actions,
}
use akamata.Realtime.Growth.{
  AllGrow, AllGrow-refl, AllGrow-trans, AllGrow-weaken, broadcast-AllGrow, send_others-AllGrow,
  send_to-AllGrow, close_socket-AllGrow,
}

module _ (host : Host) (P : Text → Type 0) where
  pub close-AllGrow :
      (sender : ℕ) (code : ℤ) (reason : Text) (r : Room)
      → AllGrow P r.sockets (room_of (close host.valid_close sender code reason r)).sockets
  unfolding close
  close-AllGrow sender code reason r =
      ground (arith, close_socket-AllGrow P sender code reason r.sockets, AllGrow-refl P r.sockets)

  ending-AllGrow :
      (b : Bool) (r : Room) (ss : List Socket)
      → AllGrow P r.sockets ss
      → AllGrow P r.sockets (room_of (ending b (with_sockets r ss))).sockets
  ending-AllGrow true r ss g = g
  ending-AllGrow false r ss g = g

  send_to_ending :
      (o : Option Bool) (r : Room) (ss : List Socket)
      → AllGrow P r.sockets ss
      → AllGrow P r.sockets r.sockets
      → AllGrow P r.sockets
          (room_of (elim o [ none ↦ done r | some ok ↦ ending ok (with_sockets r ss) ])).sockets
  send_to_ending none r ss g h = h
  send_to_ending (some ok) r ss g h = ending-AllGrow ok r ss g

  deliver-AllGrow :
      (sender : ℕ) (kind : Kind) (m : Text) (r : Room)
      → P m
      → AllGrow P r.sockets (room_of (deliver host sender kind m r)).sockets
  unfolding deliver
  deliver-AllGrow sender (direct c) m r p =
      send_to_ending (send_to c m r.sockets).0 r (send_to c m r.sockets).1
        (send_to-AllGrow P m p c r.sockets) (AllGrow-refl P r.sockets)
  deliver-AllGrow sender broadcast_all m r p = broadcast-AllGrow P m p r.sockets
  deliver-AllGrow sender broadcast_except_sender m r p =
      ending-AllGrow (send_others sender m r.sockets).0 r (send_others sender m r.sockets).1
        (send_others-AllGrow P m p sender r.sockets)
  deliver-AllGrow sender (disconnect code reason) m r p = AllGrow-refl P r.sockets
  deliver-AllGrow sender unknown m r p = AllGrow-refl P r.sockets

  apply_kind-AllGrow :
      (sender : ℕ) (kind : Kind) (encoded : Option Text) (r : Room)
      → ((m : Text) → encoded ≡ some m → P m)
      → AllGrow P r.sockets (room_of (apply_kind host sender kind encoded r)).sockets
  unfolding apply_kind
  apply_kind-AllGrow sender (disconnect code reason) encoded r p =
      close-AllGrow sender code reason r
  apply_kind-AllGrow sender kind none r p = AllGrow-refl P r.sockets
  apply_kind-AllGrow sender kind (some []) r p = AllGrow-refl P r.sockets
  apply_kind-AllGrow sender kind (some (c ∷ s)) r p =
      deliver-AllGrow sender kind (c ∷ s) r (p (c ∷ s) refl)

-- The texts that one action may put on a socket: its own envelope, encoded, within the limit.
abbrev pub IsFrom : Host → Json → Text → Type 0
IsFrom host a m = (encoded_of host a ≡ some m) × (byte_length m ≤ max_message)

-- The texts that one of the actions may put on a socket.
abbrev pub IsFromOne : Host → List Json → Text → Type 0
IsFromOne host actions m = (a : Json) × Memᴰ a actions × IsFrom host a m

module _ (host : Host) where
  apply_object-AllGrow :
      (sender : ℕ) (a : Json) (r : Room)
      → AllGrow (IsFrom host a) r.sockets (room_of (apply_object host sender a r)).sockets
  unfolding apply_object
  apply_object-AllGrow sender a r = elim (Bool-cases (too_long host (encoded_of host a))) [
    | inl long ↦ rw (long, apply_object) (AllGrow-refl (IsFrom host a) r.sockets)
    | inr short ↦
        rw (short, apply_object)
          (apply_kind-AllGrow host (IsFrom host a) sender (kind_of a) (encoded_of host a) r
            (λ m e. (e, fits m (subst (λ o. too_long host o ≡ false) e short))))
  ]
    where
      fits : (m : Text) → too_long host (some m) ≡ false → byte_length m ≤ max_message
      fits m e = ground arith

  apply_action-AllGrow :
      (sender : ℕ) (a : Json) (r : Room)
      → AllGrow (IsFrom host a) r.sockets (room_of (apply_action host sender a r)).sockets
  unfolding apply_action
  apply_action-AllGrow sender (object ms) r = apply_object-AllGrow sender (object ms) r
  apply_action-AllGrow sender (array xs) r = apply_object-AllGrow sender (array xs) r
  apply_action-AllGrow sender a r = AllGrow-refl (IsFrom host a) r.sockets

  after :
      (sender : ℕ) (a : Json) (actions : List Json) (r : Room) (x : Run)
      → ((r' : Room)
          → AllGrow
              (IsFromOne host actions)
              r'.sockets
              (room_of (apply_actions host sender actions r')).sockets)
      → AllGrow (IsFrom host a) r.sockets (room_of x).sockets
      → AllGrow
          (IsFromOne host (a ∷ actions))
          r.sockets
          (room_of (elim x [
            | done r' ↦ apply_actions host sender actions r'
            | threw r' ↦ threw r'
          ])).sockets
  after sender a actions r (done r') rest g =
      AllGrow-trans (IsFromOne host (a ∷ actions)) r.sockets r'.sockets
        (room_of (apply_actions host sender actions r')).sockets
        (AllGrow-weaken (λ m p. (a, head refl, p)) r.sockets r'.sockets g)
        (AllGrow-weaken (λ m p. (p.0, tail p.1, p.2)) r'.sockets
          (room_of (apply_actions host sender actions r')).sockets (rest r'))
  after sender a actions r (threw r') rest g =
      AllGrow-weaken (λ m p. (a, head refl, p)) r.sockets r'.sockets g

  -- Whatever the actions, and whether or not one of them throws: every socket keeps its id and its
  -- attachment, what had been sent to it stays, and each text that is sent to it in addition is the
  -- encoded envelope of one of the actions, of at most 65536 bytes of UTF-8.
  pub apply_actions-AllGrow :
      (sender : ℕ) (actions : List Json) (r : Room)
      → AllGrow
          (IsFromOne host actions)
          r.sockets
          (room_of (apply_actions host sender actions r)).sockets
  unfolding apply_actions
  apply_actions-AllGrow sender [] r = AllGrow-refl (IsFromOne host []) r.sockets
  apply_actions-AllGrow sender (a ∷ actions) r =
      after sender a actions r (apply_action host sender a r)
        (λ r'. apply_actions-AllGrow sender actions r') (apply_action-AllGrow sender a r)
