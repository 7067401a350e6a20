-- ===== src/Realtime/Actions/Tables.antt =====
-- The actions of an answer change sockets only
-- (`applyAction` of deploy/worker/realtime_object.mjs).
use akamata.Prelude.{ℕ, ◌≡◌, refl, ◌∙◌, Bool, true, false, Option, none, some, List, [], ◌∷◌, arith}
use akamata.Prelude.Numbers.{ℤ}
use akamata.Text.{Text}
use akamata.Json.{Json, object, array}
use akamata.Realtime.Room.{Socket, Room, Run, done, threw, room_of}
use akamata.Realtime.Delivery.{send_to, send_others, close}
use akamata.Realtime.Actions.{
  Host, Kind, direct, broadcast_all, broadcast_except_sender, disconnect, unknown, kind_of,
  encoded_of, ending, with_sockets, deliver, apply_kind, apply_object, apply_action, apply_actions,
}

-- the tables as they were
abbrev pub SameTables : Room → Room → Type 0
SameTables r r' = (r'.presence ≡ r.presence) × (r'.entries ≡ r.entries)

module _ (host : Host) where
  pub close-SameTables :
      (id : ℕ) (code : ℤ) (reason : Text) (r : Room)
      → SameTables r (room_of (close host.valid_close id code reason r))
  unfolding close
  close-SameTables id code reason r = ground arith

  ending-SameTables :
      (b : Bool) (r : Room) (ss : List Socket)
      → SameTables r (room_of (ending b (with_sockets r ss)))
  ending-SameTables true r ss = (refl, refl)
  ending-SameTables false r ss = (refl, refl)

  found-SameTables :
      (o : Option Bool) (r : Room) (ss : List Socket)
      → SameTables r (room_of (elim o [ none ↦ done r | some ok ↦ ending ok (with_sockets r ss) ]))
  found-SameTables none r ss = (refl, refl)
  found-SameTables (some ok) r ss = ending-SameTables ok r ss

  deliver-SameTables :
      (sender : ℕ) (kind : Kind) (m : Text) (r : Room)
      → SameTables r (room_of (deliver host sender kind m r))
  unfolding deliver
  deliver-SameTables sender (direct c) m r =
      found-SameTables (send_to c m r.sockets).0 r (send_to c m r.sockets).1
  deliver-SameTables sender broadcast_all m r = (refl, refl)
  deliver-SameTables sender broadcast_except_sender m r =
      ending-SameTables (send_others sender m r.sockets).0 r (send_others sender m r.sockets).1
  deliver-SameTables sender (disconnect code reason) m r = (refl, refl)
  deliver-SameTables sender unknown m r = (refl, refl)

  kind-SameTables :
      (sender : ℕ) (kind : Kind) (encoded : Option Text) (r : Room)
      → SameTables r (room_of (apply_kind host sender kind encoded r))
  unfolding apply_kind
  kind-SameTables sender (disconnect code reason) encoded r = close-SameTables sender code reason r
  kind-SameTables sender kind none r = (refl, refl)
  kind-SameTables sender kind (some []) r = (refl, refl)
  kind-SameTables sender kind (some (c ∷ s)) r = deliver-SameTables sender kind (c ∷ s) r

  object-SameTables :
      (sender : ℕ) (a : Json) (r : Room) → SameTables r (room_of (apply_object host sender a r))
  unfolding apply_object
  object-SameTables sender a r =
      ground (arith, kind-SameTables sender (kind_of a) (encoded_of host a) r)

  action-SameTables :
      (sender : ℕ) (a : Json) (r : Room) → SameTables r (room_of (apply_action host sender a r))
  unfolding apply_action
  action-SameTables sender (object ms) r = object-SameTables sender (object ms) r
  action-SameTables sender (array xs) r = object-SameTables sender (array xs) r
  action-SameTables sender a r = (refl, refl)

  after-SameTables :
      (sender : ℕ) (actions : List Json) (r : Room) (x : Run)
      → ((r' : Room) → SameTables r' (room_of (apply_actions host sender actions r')))
      → SameTables r (room_of x)
      → SameTables r (
          room_of (elim x [ done r' ↦ apply_actions host sender actions r' | threw r' ↦ threw r' ]))
  after-SameTables sender actions r (done r') rest g = ((rest r').0 ∙ g.0, (rest r').1 ∙ g.1)
  after-SameTables sender actions r (threw r') rest g = g

  pub actions-SameTables :
      (sender : ℕ) (actions : List Json) (r : Room)
      → SameTables r (room_of (apply_actions host sender actions r))
  unfolding apply_actions
  actions-SameTables sender [] r = (refl, refl)
  actions-SameTables sender (a ∷ actions) r =
      after-SameTables sender actions r (apply_action host sender a r)
        (λ r'. actions-SameTables sender actions r') (action-SameTables sender a r)
