-- ===== src/Realtime/Actions.antt =====
-- `applyAction` (deploy/worker/realtime_object.mjs), and the loop over the actions that the
-- application's handler answers with.
pub mod Bounds
pub mod Broadcast
pub mod Tables
use mathlib.Core.Option
use akamata.Prelude.{
  ℕ, ◌*◌, Bool, true, false, ◌&&◌, Option, none, some, List, [], ◌∷◌, ltb, if◌then◌else◌, length,
  take,
}
use akamata.Prelude.Numbers.{ℤ, pos}
use akamata.Text.{Text, text, same}
use akamata.Text.Utf8.{encode}
use akamata.Json.{Json, null, array, object, Codec, get, string_of, integer_of, present}
use akamata.Realtime.Room.{Socket, Room, Run, done, threw}
use akamata.Realtime.Delivery.{broadcast, send_others, send_to, close}

abbrev pub max_message : ℕ
max_message = 64 * 1024

abbrev pub byte_length : Text → ℕ
byte_length s = length (encode s)

-- What the platform brings: the codec, and which codes and reasons a socket may be closed with.
pub record Host : Type 0 where
  pub codec : Codec
  pub valid_close : ℤ → Text → Bool

-- `action.kind`, with the fields that the branch reads
pub data Kind : Type 0 where
  direct : Text → Kind
  broadcast_all broadcast_except_sender : Kind
  disconnect : ℤ → Text → Kind
  unknown : Kind

abbrev is_kind : Option Text → Text → Bool
is_kind none k = false
is_kind (some s) k = same s k

abbrev or_default {ℓ} : {A : Type ℓ} → Option A → A → A
or_default none d = d
or_default (some a) d = a

direct_kind : Option Text → Kind
direct_kind none = unknown
direct_kind (some c) = direct c

unfoldable pub kind_of : Json → Kind
unfolding get same direct_kind
kind_of action =
    let k = string_of (get (text "kind") action) in
    if is_kind k (text "direct")
    then direct_kind (string_of (get (text "connection_id") action))
    else if is_kind k (text "broadcast")
    then broadcast_all
    else if is_kind k (text "broadcast_except_sender")
    then broadcast_except_sender
    else if is_kind k (text "disconnect")
    then disconnect (or_default (integer_of (get (text "code") action)) (pos 1000)) (
        or_default (Option.map (take 123) (string_of (get (text "reason") action))) (text "closed"))
    else unknown

abbrev pub with_sockets : Room → List Socket → Room
with_sockets r sockets = record r { sockets = sockets }

-- a loop or a send that may have thrown
abbrev pub ending : Bool → Room → Run
ending true r = done r
ending false r = threw r

module _ (host : Host) where
  -- `action.envelope == null ? null : JSON.stringify(action.envelope)`
  unfoldable pub encoded_of : Json → Option Text
  unfolding get
  encoded_of action = Option.map host.codec.stringify (present (get (text "envelope") action))

  -- a branch that wants `&& encoded`
  unfoldable pub deliver : ℕ → Kind → Text → Room → Run
  unfolding broadcast send_others send_to
  deliver sender (direct c) m r =
      let (found, sockets) = send_to c m r.sockets in
      elim found [ none ↦ done r | some ok ↦ ending ok (with_sockets r sockets) ]
  deliver sender broadcast_all m r = done (with_sockets r (broadcast m r.sockets).1)
  deliver sender broadcast_except_sender m r =
      let (ended, sockets) = send_others sender m r.sockets in ending ended (with_sockets r sockets)
  deliver sender (disconnect code reason) m r = done r
  deliver sender unknown m r = done r

  -- `encoded` is truthy: there is one, and it is not the empty string.
  unfoldable pub apply_kind : ℕ → Kind → Option Text → Room → Run
  unfolding deliver close
  apply_kind sender (disconnect code reason) encoded r = close host.valid_close sender code reason r
  apply_kind sender kind none r = done r
  apply_kind sender kind (some []) r = done r
  apply_kind sender kind (some (c ∷ s)) r = deliver sender kind (c ∷ s) r

  abbrev too_long : Option Text → Bool
  too_long none = false
  too_long (some s) = ltb max_message (byte_length s)

  apply_object : ℕ → Json → Room → Run
  unfolding apply_kind kind_of encoded_of
  apply_object sender action r =
      if too_long (encoded_of action)
      then done r
      else apply_kind sender (kind_of action) (encoded_of action) r

  -- `if (!action || typeof action !== "object") return;`
  unfoldable pub apply_action : ℕ → Json → Room → Run
  unfolding apply_object
  apply_action sender (object ms) r = apply_object sender (object ms) r
  apply_action sender (array xs) r = apply_object sender (array xs) r
  apply_action sender _ r = done r

  -- `for (const action of actions) await this.applyAction(ws, action)`: a throw ends the loop.
  unfoldable pub apply_actions : ℕ → List Json → Room → Run
  unfolding apply_action
  apply_actions sender [] r = done r
  apply_actions sender (a ∷ actions) r = elim (apply_action sender a r) [
    | done r' ↦ apply_actions sender actions r'
    | threw r' ↦ threw r'
  ]
