-- ===== src/Realtime/Room.antt =====
-- The state of `AkamataRealtimeRoom` (deploy/worker/realtime_object.mjs): the sockets of the object and
-- its two SQL tables, `akamata_presence` and `akamata_room_state`.
pub mod Laws
use akamata.Prelude.{
  ℕ, ◌+◌, Bool, true, false, Option, none, some, List, [], ◌∷◌, ◌++◌, ◌==◌, if◌then◌else◌, length,
}
use akamata.Prelude.Numbers.{ℤ}
use akamata.Text.{Text, text, same}
use akamata.Json.{Json, Codec}
use mathlib.Core.Option

-- What `serializeAttachment` stores with a socket.
pub record Attachment : Type 0 where
  pub connection_id : Text
  pub identity : Text
  pub principal : Text
  pub metadata : Text
  pub connected_at : ℕ

-- A server socket. `stale`: `send` throws. `id` tells the objects apart.
pub record Socket : Type 0 where
  pub id : ℕ
  pub attachment : Option Attachment
  pub stale : Bool
  pub sent : List Text
  pub closed : Option (ℤ × Text)

-- A row of `akamata_presence`, by its primary key
pub record Presence : Type 0 where
  pub connection_id : Text
  pub identity : Text
  pub metadata : Text
  pub connected_at : ℕ
  pub last_seen : ℕ

-- A row of `akamata_room_state`
pub record Entry : Type 0 where
  pub key : Text
  pub value : Text
  pub updated_at : ℕ

pub record Room : Type 0 where
  pub sockets : List Socket
  pub presence : List Presence
  pub entries : List Entry

-- A handler that returns, or throws after what it has done.
pub data Run : Type 0 where
  done : Room → Run
  threw : Room → Run

abbrev pub room_of : Run → Room
room_of (done r) = r
room_of (threw r) = r

-- INSERT … ON CONFLICT(connection_id) DO UPDATE SET …
unfoldable pub upsert_presence : Presence → List Presence → List Presence
unfolding same
upsert_presence p [] = p ∷ []
upsert_presence p (q ∷ ps) =
    if same q.connection_id p.connection_id then p ∷ ps else q ∷ upsert_presence p ps

-- UPDATE akamata_presence SET last_seen=? WHERE connection_id=?
unfoldable pub touch_presence : ℕ → Text → List Presence → List Presence
unfolding same
touch_presence now c [] = []
touch_presence now c (q ∷ ps) =
    (if same q.connection_id c then record q { last_seen = now } else q) ∷ touch_presence now c ps

-- DELETE FROM akamata_presence WHERE connection_id=?
unfoldable pub delete_presence : Text → List Presence → List Presence
unfolding same
delete_presence c [] = []
delete_presence c (q ∷ ps) =
    if same q.connection_id c then delete_presence c ps else q ∷ delete_presence c ps

unfoldable pub find_presence : Text → List Presence → Option Presence
unfolding same
find_presence c [] = none
find_presence c (q ∷ ps) = if same q.connection_id c then some q else find_presence c ps

unfoldable pub upsert_entry : Entry → List Entry → List Entry
unfolding same
upsert_entry e [] = e ∷ []
upsert_entry e (x ∷ es) = if same x.key e.key then e ∷ es else x ∷ upsert_entry e es

unfoldable pub find_entry : Text → List Entry → Option Entry
unfolding same
find_entry k [] = none
find_entry k (x ∷ es) = if same x.key k then some x else find_entry k es

-- `putState`
unfoldable pub put_state : Codec → ℕ → Text → Json → Room → Room
unfolding upsert_entry
put_state codec now key value r = record r {
  entries =
      upsert_entry (record { key = key; value = codec.stringify value; updated_at = now })
        r.entries;
}

-- `getState`: the outer `none` is a throw of `JSON.parse`, the inner one is null
unfoldable pub get_state : Codec → Text → Room → Option (Option Json)
unfolding find_entry
get_state codec key r = elim (find_entry key r.entries) [
  | none ↦ some none
  | some row ↦ Option.map some (codec.parse row.value)
]

-- `ws.deserializeAttachment()?.connectionId`
abbrev pub connection_of : Socket → Option Text
connection_of ws = Option.map (λ a. a.connection_id) ws.attachment

-- `!value` of a string that may be absent
abbrev pub truthy : Option Text → Option Text
truthy none = none
truthy (some []) = none
truthy (some (c ∷ s)) = some (c ∷ s)

-- `webSocketClose` and `webSocketError`
unfoldable pub forget : Socket → Room → Room
unfolding delete_presence
forget ws r = elim (truthy (connection_of ws)) [
  | none ↦ r
  | some c ↦ record r { presence = delete_presence c r.presence }
]

-- a `Set` of strings
unfoldable pub add_member : Text → List Text → List Text
unfolding same
add_member m [] = m ∷ []
add_member m (x ∷ xs) = if same x m then x ∷ xs else x ∷ add_member m xs

unfoldable pub members : List Socket → List Text → List Text
unfolding add_member
members [] found = found
members (ws ∷ sockets) found =
    members sockets (elim (truthy (Option.map (λ a. a.identity) ws.attachment)) [
      | none ↦ found
      | some m ↦ add_member m found
    ])

-- `presence()`: the numbers of connections and of members
unfoldable pub presence_of : Room → ℕ × ℕ
unfolding members
presence_of r = (length r.sockets, length (members r.sockets []))
