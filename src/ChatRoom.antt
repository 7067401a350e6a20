-- ===== src/ChatRoom.antt =====
-- deploy/worker/chat_room.mjs: the Durable Object of a chat room, its sessions and its table of messages.
pub mod Delivery
mod Tests
use mathlib.Core.Option
use akamata.Prelude.{
  ◌>>=◌, ℕ, ◌+◌, Bool, true, false, Option, none, some, List, [], ◌∷◌, ◌++◌, ◌==◌, if◌then◌else◌,
}
use akamata.Prelude.Numbers.{ℤ, pos}
use akamata.Text.{Text, text, same}
use akamata.Json.{Json, null, string, integer, object, Members, end, member, Codec, get, present}
use akamata.R2.Values.{Coding, source_of}

-- A socket of `sessions`; `id` tells the objects apart, and `send` throws on a stale one.
pub record Session : Type 0 where
  pub id : ℕ
  pub stale : Bool
  pub sent : List Text

-- A row of `messages`, without the key that the database gives it
pub record Row : Type 0 where
  pub user : Text
  pub text : Text
  pub created_at : ℕ

pub record ChatRoom : Type 0 where
  pub sessions : List Session
  pub messages : List Row

-- `fetch`: 426, or 101 with a new session. `id` is that of the new pair's server socket.
unfoldable pub fetch : Option Text → ℕ → ChatRoom → ℕ × ChatRoom
unfolding same
fetch none id r = (426, r)
fetch (some upgrade) id r =
    if same upgrade (text "websocket")
    then (
      101,
      record r { sessions = r.sessions ++ (record { id = id; stale = false; sent = [] } ∷ []) },
    )
    else (426, r)

-- `this.sessions.delete(ws)`, on close and on error
unfoldable pub cleanup : ℕ → List Session → List Session
cleanup id [] = []
cleanup id (s ∷ sessions) = if s.id == id then cleanup id sessions else s ∷ cleanup id sessions

-- `JSON.parse(evt.data)`, or what stands for it if that throws
unfoldable pub parse_data : Coding → Text → Json
parse_data c frame = elim (c.codec.parse frame) [
  | some v ↦ v
  | none ↦
      object (member (text "user") (string (text "anon")) (member (text "text") (string frame) end))
]

abbrev pub text_or : Coding → Text → Option Json → Option Text
text_or c other none = some other
text_or c other (some w) = source_of c w

-- `String(value.field ?? other)`; `none` is a throw of `String`
unfoldable pub field_text : Coding → Text → Text → Json → Option Text
unfolding get source_of
field_text c name other v = text_or c other (present (get name v))

-- A field of null is a throw.
unfoldable pub row_of : Coding → ℕ → Json → Option Row
unfolding field_text
row_of c now null = none
row_of c now v = do
  user ← field_text c (text "user") (text "anon") v
  said ← field_text c (text "text") [] v
  some (record { user = user; text = said; created_at = now })

-- `id` is `Number(lastRowId ?? 0)`.
unfoldable pub announcement : Coding → ℤ → Row → Text
announcement c id row = c.codec.stringify (
    object (
      member (text "kind") (string (text "message")) (
        member (text "id") (integer id) (
          member (text "user") (string row.user) (
            member (text "text") (string row.text)
              (member (text "created_at") (integer (pos row.created_at)) end))))))

-- the loop over the sessions: a session on which `send` throws is deleted
unfoldable pub announce : Text → List Session → List Session
announce m [] = []
announce m (s ∷ sessions) =
    if s.stale
    then announce m sessions
    else record s { sent = s.sent ++ (m ∷ []) } ∷ announce m sessions

-- The listener of "message"; `none` is a throw, before anything has changed.
unfoldable pub on_message : Coding → ℕ → ℤ → Text → ChatRoom → Option ChatRoom
unfolding parse_data row_of announcement announce
on_message c now id frame r =
    Option.map
      (λ row. record {
        sessions = announce (announcement c id row) r.sessions;
        messages = r.messages ++ (row ∷ []);
      })
      (row_of c now (parse_data c frame))
