-- ===== src/Realtime/Events.antt =====
-- The life of a room (deploy/worker/realtime_object.mjs): the events that the platform delivers to the
-- object, in any order. A message is two events, since the room may change while the handler is asked.
pub mod Soundness
pub mod Promises
pub mod Replay
use akamata.Prelude.{ℕ, Bool, true, List, [], ◌∷◌, ◌==◌, if◌then◌else◌}
use akamata.Text.{Text}
use akamata.Json.{Json}
use akamata.Realtime.Room.{Socket, Room, room_of, forget, put_state}
use akamata.Realtime.Actions.{Host}
use akamata.Realtime.Message.{Message, Response, begun_room, message_begin, message_end}
use akamata.Realtime.Join.{Handshake, fetch}

pub data Event : Type 0 where
  -- `fetch`, with the time and the id of the new socket
  connects : ℕ → ℕ → Handshake → Event
  -- `webSocketMessage`, up to the await
  receives : ℕ → Bool → Socket → Message → Event
  -- the rest of it
  answers : Socket → Response → Event
  -- `webSocketClose` and `webSocketError`
  leaves : Socket → Event
  -- The platform takes a closed socket, by its id, from those of the room; and `send` throws on a socket from now on.
  drops breaks : ℕ → Event
  -- `putState`
  stores : ℕ → Text → Json → Event

-- what the platform does to its list of sockets
unfoldable pub without : ℕ → List Socket → List Socket
without id [] = []
without id (ws ∷ sockets) = if ws.id == id then without id sockets else ws ∷ without id sockets

unfoldable pub broken : ℕ → List Socket → List Socket
broken id [] = []
broken id (ws ∷ sockets) =
    (if ws.id == id then record ws { stale = true } else ws) ∷ broken id sockets

module _ (host : Host) where
  unfoldable pub handle : Event → Room → Room
  unfolding fetch message_begin message_end forget put_state without broken
  handle (connects now server h) r = (fetch host.codec now server h r).1
  handle (receives now available ws message) r =
      begun_room (message_begin host now available ws message r)
  handle (answers ws x) r = room_of (message_end host ws x r)
  handle (leaves ws) r = forget ws r
  handle (drops id) r = record r { sockets = without id r.sockets }
  handle (breaks id) r = record r { sockets = broken id r.sockets }
  handle (stores now key value) r = put_state host.codec now key value r

  unfoldable pub handle_all : List Event → Room → Room
  unfolding handle
  handle_all [] r = r
  handle_all (e ∷ events) r = handle_all events (handle e r)
