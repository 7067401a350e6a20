-- ===== src/Realtime/Join.antt =====
-- `fetch` of the room (deploy/worker/realtime_object.mjs): the gateway's handshake.
pub mod Authorized
use mathlib.Core.Option
use akamata.Prelude.{
  ◌>>=◌, ℕ, Bool, true, false, ◌&&◌, not, Option, none, some, List, [], ◌∷◌, ◌++◌, ltb,
  if◌then◌else◌,
}
use akamata.Text.{Text, text, same, to_lower}
use akamata.Json.{Codec, is_some}
use akamata.Realtime.Room.{Attachment, Socket, Room, truthy, upsert_presence, presence_of}
use akamata.Realtime.Actions.{byte_length}

-- The headers that `fetch` reads
pub record Handshake : Type 0 where
  pub upgrade : Option Text
  pub authorized : Option Text
  pub connection_id : Option Text
  pub logical_identity : Option Text
  pub principal : Option Text
  pub metadata : Option Text

-- the answers: `presence()`, an error with its status, and 101
pub data Welcome : Type 0 where
  counts : ℕ × ℕ → Welcome
  refused : ℕ → Text → Welcome
  switching : Welcome

-- What the checked headers hold
pub record Identified : Type 0 where
  pub connection_id : Text
  pub identity : Text
  pub principal : Text
  pub metadata : Text

abbrev pub is_text : Option Text → Text → Bool
is_text none t = false
is_text (some s) t = same s t

abbrev pub max_metadata : ℕ
max_metadata = 4096

-- `request.headers.get("X-Akamata-Metadata") ?? "{}"`
abbrev pub or_empty : Option Text → Text
or_empty none = text "{}"
or_empty (some m) = m

-- `!connectionId || !identity || !principal`
unfoldable pub identified : Handshake → Option Identified
identified h = do
  c ← truthy h.connection_id
  i ← truthy h.logical_identity
  p ← truthy h.principal
  some (record { connection_id = c; identity = i; principal = p; metadata = or_empty h.metadata })

-- `server` is the id of the new pair's server socket.
unfoldable pub accept : ℕ → ℕ → Identified → Room → Room
unfolding upsert_presence
accept now server who r = record r {
  sockets =
      r.sockets
      ++ record {
        id = server;
        attachment = some (record {
          connection_id = who.connection_id;
          identity = who.identity;
          principal = who.principal;
          metadata = who.metadata;
          connected_at = now;
        });
        stale = false;
        sent = [];
        closed = none;
      }
        ∷ [];
  presence =
      upsert_presence
        (record {
          connection_id = who.connection_id;
          identity = who.identity;
          metadata = who.metadata;
          connected_at = now;
          last_seen = now;
        })
        r.presence;
}

unfoldable pub admit_identified : Codec → ℕ → ℕ → Option Identified → Room → Welcome × Room
unfolding accept
admit_identified codec now server none r = (refused 500 (text "invalid_authorization_context"), r)
admit_identified codec now server (some who) r =
    if ltb max_metadata (byte_length who.metadata)
    then (refused 413 (text "metadata_too_large"), r)
    else if not (is_some (codec.parse who.metadata) && is_some (codec.parse who.principal))
    then (refused 400 (text "invalid_metadata"), r)
    else (switching, accept now server who r)

unfoldable pub fetch : Codec → ℕ → ℕ → Handshake → Room → Welcome × Room
unfolding identified admit_identified presence_of
fetch codec now server h r =
    if not (is_text (Option.map to_lower h.upgrade) (text "websocket"))
    then (counts (presence_of r), r)
    else if not (is_text h.authorized (text "1"))
    then (refused 401 (text "unauthorized"), r)
    else admit_identified codec now server (identified h) r
