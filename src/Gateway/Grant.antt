-- ===== src/Gateway/Grant.antt =====
-- deploy/worker/index.mjs: what the worker makes of the application's authorization.
use mathlib.Core.List.{reverse}
use akamata.Prelude.{
  ◌>>=◌, ℕ, not, ◌&&◌, ◌||◌, Option, none, some, [], ◌∷◌, ltb, leb, ◌==◌, if◌then◌else◌, length,
}
use akamata.Text.{Text, text}
use akamata.Json.{Json, null, array, object, end, Codec, get, string_of}
use akamata.Http.{Web}
use akamata.Realtime.Actions.{byte_length}
use akamata.Realtime.Message.{Response, is_ok}
use akamata.Realtime.Join.{Handshake, max_metadata}

-- What the application grants.
pub record Grant : Type 0 where
  pub room : Text
  pub identity : Text
  pub principal : Json
  pub metadata : Json

abbrev pub max_name : ℕ
max_name = 256

-- a string of 1 to 256 code units
unfoldable pub name_of : Option Json → Option Text
name_of o = elim (string_of o) [
  | none ↦ none
  | some s ↦ if ltb 0 (length s) && leb (length s) max_name then some s else none
]

-- a value that is truthy, and whose type is "object"
abbrev pub object_of : Option Json → Option Json
object_of (some (object ms)) = some (object ms)
object_of (some (array xs)) = some (array xs)
object_of _ = none

-- `authorized.metadata ?? {}`
abbrev pub or_empty_object : Option Json → Json
or_empty_object none = object end
or_empty_object (some null) = object end
or_empty_object (some v) = v

-- `isAuthorizedConnection`, with the fields that are used when it holds
unfoldable pub grant_of : Json → Option Grant
unfolding get name_of
grant_of v = do
  room ← name_of (get (text "room") v)
  identity ← name_of (get (text "logical_identity") v)
  principal ← object_of (get (text "principal") v)
  some (record {
    room = room;
    identity = identity;
    principal = principal;
    metadata = or_empty_object (get (text "metadata") v);
  })

-- What the worker does next: an answer with a status and an error name, a request to the room of the
-- name, or a throw.
pub data Opening : Type 0 where
  refuses : ℕ → Text → Opening
  opens : Text → Handshake → Opening
  fails : Opening

-- what `Headers.set` takes off both ends of a value
unfoldable pub strip_start : Text → Text
strip_start [] = []
strip_start (c ∷ s) = if c == 9 || c == 10 || c == 13 || c == 32 then strip_start s else c ∷ s

unfoldable pub normalize : Text → Text
unfolding strip_start
normalize s = reverse (strip_start (reverse (strip_start s)))

module _ (web : Web) (codec : Codec) where
  -- `internal.set(name, value)`, with the value that `get` gives afterwards; `none` is a throw
  unfoldable pub set_value : Text → Text → Option Text
  unfolding normalize
  set_value name value =
      if web.valid_header name (normalize value) then some (normalize value) else none

  -- the headers of the request to the room
  unfoldable pub handshake : Text → Grant → Option Handshake
  unfolding set_value
  handshake uuid g = do
    connection ← set_value (text "X-Akamata-Connection-Id") uuid
    identity ← set_value (text "X-Akamata-Logical-Identity") g.identity
    principal ← set_value (text "X-Akamata-Principal") (codec.stringify g.principal)
    metadata ← set_value (text "X-Akamata-Metadata") (codec.stringify g.metadata)
    some (record {
      upgrade = some (text "websocket");
      authorized = some (text "1");
      connection_id = some connection;
      logical_identity = some identity;
      principal = some principal;
      metadata = some metadata;
    })

  unfoldable pub open_room : Text → Option Grant → Opening
  unfolding handshake
  open_room uuid none = refuses 500 (text "authorization_failed")
  open_room uuid (some g) =
      if ltb max_metadata (byte_length (codec.stringify g.metadata))
      then refuses 500 (text "metadata_too_large")
      else elim (handshake uuid g) [ none ↦ fails | some h ↦ opens g.room h ]

  -- After `authResponse`; `uuid` is what `crypto.randomUUID()` gives.
  unfoldable pub gateway_end : Text → Response → Opening
  unfolding open_room grant_of
  gateway_end uuid x =
      if not (is_ok x)
      then (if x.status == 403
          then refuses 403 (text "forbidden")
          else refuses 401 (text "unauthorized"))
      else elim (codec.parse x.body) [
        | none ↦ refuses 500 (text "authorization_failed")
        | some v ↦ open_room uuid (grant_of v)
      ]
