-- ===== src/Gateway.antt =====
-- deploy/worker/index.mjs and internal_routes.mjs: the public `fetch` of the worker. It sends a request to
-- the instance, to a chat room or to a realtime room; for the last it awaits the application's
-- authorization: `gateway_begin` is what it does before, `gateway_end` what it does after.
pub mod Uri
pub mod Routes
pub mod Grant
pub mod Admission
mod Tests
use mathlib.Core.Option
use akamata.Prelude.{
  ◌>>=◌, ℕ, zero, suc, ◌+◌, Bool, true, false, not, ◌&&◌, ◌||◌, Option, none, some, List, [], ◌∷◌,
  ltb, leb, ◌==◌, if◌then◌else◌, length,
}
use mathlib.Core.List.{reverse}
use akamata.Text.{Text, text, same, is_digit, to_lower}
use akamata.Json.{Json, null, array, object, Members, end, Codec, get, string_of}
use akamata.Http.{Fields, Web, Request}
use akamata.Realtime.Actions.{byte_length}
use akamata.Realtime.Message.{Response, is_ok}
use akamata.Realtime.Join.{Handshake, is_text, max_metadata}
use Uri.{decode_component}

abbrev pub authorize_path : Text
authorize_path = text "/__akamata/realtime/authorize"

abbrev pub message_path : Text
message_path = text "/realtime/message"

-- `isInternalRealtimePath`
unfoldable pub is_internal_path : Text → Bool
unfolding same
is_internal_path p = same p authorize_path || same p message_path

-- the string after the prefix
unfoldable pub strip_prefix : Text → Text → Option Text
strip_prefix [] s = some s
strip_prefix (c ∷ p) [] = none
strip_prefix (c ∷ p) (d ∷ s) = let rest = strip_prefix p s in if c == d then rest else none

-- `(\d+)` and the end `t` of the path: the digits before `t`, if there is nothing else
unfoldable pub digits_before : Text → Text → Option Text
unfolding same is_digit
digits_before t [] = none
digits_before t (c ∷ s) =
    let rest = digits_before t s in
    if is_digit c
    then (if same s t then some (c ∷ []) else Option.map (λ ds. c ∷ ds) rest)
    else none

-- `/^\/rooms\/(\d+)\/ws$/`
unfoldable pub chat_room_name : Text → Option Text
unfolding strip_prefix digits_before
chat_room_name p = Option.bind (strip_prefix (text "/rooms/") p) (digits_before (text "/ws"))

abbrev pub has_slash : Text → Bool
has_slash [] = false
has_slash (c ∷ s) = c == b'/' || has_slash s

-- `([^/]+)` and the end of the path
unfoldable pub segment : Text → Option Text
segment [] = none
segment (c ∷ s) = if has_slash (c ∷ s) then none else some (c ∷ s)

-- `/^\/realtime\/([^/]+)$/`
unfoldable pub realtime_name : Text → Option Text
unfolding strip_prefix segment
realtime_name p = Option.bind (strip_prefix (text "/realtime/") p) segment

-- `request.headers.get(name)`; the platform keeps names in lower case
unfoldable pub header : Text → Fields → Option Text
unfolding same
header name [] = none
header name ((k, v) ∷ hs) = if same k name then some v else header name hs

-- What becomes of a request.
pub data Route : Type 0 where
  -- an answer with a status and an error name
  rejected : ℕ → Text → Route
  -- the request itself goes to the chat room of the name
  chat_room : Text → Route
  -- POST to the authorization path, with the resource and the client's `Authorization`, and no other
  -- header of the client's
  authorizes : Text → Text → Route
  -- the request itself goes to the instance
  dispatches : Route
  -- a throw
  failed : Route

abbrev pub max_authorization : ℕ
max_authorization = 8192

-- `!authorization || authorization.length > 8192`
unfoldable pub credentials : Option Text → Option Text
credentials none = none
credentials (some []) = none
credentials (some (c ∷ s)) = if ltb max_authorization (length (c ∷ s)) then none else some (c ∷ s)

unfoldable pub authorize : Text → Option Text → Route
unfolding decode_component credentials
authorize name authorization = elim (decode_component name) [
  | none ↦ failed
  | some resource ↦ elim (credentials authorization) [
    | none ↦ rejected 401 (text "unauthorized")
    | some a ↦ authorizes resource a
  ]
]

unfoldable pub realtime_route : Option Text → Request → Route
unfolding authorize header to_lower same
realtime_route none r = dispatches
realtime_route (some name) r =
    if is_text (Option.map to_lower (header (text "upgrade") r.headers)) (text "websocket")
    then authorize name (header (text "authorization") r.headers)
    else dispatches

unfoldable pub chat_route : Option Text → Request → Route
unfolding realtime_route realtime_name header same
chat_route none r = realtime_route (realtime_name r.pathname) r
chat_route (some name) r =
    if is_text (header (text "upgrade") r.headers) (text "websocket")
    then chat_room name
    else realtime_route (realtime_name r.pathname) r

unfoldable pub gateway_begin : Request → Route
unfolding is_internal_path chat_route chat_room_name
gateway_begin r =
    if is_internal_path r.pathname
    then rejected 404 (text "not_found")
    else chat_route (chat_room_name r.pathname) r

-- `AkamataRealtimeApplication.fetch`, over the service binding: true if the request is dispatched
unfoldable pub application_accepts : Request → Bool
unfolding same
application_accepts r = same r.method (text "POST") && same r.pathname message_path
