-- ===== src/Gateway/Tests.antt =====
-- The gateway at concrete requests and grants (deploy/worker/index.mjs).
use mathlib.Core.Option
use akamata.Prelude.{◌≡◌, ◌≢◌, refl, true, none, some, [], ◌∷◌, arith, if◌then◌else◌}
use akamata.Text.{Text, text, same}
use akamata.Json.{Json, string, array, object, nil, end, member, Codec}
use akamata.Http.{Fields, Web, Request}
use akamata.Realtime.Room.{Room}
use akamata.Realtime.Message.{Response}
use akamata.Gateway.{rejected, chat_room, authorizes, gateway_begin}
use akamata.Gateway.Routes.{IsOpening, IsPublic, gateway_begin-authorizes}
use akamata.Gateway.Grant.{Grant}

abbrev request : Text → Fields → Request
request path headers = record {
  method = text "GET";
  pathname = path;
  search = [];
  host = text "a.b";
  headers = headers;
  body = [];
}

abbrev opening : Request
opening =
    request (text "/realtime/a%2Fb")
      ((text "upgrade", text "WebSocket") ∷ (text "authorization", text "Bearer x") ∷ [])

opens_resource : gateway_begin opening ≡ authorizes (text "a/b") (text "Bearer x")
unfolding gateway_begin Option.bind
opens_resource = refl

gateway_begin-authorizes_example :
    IsOpening opening (text "a/b") (text "Bearer x") × IsPublic opening.pathname
gateway_begin-authorizes_example =
    gateway_begin-authorizes opening (text "a/b") (text "Bearer x") opens_resource

chats :
    gateway_begin (request (text "/rooms/12/ws") ((text "upgrade", text "websocket") ∷ []))
    ≡ chat_room (text "12")
unfolding gateway_begin Option.bind
chats = refl

hides : gateway_begin (request (text "/realtime/message") []) ≡ rejected 404 (text "not_found")
unfolding gateway_begin
hides = refl

not_hidden : gateway_begin opening ≢ rejected 404 (text "not_found")
unfolding gateway_begin
not_hidden e = ground arith

abbrev granted : Json
granted = object (
    member (text "room") (string (text "r")) (
      member (text "logical_identity") (string (text "ada"))
        (member (text "principal") (array nil) end)))

-- a codec that reads "{}" and the answer of the application, and writes "{}"
abbrev toy : Codec
toy = record {
  parse = λ s.
      if same s (text "{}")
      then some (object end)
      else if same s (text "grant")
      then some granted
      else none;
  stringify = λ v. text "{}";
}

abbrev web : Web
web = record { valid_header = λ k v. true; constructible = λ s b. true }

abbrev grant : Grant
grant = record {
  room = text "r";
  identity = text "ada";
  principal = array nil;
  metadata = object end;
}

abbrev answer : Response
answer = record { status = 200; body = text "grant" }

abbrev empty : Room
empty = record { sockets = []; presence = []; entries = [] }
