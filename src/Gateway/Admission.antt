-- ===== src/Gateway/Admission.antt =====
-- The handshake that the worker makes is one that the room accepts
-- (deploy/worker/index.mjs and deploy/worker/realtime_object.mjs).
use akamata.Prelude.{
  ℕ, ◌≤◌, ◌≡◌, ◌≢◌, true, false, none, some, [], ◌∷◌, ◌++◌, arith, Option-cases, inl, inr,
}
use akamata.Text.{Text, text}
use akamata.Json.{Json, Codec, is_some}
use akamata.Http.{Web}
use akamata.Realtime.Room.{Room, find_presence}
use akamata.Realtime.Actions.{byte_length}
use akamata.Realtime.Message.{Response, is_ok}
use akamata.Realtime.Join.{Handshake, max_metadata, Identified}
use akamata.Gateway.Grant.{Grant, grant_of, opens, normalize, handshake, open_room, gateway_end}

-- `JSON.stringify` writes no white space around a value, and `JSON.parse` takes what it writes.
pub record IsFaithful (codec : Codec) : Type 0 where
  pub bare : (v : Json) → normalize (codec.stringify v) ≡ codec.stringify v
  pub reads : (v : Json) → is_some (codec.parse (codec.stringify v)) ≡ true
  pub nonempty : (v : Json) → codec.stringify v ≢ []

-- What a room has of a connection that has joined
pub record Joins (now server : ℕ) (who : Identified) (r r' : Room) : Type 0 where
  pub sockets :
      r'.sockets
      ≡ r.sockets
        ++ record {
          id = server;
          attachment = some (record {
            connection_id = who.connection_id;
            identity = who.identity;
            principal = who.principal;
            metadata = who.metadata;
            connected_at = now;
          });
          stale = false;
          sent = [];
          closed = none;
        }
          ∷ []
  pub row :
      find_presence who.connection_id r'.presence
      ≡ some (record {
        connection_id = who.connection_id;
        identity = who.identity;
        metadata = who.metadata;
        connected_at = now;
        last_seen = now;
      })
  pub other_rows :
      (c : Text) → c ≢ who.connection_id → find_presence c r'.presence ≡ find_presence c r.presence
  pub entries : r'.entries ≡ r.entries

module _ (web : Web) (codec : Codec) where
  -- The room is opened on a success of the application only, with a grant, to the room that it names, with the
  -- headers made of the grant, whose metadata is of at most 4096 bytes.
  pub gateway_end-opens :
      (uuid room : Text) (x : Response) (h : Handshake)
      → gateway_end web codec uuid x ≡ opens room h
      → (v : Json) × (g : Grant) × (is_ok x ≡ true)
        × (codec.parse x.body ≡ some v)
        × (grant_of v ≡ some g)
        × (g.room ≡ room)
        × (byte_length (codec.stringify g.metadata) ≤ max_metadata)
        × (handshake web codec uuid g ≡ some h)
  unfolding gateway_end open_room
  gateway_end-opens uuid room x h e = elim (Option-cases (codec.parse x.body)) [
    | inl unparsed ↦ ground arith
    | inr (v, parsed) ↦ elim (Option-cases (grant_of v)) [
      | inl ungranted ↦ ground arith
      | inr (g, granted) ↦
          (v, g, ground arith, parsed, granted, ground arith, ground arith, ground arith)
    ]
  ]

  -- what the room reads of a handshake for the grant
  abbrev pub identity_of : Text → Grant → Identified
  identity_of uuid g = record {
    connection_id = normalize uuid;
    identity = normalize g.identity;
    principal = codec.stringify g.principal;
    metadata = codec.stringify g.metadata;
  }

  -- the headers, if none of them is refused
  abbrev pub headers_of : Text → Grant → Handshake
  headers_of uuid g = record {
    upgrade = some (text "websocket");
    authorized = some (text "1");
    connection_id = some (normalize uuid);
    logical_identity = some (normalize g.identity);
    principal = some (normalize (codec.stringify g.principal));
    metadata = some (normalize (codec.stringify g.metadata));
  }
