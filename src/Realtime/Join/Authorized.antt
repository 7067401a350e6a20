-- ===== src/Realtime/Join/Authorized.antt =====
-- What the handshake needs, and what it leaves (`fetch` of deploy/worker/realtime_object.mjs).
use mathlib.Core.Option
use akamata.Prelude.{ℕ, ◌≤◌, ◌≡◌, refl, true, Option, none, some, arith, ◌≢◌}
use akamata.Text.{text, to_lower}
use akamata.Json.{Codec, is_some}
use akamata.Realtime.Room.{Room}
use akamata.Realtime.Actions.{byte_length}
use akamata.Realtime.Join.{
  Handshake, switching, Identified, is_text, max_metadata, identified, accept, admit_identified,
  fetch,
}

-- A handshake of the gateway, for a client it has authorized.
pub record IsAuthorized (codec : Codec) (h : Handshake) (who : Identified) : Type 0 where
  pub upgrades : is_text (Option.map to_lower h.upgrade) (text "websocket") ≡ true
  pub vouched : is_text h.authorized (text "1") ≡ true
  pub names : identified h ≡ some who
  pub short : byte_length who.metadata ≤ max_metadata
  pub metadata_parses : is_some (codec.parse who.metadata) ≡ true
  pub principal_parses : is_some (codec.parse who.principal) ≡ true

module _ (codec : Codec) (now server : ℕ) (h : Handshake) (r : Room) where
  -- An authorized handshake is answered with 101, and its socket and its presence row are in the room.
  pub fetch-accepts :
      (who : Identified)
      → IsAuthorized codec h who
      → fetch codec now server h r ≡ (switching, accept now server who r)
  unfolding fetch admit_identified
  fetch-accepts who a =
      rw (a.names, a.upgrades, a.vouched, a.metadata_parses, a.principal_parses)
        (ground (arith, a.short))

  admit_refusal :
      (o : Option Identified)
      → ((admit_identified codec now server o r).0 ≢ switching)
      → (admit_identified codec now server o r).1 ≡ r
  unfolding admit_identified
  admit_refusal none e = refl
  admit_refusal (some who) e = ground arith

  -- A request that is not answered with 101 leaves the room as it is.
  pub fetch-refusal :
      (fetch codec now server h r).0 ≢ switching → (fetch codec now server h r).1 ≡ r
  unfolding fetch
  fetch-refusal e = ground (arith, admit_refusal (identified h))

  admitted :
      (o : Option Identified)
      → identified h ≡ o
      → is_text (Option.map to_lower h.upgrade) (text "websocket") ≡ true
      → is_text h.authorized (text "1") ≡ true
      → (admit_identified codec now server o r).0 ≡ switching
      → (who : Identified) × IsAuthorized codec h who
  unfolding admit_identified
  admitted none e up vouched s = ground arith
  admitted (some who) e up vouched s = (
    who,
    record {
      upgrades = up;
      vouched = vouched;
      names = e;
      short = ground arith;
      metadata_parses = ground arith;
      principal_parses = ground arith;
    },
  )

  -- A request that is answered with 101 is an authorized handshake: it asks for a websocket, carries the
  -- mark of the gateway and the names, and its metadata, of at most 4096 bytes, and its principal parse.
  pub fetch-switching :
      (fetch codec now server h r).0 ≡ switching → (who : Identified) × IsAuthorized codec h who
  unfolding fetch
  fetch-switching e = ground (arith, admitted (identified h) refl)
