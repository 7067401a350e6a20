-- ===== src/Realtime/Events/Soundness.antt =====
-- What holds of a room after any events (deploy/worker/realtime_object.mjs).
use akamata.Prelude.{
  ℕ, ◌≤◌, ◌≡◌, sym, subst, true, false, Option, none, some, List, [], ◌∷◌, ◌++◌, arith, ltb,
}
use akamata.Text.{Text, same}
use akamata.Json.{Codec, is_some}
use akamata.Realtime.Room.{
  Attachment, Socket, Presence, Room, room_of, truthy, connection_of, upsert_presence,
  touch_presence, delete_presence, forget, put_state,
}
use akamata.Realtime.Room.Laws.{Distinct, upsert-Distinct, touch-Distinct, delete-Distinct}
use akamata.Realtime.Growth.{All, AllGrow}
use akamata.Realtime.Actions.{byte_length, Host}
use akamata.Realtime.Actions.Tables.{SameTables}
use akamata.Realtime.Message.{begun_room, touch, message_begin, message_end}
use akamata.Realtime.Message.Answer.{
  IsGranted, touch-sockets, message_begin-AllGrow, message_end-AllGrow,
}
use akamata.Realtime.Message.Tables.{message_end-SameTables, message_begin-SameTables}
use akamata.Realtime.Join.{
  Handshake, Identified, max_metadata, identified, accept, admit_identified, fetch,
}
use akamata.Realtime.Events.{
  Event, connects, receives, answers, leaves, drops, breaks, stores, without, broken, handle,
  handle_all,
}

module _ (codec : Codec) where
  -- metadata as the handshake lets it pass
  abbrev pub IsMetadata : Text → Type 0
  IsMetadata m = (byte_length m ≤ max_metadata) × (is_some (codec.parse m) ≡ true)

  abbrev pub IsRow : Presence → Type 0
  IsRow q = IsMetadata q.metadata

  abbrev pub IsAttached : Option Attachment → Type 0
  IsAttached none = Unit
  IsAttached (some a) = IsMetadata a.metadata × (is_some (codec.parse a.principal) ≡ true)

  abbrev pub IsJoined : Socket → Type 0
  IsJoined ws = IsAttached ws.attachment

  -- No two presence rows have one connection id; every row and every socket has metadata that parses,
  -- of at most 4096 bytes, and every socket a principal that parses.
  pub record IsSound (r : Room) : Type 0 where
    pub distinct : Distinct r.presence
    pub rows : All IsRow r.presence
    pub joined : All IsJoined r.sockets

  rows-upsert :
      (p : Presence) (ps : List Presence)
      → IsRow p
      → All IsRow ps
      → All IsRow (upsert_presence p ps)
  unfolding upsert_presence
  rows-upsert p [] i a = (i, tt)
  rows-upsert p (q ∷ ps) i a = ground (arith, rows-upsert p ps i a.1)

  rows-touch :
      (now : ℕ) (k : Text) (ps : List Presence) → All IsRow ps → All IsRow (touch_presence now k ps)
  unfolding touch_presence
  rows-touch now k [] a = tt
  rows-touch now k (q ∷ ps) a = ground (arith, rows-touch now k ps a.1)

  rows-delete : (k : Text) (ps : List Presence) → All IsRow ps → All IsRow (delete_presence k ps)
  unfolding delete_presence
  rows-delete k [] a = tt
  rows-delete k (q ∷ ps) a = ground (arith, rows-delete k ps a.1)

  IsJoined-append :
      (xs : List Socket) (ws : Socket)
      → All IsJoined xs
      → IsJoined ws
      → All IsJoined (xs ++ ws ∷ [])
  IsJoined-append [] ws a j = (j, tt)
  IsJoined-append (x ∷ xs) ws a j = (a.0, IsJoined-append xs ws a.1 j)

  IsJoined-AllGrow :
      (P : Text → Type 0) (xs ys : List Socket)
      → AllGrow P xs ys
      → All IsJoined xs
      → All IsJoined ys
  IsJoined-AllGrow P [] [] g a = tt
  IsJoined-AllGrow P [] (y ∷ ys) g a = absurd g
  IsJoined-AllGrow P (x ∷ xs) [] g a = absurd g
  IsJoined-AllGrow P (x ∷ xs) (y ∷ ys) g a =
      (subst IsAttached (sym g.0.same_attachment) a.0, IsJoined-AllGrow P xs ys g.1 a.1)

  IsJoined-without : (id : ℕ) (xs : List Socket) → All IsJoined xs → All IsJoined (without id xs)
  unfolding without
  IsJoined-without id [] a = tt
  IsJoined-without id (x ∷ xs) a = ground (arith, IsJoined-without id xs a.1)

  IsJoined-broken : (id : ℕ) (xs : List Socket) → All IsJoined xs → All IsJoined (broken id xs)
  unfolding broken
  IsJoined-broken id [] a = tt
  IsJoined-broken id (x ∷ xs) a = ground (arith, IsJoined-broken id xs a.1)

  accept-IsSound :
      (now server : ℕ) (who : Identified) (r : Room)
      → IsMetadata who.metadata
      → is_some (codec.parse who.principal) ≡ true
      → IsSound r
      → IsSound (accept now server who r)
  unfolding accept
  accept-IsSound now server who r m p s = record {
    distinct = upsert-Distinct _ r.presence s.distinct;
    rows = rows-upsert _ r.presence m s.rows;
    joined = IsJoined-append r.sockets _ s.joined (m, p);
  }

  admit-IsSound :
      (now server : ℕ) (o : Option Identified) (r : Room)
      → IsSound r
      → IsSound (admit_identified codec now server o r).1
  unfolding admit_identified
  admit-IsSound now server none r s = s
  admit-IsSound now server (some who) r s =
      ground (arith, accept-IsSound now server who r, fits who.metadata)
    where
      fits : (m : Text) → ltb max_metadata (byte_length m) ≡ false → byte_length m ≤ max_metadata
      fits m e = ground arith

  fetch-IsSound :
      (now server : ℕ) (h : Handshake) (r : Room)
      → IsSound r
      → IsSound (fetch codec now server h r).1
  unfolding fetch
  fetch-IsSound now server h r s = ground (arith, admit-IsSound now server (identified h) r s)

  forgotten-IsSound :
      (o : Option Text) (r : Room)
      → IsSound r
      → IsSound
          (elim o [ none ↦ r | some c ↦ record r { presence = delete_presence c r.presence } ])
  forgotten-IsSound none r s = s
  forgotten-IsSound (some c) r s = record {
    distinct = delete-Distinct c r.presence s.distinct;
    rows = rows-delete c r.presence s.rows;
    joined = s.joined;
  }

  touched-IsSound :
      (now : ℕ) (o : Option Text) (r : Room)
      → IsSound r
      → IsSound
          (elim o [ none ↦ r | some c ↦ record r { presence = touch_presence now c r.presence } ])
  touched-IsSound now none r s = s
  touched-IsSound now (some c) r s = record {
    distinct = touch-Distinct now c r.presence s.distinct;
    rows = rows-touch now c r.presence s.rows;
    joined = s.joined;
  }

  forget-IsSound : (ws : Socket) (r : Room) → IsSound r → IsSound (forget ws r)
  unfolding forget
  forget-IsSound ws r s = forgotten-IsSound (truthy (connection_of ws)) r s

  touch-IsSound : (now : ℕ) (ws : Socket) (r : Room) → IsSound r → IsSound (touch now ws r)
  unfolding touch
  touch-IsSound now ws r s = touched-IsSound now (truthy (connection_of ws)) r s

module _ (host : Host) where
  -- The same tables, and sockets that have only been sent texts, or closed.
  growth-IsSound :
      (P : Text → Type 0) (r r' : Room)
      → SameTables r r'
      → AllGrow P r.sockets r'.sockets
      → IsSound host.codec r
      → IsSound host.codec r'
  growth-IsSound P r r' same grow s = record {
    distinct = subst Distinct (sym same.0) s.distinct;
    rows = subst (All (IsRow host.codec)) (sym same.0) s.rows;
    joined = IsJoined-AllGrow host.codec P r.sockets r'.sockets grow s.joined;
  }

  handle-IsSound :
      (e : Event) (r : Room) → IsSound host.codec r → IsSound host.codec (handle host e r)
  unfolding handle put_state
  handle-IsSound (connects now server h) r s = fetch-IsSound host.codec now server h r s
  handle-IsSound (receives now available ws message) r s =
      growth-IsSound (λ m. ⊥) (touch now ws r)
        (begun_room (message_begin host now available ws message r))
        (message_begin-SameTables host now available ws message r)
        (subst
          (λ ss.
            AllGrow (λ m. ⊥) ss
              (begun_room (message_begin host now available ws message r)).sockets)
          (sym (touch-sockets now ws r)) (message_begin-AllGrow host now available ws message r))
        (touch-IsSound host.codec now ws r s)
  handle-IsSound (answers ws x) r s =
      growth-IsSound (IsGranted host x) r (room_of (message_end host ws x r))
        (message_end-SameTables host ws x r) (message_end-AllGrow host ws x r) s
  handle-IsSound (leaves ws) r s = forget-IsSound host.codec ws r s
  handle-IsSound (drops id) r s = record {
    distinct = s.distinct;
    rows = s.rows;
    joined = IsJoined-without host.codec id r.sockets s.joined;
  }
  handle-IsSound (breaks id) r s = record {
    distinct = s.distinct;
    rows = s.rows;
    joined = IsJoined-broken host.codec id r.sockets s.joined;
  }
  handle-IsSound (stores now key value) r s = record {
    distinct = s.distinct;
    rows = s.rows;
    joined = s.joined;
  }

  -- Any events, in any order, keep a room sound: no two presence rows have one connection id, every row and
  -- every socket has metadata that parses, of at most 4096 bytes, and every socket a principal that parses.
  pub handle_all-IsSound :
      (events : List Event) (r : Room)
      → IsSound host.codec r
      → IsSound host.codec (handle_all host events r)
  unfolding handle_all
  handle_all-IsSound [] r s = s
  handle_all-IsSound (e ∷ events) r s =
      handle_all-IsSound events (handle host e r) (handle-IsSound e r s)
