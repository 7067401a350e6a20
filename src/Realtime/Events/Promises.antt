-- ===== src/Realtime/Events/Promises.antt =====
-- What the two tables of the room promise (deploy/worker/realtime_object.mjs), with nothing of their rows' order, of the sockets and of the
-- messages: two maps, and what each event does to them.
use mathlib.Core.Option
use akamata.Prelude.{
  ℕ, ◌≡◌, refl, sym, ap, ◌∙◌, false, ◌&&◌, Option, none, some, List, [], ◌∷◌, arith, leb,
  if◌then◌else◌, Bool-cases, inl, inr,
}
use akamata.Text.{Text, text, same, to_lower}
use akamata.Text.Laws.{same_iff}
use akamata.Realtime.Room.Laws.{same_sym}
use akamata.Json.{Codec, is_some}
use akamata.Realtime.Room.{
  Presence, Entry, Room, truthy, connection_of, upsert_presence, touch_presence, delete_presence,
  find_presence, upsert_entry, find_entry,
}
use akamata.Realtime.Actions.{byte_length, Host}
use akamata.Realtime.Join.{Handshake, Identified, is_text, max_metadata, identified}
use akamata.Realtime.Events.{Event, connects, receives, answers, leaves, drops, breaks, stores}

-- who is there, and what is stored
pub record Promise : Type 0 where
  pub present : Text → Option Presence
  pub stored : Text → Option Entry

abbrev pub promise_of : Room → Promise
promise_of r = record {
  present = λ c. find_presence c r.presence;
  stored = λ k. find_entry k r.entries;
}

abbrev pub at_key : {A : Type 0} → Text → Option A → (Text → Option A) → Text → Option A
at_key k v f q = if same k q then v else f q

-- The handshakes that are let in
unfoldable pub passes : Codec → Identified → Option Identified
passes codec who =
    if leb (byte_length who.metadata) max_metadata
      && is_some (codec.parse who.metadata)
      && is_some (codec.parse who.principal)
    then some who
    else none

unfoldable pub admission : Codec → Handshake → Option Identified
unfolding passes
admission codec h =
    if is_text (Option.map to_lower h.upgrade) (text "websocket") && is_text h.authorized (text "1")
    then Option.bind (identified h) (passes codec)
    else none

abbrev pub arrives : ℕ → Option Identified → Promise → Promise
arrives now none s = s
arrives now (some who) s = record s {
  present =
      at_key who.connection_id
        (some (record {
          connection_id = who.connection_id;
          identity = who.identity;
          metadata = who.metadata;
          connected_at = now;
          last_seen = now;
        }))
        s.present;
}

abbrev pub seen : ℕ → Presence → Presence
seen now q = record q { last_seen = now }

abbrev pub is_seen : ℕ → Option Text → Promise → Promise
is_seen now none s = s
is_seen now (some c) s = record s {
  present = at_key c (Option.map (seen now) (s.present c)) s.present;
}

abbrev pub is_gone : Option Text → Promise → Promise
is_gone none s = s
is_gone (some c) s = record s { present = at_key c none s.present }

module _ (host : Host) where
  unfoldable pub replay : Event → Promise → Promise
  unfolding admission
  replay (connects now server h) s = arrives now (admission host.codec h) s
  replay (receives now available ws message) s = is_seen now (truthy (connection_of ws)) s
  replay (answers ws x) s = s
  replay (leaves ws) s = is_gone (truthy (connection_of ws)) s
  replay (drops id) s = s
  replay (breaks id) s = s
  replay (stores now key value) s = record s {
    stored =
        at_key key
          (some (record { key = key; value = host.codec.stringify value; updated_at = now }))
          s.stored;
  }

  unfoldable pub replay_all : List Event → Promise → Promise
  unfolding replay
  replay_all [] s = s
  replay_all (e ∷ events) s = replay_all events (replay e s)

pub find-upsert :
    (p : Presence) (ps : List Presence) (c : Text)
    → find_presence c (upsert_presence p ps)
      ≡ at_key p.connection_id (some p) (λ d. find_presence d ps) c
unfolding find_presence upsert_presence
find-upsert p [] c = refl
find-upsert p (q ∷ ps) c = elim (Bool-cases (same q.connection_id p.connection_id)) [
  | inl e ↦
      let k = ap (λ t. same t c) ((same_iff q.connection_id p.connection_id).0 e) in
      ground (arith, k)
  | inr e ↦ elim (Bool-cases (same q.connection_id c)) [
    | inl f ↦
        let k : same p.connection_id c ≡ false =
          ap (λ t. same p.connection_id t) (sym ((same_iff q.connection_id c).0 f))
          ∙ same_sym q.connection_id p.connection_id e in
        ground (arith, k)
    | inr f ↦ ground (arith, find-upsert p ps c)
  ]
]

pub find-touch :
    (now : ℕ) (k : Text) (ps : List Presence) (c : Text)
    → find_presence c (touch_presence now k ps)
      ≡ at_key k (Option.map (seen now) (find_presence k ps)) (λ d. find_presence d ps) c
unfolding find_presence touch_presence
find-touch now k [] c = ground arith
find-touch now k (q ∷ ps) c = elim (Bool-cases (same q.connection_id k)) [
  | inl e ↦
      let f = ap (λ t. same t c) ((same_iff q.connection_id k).0 e) in
      ground (arith, f, find-touch now k ps c)
  | inr e ↦ elim (Bool-cases (same q.connection_id c)) [
    | inl f ↦
        let g : same k c ≡ false =
          ap (λ t. same k t) (sym ((same_iff q.connection_id c).0 f))
          ∙ same_sym q.connection_id k e in
        ground (arith, g)
    | inr f ↦ ground (arith, find-touch now k ps c)
  ]
]

pub find-delete :
    (k : Text) (ps : List Presence) (c : Text)
    → find_presence c (delete_presence k ps) ≡ at_key k none (λ d. find_presence d ps) c
unfolding find_presence delete_presence
find-delete k [] c = ground arith
find-delete k (q ∷ ps) c = elim (Bool-cases (same q.connection_id k)) [
  | inl e ↦
      let f = ap (λ t. same t c) ((same_iff q.connection_id k).0 e) in
      ground (arith, f, find-delete k ps c)
  | inr e ↦ elim (Bool-cases (same q.connection_id c)) [
    | inl f ↦
        let g : same k c ≡ false =
          ap (λ t. same k t) (sym ((same_iff q.connection_id c).0 f))
          ∙ same_sym q.connection_id k e in
        ground (arith, g)
    | inr f ↦ ground (arith, find-delete k ps c)
  ]
]

pub find-upsert_entry :
    (x : Entry) (es : List Entry) (k : Text)
    → find_entry k (upsert_entry x es) ≡ at_key x.key (some x) (λ d. find_entry d es) k
unfolding find_entry upsert_entry
find-upsert_entry x [] k = refl
find-upsert_entry x (y ∷ es) k = elim (Bool-cases (same y.key x.key)) [
  | inl e ↦ let f = ap (λ t. same t k) ((same_iff y.key x.key).0 e) in ground (arith, f)
  | inr e ↦ elim (Bool-cases (same y.key k)) [
    | inl f ↦
        let g : same x.key k ≡ false =
          ap (λ t. same x.key t) (sym ((same_iff y.key k).0 f)) ∙ same_sym y.key x.key e in
        ground (arith, g)
    | inr f ↦ ground (arith, find-upsert_entry x es k)
  ]
]
