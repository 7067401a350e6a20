-- ===== src/Realtime/Room/Laws.antt =====
-- Laws of the two tables of the room (deploy/worker/realtime_object.mjs).
use mathlib.Core.Option
use akamata.Prelude.{
  ℕ, ◌≡◌, refl, ap, ◌∙◌, subst, false, Option, none, some, List, [], ◌∷◌, arith, Bool-cases, inl,
  inr,
}
use akamata.Text.{Text, same}
use akamata.Text.Laws.{same_iff, same_refl}
use akamata.Json.{Json, Codec}
use akamata.Realtime.Room.{
  Presence, Entry, Room, upsert_presence, touch_presence, delete_presence, upsert_entry, find_entry,
  put_state, get_state,
}

pub same_sym : (s t : Text) → same s t ≡ false → same t s ≡ false
same_sym s t e = elim (Bool-cases (same t s)) [
  | inr differ ↦ differ
  | inl equal ↦ clash (subst (λ u. same s u ≡ false) ((same_iff t s).0 equal) e)
]
  where
    clash : same s s ≡ false → same t s ≡ false
    clash e = ground (arith, same_refl s)

find_entry-upsert_entry :
    (e : Entry) (es : List Entry) → find_entry e.key (upsert_entry e es) ≡ some e
unfolding find_entry upsert_entry
find_entry-upsert_entry e [] = ground (arith, same_refl e.key)
find_entry-upsert_entry e (x ∷ es) = ground (arith, same_refl e.key, find_entry-upsert_entry e es)

find_entry-upsert_other :
    (k : Text) (e : Entry) (es : List Entry)
    → same e.key k ≡ false
    → find_entry k (upsert_entry e es) ≡ find_entry k es
unfolding find_entry upsert_entry
find_entry-upsert_other k e [] differ = ground arith
find_entry-upsert_other k e (x ∷ es) differ = elim (Bool-cases (same x.key e.key)) [
  | inl equal ↦
      rw (equal, differ) (rw (ap (λ u. same u k) ((same_iff x.key e.key).0 equal)) (rw differ refl))
  | inr other ↦ rw other (ground (arith, find_entry-upsert_other k e es differ))
]

-- what `getState` makes of the row it finds
abbrev value_at : Codec → Option Entry → Option (Option Json)
value_at codec o = elim o [ none ↦ some none | some row ↦ Option.map some (codec.parse row.value) ]

-- `getState` of the key that `putState` has just stored is the value stored, if the codec reads back what
-- it writes for it.
pub get_state-put_state :
    (codec : Codec) (now : ℕ) (key : Text) (value : Json) (r : Room)
    → codec.parse (codec.stringify value) ≡ some value
    → get_state codec key (put_state codec now key value r) ≡ some (some value)
unfolding get_state put_state
get_state-put_state codec now key value r round =
    ap (value_at codec) (
      find_entry-upsert_entry
        (record { key = key; value = codec.stringify value; updated_at = now }) r.entries)
    ∙ ap (Option.map some) round

-- `putState` changes the value of no other key.
pub get_state-put_other :
    (codec : Codec) (now : ℕ) (key other : Text) (value : Json) (r : Room)
    → same key other ≡ false
    → get_state codec other (put_state codec now key value r) ≡ get_state codec other r
unfolding get_state put_state
get_state-put_other codec now key other value r differ = ap (value_at codec) (
    find_entry-upsert_other other
      (record { key = key; value = codec.stringify value; updated_at = now }) r.entries differ)

-- The rows of a table stand under different keys.
abbrev pub Absent : Text → List Presence → Type 0
Absent c [] = Unit
Absent c (q ∷ ps) = (same q.connection_id c ≡ false) × Absent c ps

abbrev pub Distinct : List Presence → Type 0
Distinct [] = Unit
Distinct (q ∷ ps) = Absent q.connection_id ps × Distinct ps

upsert-Absent :
    (c : Text) (p : Presence) (ps : List Presence)
    → same p.connection_id c ≡ false
    → Absent c ps
    → Absent c (upsert_presence p ps)
unfolding upsert_presence
upsert-Absent c p [] differ a = (differ, tt)
upsert-Absent c p (q ∷ ps) differ a = ground (arith, upsert-Absent c p ps differ a.1)

pub upsert-Distinct :
    (p : Presence) (ps : List Presence) → Distinct ps → Distinct (upsert_presence p ps)
unfolding upsert_presence
upsert-Distinct p [] d = (tt, tt)
upsert-Distinct p (q ∷ ps) d = elim (Bool-cases (same q.connection_id p.connection_id)) [
  | inl equal ↦
      rw equal
        (subst (λ c. Absent c ps) ((same_iff q.connection_id p.connection_id).0 equal) d.0, d.1)
  | inr other ↦ rw other (
    upsert-Absent q.connection_id p ps (same_sym q.connection_id p.connection_id other) d.0,
    upsert-Distinct p ps d.1,
  )
]

touch-Absent :
    (c : Text) (now : ℕ) (k : Text) (ps : List Presence)
    → Absent c ps
    → Absent c (touch_presence now k ps)
unfolding touch_presence
touch-Absent c now k [] a = tt
touch-Absent c now k (q ∷ ps) a = ground (arith, touch-Absent c now k ps a.1)

pub touch-Distinct :
    (now : ℕ) (k : Text) (ps : List Presence) → Distinct ps → Distinct (touch_presence now k ps)
unfolding touch_presence
touch-Distinct now k [] d = tt
touch-Distinct now k (q ∷ ps) d =
    ground (arith, touch-Absent q.connection_id now k ps d.0, touch-Distinct now k ps d.1)

delete-Absent : (c k : Text) (ps : List Presence) → Absent c ps → Absent c (delete_presence k ps)
unfolding delete_presence
delete-Absent c k [] a = tt
delete-Absent c k (q ∷ ps) a = ground (arith, delete-Absent c k ps a.1)

pub delete-Distinct :
    (k : Text) (ps : List Presence) → Distinct ps → Distinct (delete_presence k ps)
unfolding delete_presence
delete-Distinct k [] d = tt
delete-Distinct k (q ∷ ps) d =
    ground (arith, delete-Absent q.connection_id k ps d.0, delete-Distinct k ps d.1)

-- A deleted key is in no row.
pub delete-Absent_self : (k : Text) (ps : List Presence) → Absent k (delete_presence k ps)
unfolding delete_presence
delete-Absent_self k [] = tt
delete-Absent_self k (q ∷ ps) = ground (arith, delete-Absent_self k ps)
