-- ===== src/ChatRoom/Delivery.antt =====
-- What a message does to the sessions and to the table (deploy/worker/chat_room.mjs).
use mathlib.Core.Option
use akamata.Prelude.{
  ℕ, ◌≡◌, ◌⊎◌, refl, sym, ap, ◌∙◌, Option, none, some, List, [], ◌∷◌, ◌++◌, map, arith,
  if◌then◌else◌, inl, inr, Option-cases, ◌>>=◌,
}
use akamata.Prelude.Numbers.{ℤ, pos}
use akamata.Text.{Text, text}
use akamata.Json.{
  Json, null, bool, integer, fraction, string, array, object, end, member, get, present,
}
use akamata.R2.Values.{Coding, source_of}
use akamata.ChatRoom.{
  Session, Row, ChatRoom, parse_data, text_or, field_text, row_of, announcement, announce,
  on_message,
}

-- the sessions on which `send` does not throw
abbrev pub live : List Session → List Session
live [] = []
live (s ∷ sessions) = if s.stale then live sessions else s ∷ live sessions

abbrev pub told : Text → Session → Session
told m s = record s { sent = s.sent ++ (m ∷ []) }

announce-live :
    (m : Text) (sessions : List Session) → announce m sessions ≡ map (told m) (live sessions)
unfolding announce
announce-live m [] = refl
announce-live m (s ∷ sessions) = ground (arith, announce-live m sessions)

-- `v` is what a frame says: the JSON value that it parses to, or the message of anon with the frame as its text.
abbrev pub IsSaid : Coding → Text → Json → Type 0
IsSaid c frame v =
    (c.codec.parse frame ≡ some v)
    ⊎ ((c.codec.parse frame ≡ none)
        × (v
            ≡ object (
                member (text "user") (string (text "anon"))
                  (member (text "text") (string frame) end))))

-- `t` is a field as a text: `other` if the field is missing or null, a string itself, and else what `String` makes of it.
abbrev pub IsTextOf : Coding → Text → Option Json → Text → Type 0
IsTextOf c other none t = t ≡ other
IsTextOf c other (some null) t = t ≡ other
IsTextOf c other (some (string s)) t = t ≡ s
IsTextOf c other (some w) t = c.to_text w ≡ some t

-- `String` throws on a field.
abbrev pub Throws : Coding → Option Json → Type 0
Throws c none = ⊥
Throws c (some null) = ⊥
Throws c (some (string s)) = ⊥
Throws c (some w) = c.to_text w ≡ none

said : (c : Coding) (frame : Text) → IsSaid c frame (parse_data c frame)
unfolding parse_data
said c frame = elim (Option-cases (c.codec.parse frame)) [
  | inl e ↦ inr (
    e,
    ap
        (λ o. elim o [
          | some v ↦ v
          | none ↦ object (
              member (text "user") (string (text "anon")) (member (text "text") (string frame) end))
        ])
        e,
  )
  | inr (v, e) ↦ inl (
      e
      ∙ ap some (
          sym (
            ap
              (λ o. elim o [
                | some v ↦ v
                | none ↦ object (
                    member (text "user") (string (text "anon"))
                      (member (text "text") (string frame) end))
              ])
              e)))
]

-- a field that reads as a text, or on which `String` throws
abbrev Reads : Coding → Text → Option Json → Type 0
Reads c other o =
    ((t : Text) × (text_or c other (present o) ≡ some t) × IsTextOf c other o t)
    ⊎ ((text_or c other (present o) ≡ none) × Throws c o)

of_coding :
    (c : Coding) (u : Option Text)
    → ((t : Text) × (u ≡ some t) × (u ≡ some t)) ⊎ ((u ≡ none) × (u ≡ none))
of_coding c none = inr (refl, refl)
of_coding c (some t) = inl (t, refl, refl)

field : (c : Coding) (other : Text) (o : Option Json) → Reads c other o
unfolding source_of
field c other none = inl (other, refl, refl)
field c other (some null) = inl (other, refl, refl)
field c other (some (string s)) = inl (s, refl, refl)
field c other (some (bool b)) = of_coding c (c.to_text (bool b))
field c other (some (integer k)) = of_coding c (c.to_text (integer k))
field c other (some (fraction k)) = of_coding c (c.to_text (fraction k))
field c other (some (array xs)) = of_coding c (c.to_text (array xs))
field c other (some (object ms)) = of_coding c (c.to_text (object ms))

-- A message that is taken: a row is stored behind the others, and its announcement is sent.
pub record IsTaken (c : Coding) (now : ℕ) (id : ℤ) (v : Json) (r r' : ChatRoom) : Type 0 where
  pub user : Text
  pub text_said : Text
  pub user_field : IsTextOf c (text "anon") (get (text "user") v) user
  pub text_field : IsTextOf c [] (get (text "text") v) text_said
  pub messages :
      r'.messages ≡ r.messages ++ (record { user = user; text = text_said; created_at = now } ∷ [])
  pub sessions :
      r'.sessions
      ≡ map
          (told (
            c.codec.stringify (
              object (
                member (text "kind") (string (text "message")) (
                  member (text "id") (integer id) (
                    member (text "user") (string user) (
                      member
                        (text "text")
                        (string text_said)
                        (member (text "created_at") (integer (pos now)) end))))))))
          (live r.sessions)

-- A message that makes the listener throw
abbrev pub IsThrown : Coding → Json → Type 0
IsThrown c v = (v ≡ null) ⊎ (Throws c (get (text "user") v) ⊎ Throws c (get (text "text") v))

abbrev Outcome : Coding → ℕ → ℤ → Json → ChatRoom → Option ChatRoom → Type 0
Outcome c now id v r o =
    ((r' : ChatRoom) × (o ≡ some r') × IsTaken c now id v r r') ⊎ ((o ≡ none) × IsThrown c v)

abbrev stored : Coding → ℤ → ChatRoom → Row → ChatRoom
stored c id r row = record {
  sessions = announce (announcement c id row) r.sessions;
  messages = r.messages ++ (row ∷ []);
}

abbrev row_with : ℕ → Option Text → Option Text → Option Row
row_with now o p = do
  user ← o
  said ← p
  some (record { user = user; text = said; created_at = now })

abbrev user_of : Coding → Json → Option Text
user_of c v = field_text c (text "user") (text "anon") v

abbrev text_of : Coding → Json → Option Text
text_of c v = field_text c (text "text") [] v

abbrev ends_with : Coding → ℕ → ℤ → ChatRoom → Option Text → Option Text → Option ChatRoom
ends_with c now id r o p = Option.map (stored c id r) (row_with now o p)

taken :
    (c : Coding) (now : ℕ) (id : ℤ) (v : Json) (r : ChatRoom) (user said : Text)
    → IsTextOf c (text "anon") (get (text "user") v) user
    → IsTextOf c [] (get (text "text") v) said
    → IsTaken c now id v r (stored c id r (record { user = user; text = said; created_at = now }))
unfolding announcement
taken c now id v r user said u t = record {
  user = user;
  text_said = said;
  user_field = u;
  text_field = t;
  messages = refl;
  sessions = announce-live _ r.sessions;
}

outcome :
    (c : Coding) (now : ℕ) (id : ℤ) (v : Json) (r : ChatRoom)
    → Outcome c now id v r (ends_with c now id r (user_of c v) (text_of c v))
unfolding field_text Option.bind
outcome c now id v r = elim (field c (text "anon") (get (text "user") v)) [
  | inr (e, thrown) ↦ inr (ap (λ o. ends_with c now id r o (text_of c v)) e, inr (inl thrown))
  | inl (user, e, u) ↦ elim (field c [] (get (text "text") v)) [
    | inr (f, thrown) ↦ inr (
      ap (λ o. ends_with c now id r o (text_of c v)) e ∙ ap (ends_with c now id r (some user)) f,
      inr (inr thrown),
    )
    | inl (said, f, t) ↦ inl (
      stored c id r (record { user = user; text = said; created_at = now }),
      ap (λ o. ends_with c now id r o (text_of c v)) e ∙ ap (ends_with c now id r (some user)) f,
      taken c now id v r user said u t,
    )
  ]
]

outcome_of :
    (c : Coding) (now : ℕ) (id : ℤ) (v : Json) (r : ChatRoom)
    → Outcome c now id v r (Option.map (stored c id r) (row_of c now v))
unfolding row_of
outcome_of c now id null r = inr (refl, inl refl)
outcome_of c now id (bool b) r = outcome c now id (bool b) r
outcome_of c now id (integer k) r = outcome c now id (integer k) r
outcome_of c now id (fraction k) r = outcome c now id (fraction k) r
outcome_of c now id (string s) r = outcome c now id (string s) r
outcome_of c now id (array xs) r = outcome c now id (array xs) r
outcome_of c now id (object ms) r = outcome c now id (object ms) r

-- Any text message of a socket says a value: what it parses to, or else the message of anon with the frame as its text. Either one row is
-- stored behind the others, with the value's `user` and `text` as texts ("anon" and the empty text if missing or null) and the time; and the
-- announcement with the same texts, time and the id is sent once to each session on which `send` does not throw, and the other sessions
-- are dropped. Or the listener throws before it has changed anything: the value is null, or `String` throws on one of
-- the two fields.
pub on_message_lem :
    (c : Coding) (now : ℕ) (id : ℤ) (frame : Text) (r : ChatRoom)
    → (v : Json) × IsSaid c frame v
      × (((r' : ChatRoom) × (on_message c now id frame r ≡ some r') × IsTaken c now id v r r')
          ⊎ ((on_message c now id frame r ≡ none) × IsThrown c v))
unfolding on_message
on_message_lem c now id frame r =
    (parse_data c frame, said c frame, outcome_of c now id (parse_data c frame) r)
