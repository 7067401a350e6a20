-- ===== src/ChatRoom/Tests.antt =====
-- A chat room with a live and a stale session (deploy/worker/chat_room.mjs).
use akamata.Prelude.{◌⊎◌, ◌≡◌, refl, true, false, none, some, [], ◌∷◌, if◌then◌else◌}
use akamata.Prelude.Numbers.{pos}
use akamata.Text.{text, same}
use akamata.Json.{Json, null, object, member, end}
use akamata.R2.Values.{Coding}
use akamata.ChatRoom.{ChatRoom, on_message}
use akamata.ChatRoom.Delivery.{IsSaid, IsTaken, IsThrown, on_message_lem}

-- a codec that reads two texts
abbrev toy : Coding
toy = record {
  codec = record {
    parse = λ s.
        if same s (text "null")
        then some null
        else if same s (text "odd")
        then some (object (member (text "user") (object end) end))
        else none;
    stringify = λ v. text "{}";
  };
  to_text = λ v. none;
}

abbrev room : ChatRoom
room = record {
  sessions =
      record { id = 1; stale = false; sent = [] } ∷ record { id = 2; stale = true; sent = [] } ∷ [];
  messages = [];
}

on_message_lem_example :
    (v : Json) × IsSaid toy (text "hello") v
    × (((r' : ChatRoom) × (on_message toy 9 (pos 0) (text "hello") room ≡ some r')
          × IsTaken toy 9 (pos 0) v room r')
        ⊎ ((on_message toy 9 (pos 0) (text "hello") room ≡ none) × IsThrown toy v))
on_message_lem_example = on_message_lem toy 9 (pos 0) (text "hello") room

-- The text "odd" parses to an object whose `user` is an object on which `String` throws.
throws_on_object : on_message toy 9 (pos 0) (text "odd") room ≡ none
unfolding on_message same
throws_on_object = refl

-- The JSON text of null throws.
throws_on_null : on_message toy 9 (pos 0) (text "null") room ≡ none
unfolding on_message same
throws_on_null = refl
