-- ===== src/Realtime/Events/Replay.antt =====
-- The room of deploy/worker/realtime_object.mjs keeps what its tables promise.
use mathlib.Core.Option
use akamata.Prelude.{
  ℕ, ◌≡◌, refl, fun_ext, ap, ap₂, ◌∙◌, Bool, true, false, ◌&&◌, Option, none, some, List, [], ◌∷◌,
  arith, if◌then◌else◌, not,
}
use akamata.Text.{Text, text, to_lower}
use akamata.Json.{Codec}
use akamata.Realtime.Room.{
  Room, room_of, truthy, connection_of, touch_presence, delete_presence, find_presence, find_entry,
  forget, put_state,
}
use akamata.Realtime.Actions.{Host}
use akamata.Realtime.Message.{begun_room, touch, message_begin, message_end}
use akamata.Realtime.Message.Tables.{message_end-SameTables, message_begin-SameTables}
use akamata.Realtime.Actions.Tables.{SameTables}
use akamata.Realtime.Join.{
  Handshake, Welcome, Identified, is_text, identified, accept, admit_identified, fetch,
}
use akamata.Realtime.Events.{
  Event, connects, receives, answers, leaves, drops, breaks, stores, handle, handle_all,
}
use akamata.Realtime.Events.Promises.{
  promise_of, passes, admission, arrives, is_seen, is_gone, replay, replay_all, find-upsert,
  find-touch, find-delete, find-upsert_entry,
}

-- `fetch` changes the room for the handshakes that are let in, and only for them.
abbrev let_in : ℕ → ℕ → Option Identified → Room → Room
let_in now server none r = r
let_in now server (some who) r = accept now server who r

passed-fits :
    (codec : Codec) (now server : ℕ) (o : Option Identified) (r : Room)
    → (admit_identified codec now server o r).1 ≡ let_in now server (Option.bind o (passes codec)) r
unfolding admit_identified Option.bind passes
passed-fits codec now server none r = refl
passed-fits codec now server (some who) r = ground arith

gate :
    (u a : Bool) (now server : ℕ) (w v : Welcome) (x : Welcome × Room) (o : Option Identified)
    (r : Room)
    → x.1 ≡ let_in now server o r
    → (if not u then (w, r) else if not a then (v, r) else x).1
      ≡ let_in now server (if u && a then o else none) r
gate true true now server w v x o r e = e
gate true false now server w v x o r e = refl
gate false a now server w v x o r e = refl

fetch-admission :
    (codec : Codec) (now server : ℕ) (h : Handshake) (r : Room)
    → (fetch codec now server h r).1 ≡ let_in now server (admission codec h) r
unfolding fetch admission
fetch-admission codec now server h r =
    gate (is_text (Option.map to_lower h.upgrade) (text "websocket"))
      (is_text h.authorized (text "1")) now server _ _ _ _ r
      (passed-fits codec now server (identified h) r)

let_in-arrives :
    (now server : ℕ) (o : Option Identified) (r : Room)
    → promise_of (let_in now server o r) ≡ arrives now o (promise_of r)
unfolding accept
let_in-arrives now server none r = refl
let_in-arrives now server (some who) r =
    ap (λ f. record { present = f; stored = λ k. find_entry k r.entries })
      (fun_ext λ c. find-upsert _ r.presence c)

pub touched_promise :
    (now : ℕ) (o : Option Text) (r : Room)
    → promise_of
        (elim o [ none ↦ r | some c ↦ record r { presence = touch_presence now c r.presence } ])
      ≡ is_seen now o (promise_of r)
touched_promise now none r = refl
touched_promise now (some k) r =
    ap (λ f. record { present = f; stored = λ k. find_entry k r.entries })
      (fun_ext λ c. find-touch now k r.presence c)

forgotten_promise :
    (o : Option Text) (r : Room)
    → promise_of
        (elim o [ none ↦ r | some c ↦ record r { presence = delete_presence c r.presence } ])
      ≡ is_gone o (promise_of r)
forgotten_promise none r = refl
forgotten_promise (some k) r =
    ap (λ f. record { present = f; stored = λ k. find_entry k r.entries })
      (fun_ext λ c. find-delete k r.presence c)

same_promise : (r r' : Room) → SameTables r r' → promise_of r' ≡ promise_of r
same_promise r r' e =
    ap₂ (λ ps es. record { present = λ c. find_presence c ps; stored = λ k. find_entry k es }) e.0
      e.1

module _ (host : Host) where
  handle-replay :
      (e : Event) (r : Room) → promise_of (handle host e r) ≡ replay host e (promise_of r)
  unfolding handle replay put_state forget touch
  handle-replay (connects now server h) r =
      ap promise_of (fetch-admission host.codec now server h r)
      ∙ let_in-arrives now server (admission host.codec h) r
  handle-replay (receives now available ws message) r =
      same_promise (touch now ws r) (begun_room (message_begin host now available ws message r))
        (message_begin-SameTables host now available ws message r)
      ∙ touched_promise now (truthy (connection_of ws)) r
  handle-replay (answers ws x) r =
      same_promise r (room_of (message_end host ws x r)) (message_end-SameTables host ws x r)
  handle-replay (leaves ws) r = forgotten_promise (truthy (connection_of ws)) r
  handle-replay (drops id) r = refl
  handle-replay (breaks id) r = refl
  handle-replay (stores now key value) r =
      ap (λ f. record { present = λ c. find_presence c r.presence; stored = f })
        (fun_ext λ k.
          find-upsert_entry
            (record { key = key; value = host.codec.stringify value; updated_at = now }) r.entries
            k)

-- The two tables of the room, read as maps by their keys, go through any events as the maps of the specification do: an admitted handshake sets the
-- row of its connection, a message sets `last_seen` there if the row is there, a socket that goes takes the row of its connection away, `putState` sets the
-- row of its key; a refused handshake, a message's answer, every check of a message, and a socket that is dropped or breaks leave both maps as they are.
pub handle_all-replay :
    (host : Host) (events : List Event) (r : Room)
    → promise_of (handle_all host events r) ≡ replay_all host events (promise_of r)
unfolding handle_all replay_all
handle_all-replay host [] r = refl
handle_all-replay host (e ∷ events) r =
    handle_all-replay host events (handle host e r)
    ∙ ap (replay_all host events) (handle-replay host e r)
