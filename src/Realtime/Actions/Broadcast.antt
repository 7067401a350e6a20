-- ===== src/Realtime/Actions/Broadcast.antt =====
-- Who receives a broadcast (deploy/worker/realtime_object.mjs).
use akamata.Prelude.{
  ℕ, ◌≡◌, refl, true, false, List, [], ◌∷◌, ◌++◌, map, arith, ◌==◌, if◌then◌else◌, length, ◌≢◌, ◌⊎◌,
}
use akamata.Text.{Text}
use akamata.Realtime.Room.{Socket}
use akamata.Realtime.Delivery.{refuses, delivered, broadcast, send_others}

-- the sockets that `send` does not throw on
abbrev pub accepting : List Socket → List Socket
accepting [] = []
accepting (ws ∷ ss) = if refuses ws then accepting ss else ws ∷ accepting ss

abbrev pub received : Text → Socket → Socket
received m ws = if refuses ws then ws else delivered m ws

-- `broadcast` adds its text once to each socket on which `send` does not throw, leaves the others as
-- they are, wherever they stand, and counts the former.
pub broadcast_lem :
    (m : Text) (ss : List Socket) → broadcast m ss ≡ (length (accepting ss), map (received m) ss)
unfolding broadcast
broadcast_lem m [] = refl
broadcast_lem m (ws ∷ ss) = ground (arith, broadcast_lem m ss)

-- No socket but the sender's throws.
abbrev pub OthersAccept : ℕ → List Socket → Type 0
OthersAccept sender [] = Unit
OthersAccept sender (ws ∷ ss) = ((ws.id ≡ sender) ⊎ (refuses ws ≡ false)) × OthersAccept sender ss

abbrev pub for_other : ℕ → Text → Socket → Socket
for_other sender m ws = if ws.id == sender then ws else delivered m ws

-- If no socket but the sender's throws, the loop of `broadcast_except_sender` ends, with one copy
-- of the text on every socket but the sender's.
pub send_others-accepting :
    (sender : ℕ) (m : Text) (ss : List Socket)
    → OthersAccept sender ss
    → send_others sender m ss ≡ (true, map (for_other sender m) ss)
unfolding send_others
send_others-accepting sender m [] h = refl
send_others-accepting sender m (ws ∷ ss) h = ground (arith, send_others-accepting sender m ss h.1)

-- The loop of `broadcast_except_sender`, where the first socket other than the sender's on which
-- `send` throws stands somewhere in the list: it throws, the sockets before that one have the
-- text, and those behind it get nothing.
pub send_others-refusing :
    (sender : ℕ) (m : Text) (before : List Socket) (peer : Socket) (behind : List Socket)
    → OthersAccept sender before
    → peer.id ≢ sender
    → refuses peer ≡ true
    → send_others sender m (before ++ peer ∷ behind)
      ≡ (false, map (for_other sender m) before ++ peer ∷ behind)
unfolding send_others
send_others-refusing sender m [] peer behind h other stale = ground arith
send_others-refusing sender m (ws ∷ before) peer behind h other stale =
    ground (arith, send_others-refusing sender m before peer behind h.1 other stale)
