-- ===== src/Realtime/Delivery.antt =====
-- `broadcast`, `send`, `disconnect` and the loop of `broadcast_except_sender`
-- (deploy/worker/realtime_object.mjs), over the list that `getWebSockets()` gives.
use akamata.Prelude.{
  ℕ, ◌+◌, Bool, true, false, ◌||◌, Option, none, some, List, [], ◌∷◌, ◌++◌, ◌==◌, if◌then◌else◌,
}
use akamata.Prelude.Numbers.{ℤ}
use akamata.Text.{Text, same}
use akamata.Json.{is_some}
use akamata.Realtime.Room.{Socket, Room, Run, done, threw, connection_of}

abbrev pub delivered : Text → Socket → Socket
delivered m ws = record ws { sent = ws.sent ++ m ∷ [] }

-- `send` throws on a stale socket, and after `close()`.
abbrev pub refuses : Socket → Bool
refuses ws = ws.stale || is_some ws.closed

-- `broadcast`: a send that throws is passed over, and the others are counted.
unfoldable pub broadcast : Text → List Socket → ℕ × List Socket
broadcast m [] = (0, [])
broadcast m (ws ∷ rest) =
    let (n, rest') = broadcast m rest in
    if refuses ws then (n, ws ∷ rest') else (n + 1, delivered m ws ∷ rest')

-- `for (const peer of …) if (peer !== sender) peer.send(encoded)`: the first throw ends the loop.
-- The flag says whether the loop came to its end.
unfoldable pub send_others : ℕ → Text → List Socket → Bool × List Socket
send_others sender m [] = (true, [])
send_others sender m (ws ∷ rest) =
    let (ended, rest') = send_others sender m rest in
    if ws.id == sender
    then (ended, ws ∷ rest')
    else if refuses ws
    then (false, ws ∷ rest)
    else (ended, delivered m ws ∷ rest')

abbrev pub is_connection : Text → Option Text → Bool
is_connection c none = false
is_connection c (some d) = same d c

-- `send`: to the first socket with the connection id; `none` if there is none, and the flag is
-- false if its `send` throws
unfoldable pub send_to : Text → Text → List Socket → Option Bool × List Socket
unfolding same
send_to c m [] = (none, [])
send_to c m (ws ∷ rest) =
    let (found, rest') = send_to c m rest in
    if is_connection c (connection_of ws)
    then if refuses ws then (some false, ws ∷ rest) else (some true, delivered m ws ∷ rest)
    else (found, ws ∷ rest')

-- Closing a socket again changes nothing.
abbrev pub closing : ℤ → Text → Socket → Socket
closing code reason ws = elim ws.closed [
  | none ↦ record ws { closed = some (code, reason) }
  | some _ ↦ ws
]

-- `ws.close(code, reason)` of the socket `id`; what the platform refuses it throws at
unfoldable pub close_socket : ℕ → ℤ → Text → List Socket → List Socket
close_socket id code reason [] = []
close_socket id code reason (ws ∷ rest) =
    if ws.id == id then closing code reason ws ∷ rest else ws ∷ close_socket id code reason rest

unfoldable pub close : (ℤ → Text → Bool) → ℕ → ℤ → Text → Room → Run
unfolding close_socket
close valid id code reason r =
    if valid code reason
    then done (record r { sockets = close_socket id code reason r.sockets })
    else threw r

-- `disconnect`: of the first socket with the connection id; `none` if there is none, and the flag is
-- false if its `close` throws
unfoldable pub disconnect :
    (ℤ → Text → Bool) → Text → ℤ → Text → List Socket → Option Bool × List Socket
unfolding same
disconnect valid c code reason [] = (none, [])
disconnect valid c code reason (ws ∷ rest) =
    let (found, rest') = disconnect valid c code reason rest in
    if is_connection c (connection_of ws)
    then if valid code reason
      then (some true, closing code reason ws ∷ rest)
      else (some false, ws ∷ rest)
    else (found, ws ∷ rest')
