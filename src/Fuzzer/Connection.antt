-- ===== src/Fuzzer/Connection.antt =====
-- tools/fuzz/http_fuzz.mjs: `rawRequest`, `slowloris` and the counting of `worker`. A socket is the events that it gives to its handlers, in
-- their order.
pub mod Settling
pub mod Dripping
use mathlib.Core.Option
use akamata.Prelude.{
  ℕ, zero, suc, ◌+◌, ◌-◌, Bool, true, false, ◌||◌, Option, none, some, List, [], ◌∷◌, ◌++◌, leb,
  ltb, if◌then◌else◌, length,
}
use akamata.Text.{Text, text, same, starts_with}

-- `stats`, without the counts of the variants
pub record Stats : Type 0 where
  pub sent : ℕ
  pub ok : ℕ
  pub refused : ℕ
  pub socket_err : ℕ
  pub malformed_resp : ℕ

-- a promise; what is done to it after it has settled is without effect
pub data Promise : Type 0 where
  pending : Promise
  resolved : List ℕ → Promise
  rejected : Promise

abbrev pub settle : Promise → Promise → Promise
settle pending p = p
settle q p = q

-- The events of a socket: the connection stands, a chunk has come, an error with its code, no traffic for `timeoutMs`, the end.
pub data SocketEvent : Type 0 where
  connect close timeout : SocketEvent
  chunk : List ℕ → SocketEvent
  error : Text → SocketEvent

-- `written` is what has been given to `sock.write`.
pub record Request : Type 0 where
  pub stats : Stats
  pub chunks : List ℕ
  pub written : List Text
  pub destroyed : Bool
  pub promise : Promise

abbrev pub count_error : Text → Stats → Stats
count_error code st =
    if same code (text "ECONNREFUSED")
    then record st { refused = suc st.refused }
    else record st { socket_err = suc st.socket_err }

-- The handlers of `rawRequest`
unfoldable pub on_event : Text → SocketEvent → Request → Request
unfolding same
on_event payload connect q = record q { written = q.written ++ (payload ∷ []) }
on_event payload (chunk d) q = record q { chunks = q.chunks ++ d }
on_event payload (error code) q = record q {
  stats = count_error code q.stats;
  promise = settle q.promise rejected;
}
on_event payload close q = record q {
  stats = record q.stats { sent = suc q.stats.sent };
  promise = settle q.promise (resolved q.chunks);
}
on_event payload timeout q = record q { destroyed = true }

unfoldable pub on_events : Text → List SocketEvent → Request → Request
unfolding on_event
on_events payload [] q = q
on_events payload (e ∷ es) q = on_events payload es (on_event payload e q)

unfoldable pub open_request : Stats → Request
open_request st = record {
  stats = st;
  chunks = [];
  written = [];
  destroyed = false;
  promise = pending;
}

-- `rawRequest`, over all the events of its socket
unfoldable pub raw_request : Text → List SocketEvent → Stats → Request
unfolding on_events open_request
raw_request payload es st = on_events payload es (open_request st)

-- What an attempt that has settled leaves: `catch (e) { stats.socket_err++; }`
abbrev pub after_attempt : Promise → Stats → Stats
after_attempt rejected st = record st { socket_err = suc st.socket_err }
after_attempt _ st = st

-- One round of `worker` with a variant that awaits `rawRequest` and nothing else
unfoldable pub attempt : Text → List SocketEvent → Stats → Stats
unfolding raw_request
attempt payload es st = let q = raw_request payload es st in after_attempt q.promise q.stats

-- `buf.toString("ascii").startsWith("HTTP/1.1 ")`; "ascii" drops the highest bit
abbrev pub ascii_unit : ℕ → ℕ
ascii_unit b = if ltb b 128 then b else b - 128

abbrev pub ascii : List ℕ → Text
ascii [] = []
ascii (b ∷ bs) = ascii_unit b ∷ ascii bs

unfoldable pub is_response : List ℕ → Bool
unfolding starts_with
is_response bytes = starts_with (text "HTTP/1.1 ") (ascii bytes)

abbrev pub count_reply : Promise → Stats → Stats
count_reply (resolved bytes) st =
    if is_response bytes
    then record st { ok = suc st.ok }
    else record st { malformed_resp = suc st.malformed_resp }
count_reply rejected st = record st { socket_err = suc st.socket_err }
count_reply pending st = st

-- One round of `worker` with `normalGetMixedIn`
unfoldable pub normal_attempt : Text → List SocketEvent → Stats → Stats
unfolding raw_request is_response
normal_attempt payload es st = let q = raw_request payload es st in count_reply q.promise q.stats

-- `checkStillAlive`, of a settled promise
unfoldable pub still_alive : Promise → Bool
unfolding is_response
still_alive (resolved bytes) = is_response bytes
still_alive _ = false

-- `slowloris`: `tick` is a call of the interval's function, as long as there is one; `ends` is an end by the other side,
-- at which the platform destroys the socket.
pub data DripEvent : Type 0 where
  tick ends errs times_out : DripEvent

pub record Drip : Type 0 where
  pub stats : Stats
  pub position : ℕ
  pub ticking : Bool
  pub destroyed : Bool
  pub settled : Bool

unfoldable pub open_drip : Stats → Drip
open_drip st = record {
  stats = st;
  position = 0;
  ticking = true;
  destroyed = false;
  settled = false;
}

-- the function of the interval
unfoldable pub on_tick : ℕ → Drip → Drip
on_tick total d =
    if leb total d.position || d.destroyed
    then record {
      stats = record d.stats { sent = suc d.stats.sent };
      position = d.position;
      ticking = false;
      destroyed = true;
      settled = true;
    }
    else record d { position = suc d.position }

-- An error too destroys the socket.
unfoldable pub on_drip : ℕ → DripEvent → Drip → Drip
unfolding on_tick
on_drip total tick d = if d.ticking then on_tick total d else d
on_drip total ends d = record d { destroyed = true }
on_drip total errs d = record d {
  stats = record d.stats { socket_err = suc d.stats.socket_err };
  destroyed = true;
}
on_drip total times_out d = record d { ticking = false; destroyed = true }

unfoldable pub slowloris : ℕ → List DripEvent → Drip → Drip
unfolding on_drip
slowloris total [] d = d
slowloris total (e ∷ es) d = slowloris total es (on_drip total e d)
