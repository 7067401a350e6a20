-- ===== src/Fuzzer/Tests.antt =====
-- The arguments and the attempts of tools/fuzz/http_fuzz.mjs at concrete values.
use mathlib.Core.Option
use akamata.Prelude.{◌≡◌, refl, true, false, some, List, [], ◌∷◌, ◌++◌, arith}
use akamata.Text.{text, same, starts_with}
use akamata.Fuzzer.{defaults, parse_args}
use akamata.Fuzzer.Connection.{
  Stats, resolved, rejected, SocketEvent, connect, close, timeout, chunk, error, raw_request,
  attempt, tick, ends, errs, times_out, open_drip, slowloris,
}
use akamata.Fuzzer.Connection.Settling.{received, raw_request-resolves, attempt-counts_twice}
use akamata.Fuzzer.Connection.Dripping.{ticks, slowloris-settles, slowloris-hangs}

usage :
    parse_args (text "http://127.0.0.1:8080" ∷ text "--duration=30s" ∷ text "--workers=8" ∷ [])
    ≡ some defaults
unfolding parse_args starts_with Option.bind defaults
usage = refl

abbrev none_yet : Stats
none_yet = record { sent = 0; ok = 0; refused = 0; socket_err = 0; malformed_resp = 0 }

abbrev answered : List SocketEvent
answered = connect ∷ chunk (72 ∷ []) ∷ chunk (73 ∷ []) ∷ timeout ∷ []

raw_request-resolves_example :
    ((raw_request [] (answered ++ close ∷ []) none_yet).promise ≡ resolved (72 ∷ 73 ∷ []))
    × (attempt [] (answered ++ close ∷ []) none_yet ≡ record none_yet { sent = 1 })
unfolding received
raw_request-resolves_example = raw_request-resolves [] answered none_yet tt

attempt-counts_twice_example :
    ((raw_request [] (error (text "ECONNREFUSED") ∷ close ∷ []) none_yet).promise ≡ rejected)
    × (attempt [] (error (text "ECONNREFUSED") ∷ close ∷ []) none_yet
        ≡ record none_yet { sent = 1; refused = 1; socket_err = 1 })
unfolding same
attempt-counts_twice_example = attempt-counts_twice [] (text "ECONNREFUSED") [] none_yet tt

slowloris-settles_example :
    ((slowloris 2 (tick ∷ errs ∷ tick ∷ tick ∷ []) (open_drip none_yet)).settled ≡ true)
    × ((slowloris 2 (tick ∷ errs ∷ tick ∷ tick ∷ []) (open_drip none_yet)).stats.sent ≡ 1)
unfolding ticks
slowloris-settles_example =
    slowloris-settles 2 (tick ∷ errs ∷ tick ∷ tick ∷ []) none_yet tt (omega arith)

slowloris-hangs_example :
    (slowloris 2 (times_out ∷ tick ∷ ends ∷ tick ∷ tick ∷ []) (open_drip none_yet)).settled ≡ false
unfolding open_drip
slowloris-hangs_example =
    slowloris-hangs 2 (tick ∷ ends ∷ tick ∷ tick ∷ []) (open_drip none_yet) refl
