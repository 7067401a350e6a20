-- ===== src/Instance/Tests.antt =====
-- Dispatches and a batch at a small instance (deploy/worker/index.mjs).
use mathlib.Core.Option
use akamata.Prelude.{
  Option, false, ℕ, ◌+◌, ◌≤◌, ◌≡◌, refl, true, none, some, List, [], ◌∷◌, arith, length, get_elem?,
}
use akamata.Text.{text, join}
use akamata.Text.Utf8.{encode}
use akamata.Memory.{Memory, cells, read_bytes}
use akamata.Http.{Web, Answer, relayed, Request, request_head, request_bytes}
use akamata.Http.Parts.{Parts, response_bytes, IsServed, status_line}
use akamata.Instance.{
  Exports, write_request, allocated, fetched, freed, retry, QueueMessage, view, after_fetch,
  dispatch_unlocked, queue,
}
use akamata.Instance.Written.{IsLinear, dispatch_unlocked-enters}
use akamata.Instance.Balance.{logging, Ends, dispatch_unlocked-Ends}
use akamata.Instance.Batch.{IsThrough, queue-IsThrough}
use akamata.Json.{Json, Codec, null}
use akamata.Dispatch.{
  Outcome, returned, Dispatch, finish, chunk, Queue, Event, call, resume, advance, init, run,
}
use akamata.Dispatch.Serial.{HasOutcomes, dispatches}
use akamata.Instance.Concurrent.{dispatch_of, dispatches_of, serve, served_in_turn}

abbrev served : Parts
served = record {
  hundreds = 2;
  tens = 0;
  ones = 0;
  reason = text "OK" ∷ [];
  fields = [];
  body = 1 ∷ [];
}

served-IsServed : IsServed served
served-IsServed = record {
  first = (omega arith, omega arith);
  digits = (omega arith, omega arith);
  words = ground arith;
  clean = tt;
}

-- The state is the memory; every buffer starts at 64, and the response of every request at 1.
abbrev exports : Exports Memory
exports = record {
  alloc = λ n s. (64, s);
  dealloc = λ p n s. s;
  handle_fetch = λ p n s. (some 1, s);
  handle_queue = λ p n s. (none, s);
  last_response_length = λ s. length (response_bytes served);
  last_error_length = λ s. 0;
  last_error_ptr = λ s. 0;
  memory = λ s. s;
  with_memory = λ s m. m;
}

abbrev memory : Memory
memory = record {
  size = 1024;
  cell = λ q. Option.get_or (get_elem? (0 ∷ response_bytes served) q) 0;
}

linear : IsLinear exports
linear s m = refl

abbrev web : Web
web = record { valid_header = λ k v. true; constructible = λ s b. true }

abbrev request : Request
request = record {
  method = text "GET";
  pathname = text "/";
  search = [];
  host = text "a";
  headers = [];
  body = 7 ∷ [];
}

request_fits : 64 + length (request_bytes request) ≤ 1024
unfolding request_bytes
request_fits = omega arith

dispatch_unlocked-enters_example :
    (s' : Memory) × (read_bytes s' 64 (length (request_bytes request))
      ≡ some (request_bytes request))
    × (dispatch_unlocked exports web request memory
        ≡ after_fetch exports web 64 (length (request_bytes request)) (some 1, s'))
dispatch_unlocked-enters_example =
    dispatch_unlocked-enters exports web request memory linear request_fits

dispatch_unlocked-Ends_example :
    Ends exports web 64
      (length (encode (request_head request)) + 1)
      (dispatch_unlocked (logging exports) web request (memory, [])).value
      (dispatch_unlocked (logging exports) web request (memory, [])).state.1
    × ((dispatch_unlocked (logging exports) web request (memory, [])).state.1
        ≡ (dispatch_unlocked (logging exports) web request (memory, [])).calls)
dispatch_unlocked-Ends_example = dispatch_unlocked-Ends exports web request memory

-- The response of the instance is answered, and both buffers are freed.
frees_both :
    (dispatch_unlocked (logging exports) web request (memory, [])).state.1
    ≡ allocated 64 49 ∷ fetched 64 49 ∷ freed 64 49 ∷ freed 1 (length (response_bytes served)) ∷ []
unfolding dispatch_unlocked write_request encode request_head response_bytes view cells status_line
    join
frees_both = refl

abbrev codec : Codec
codec = record { parse = λ s. none; stringify = λ v. text "{}" }

abbrev message : Option Json → QueueMessage
message body = record { id = text "m"; body = body; attempts = 1; timestamp = some (text "t") }

abbrev batch : List QueueMessage
batch = message (some null) ∷ message none ∷ message (some null) ∷ []

abbrev undisturbed : ℕ → Memory → Memory
undisturbed n s = s

queue-IsThrough_example :
    IsThrough exports codec batch
      (queue exports codec true undisturbed batch memory).verdicts
      (queue exports codec true undisturbed batch memory).threw
    × ((queue exports codec false undisturbed batch memory).verdicts ≡ retry ∷ retry ∷ retry ∷ [])
    × ((queue exports codec false undisturbed batch memory).threw ≡ false)
queue-IsThrough_example = queue-IsThrough exports codec undisturbed batch memory

-- The second message cannot be written as JSON: it and the third have no verdict.
stops_at_the_second : (queue exports codec true undisturbed batch memory).verdicts ≡ retry ∷ []
unfolding queue encode
stops_at_the_second = refl

-- The instance is suspended once for each request.
abbrev handle : ℕ → ℕ → Dispatch Memory ℕ
handle ptr len = chunk (λ s. s) (λ s. chunk (λ t. t) (λ t. finish (returned 1)))

abbrev requests : List Request
requests = request ∷ record request { pathname = text "/b" } ∷ []

abbrev events : List (Event Memory Answer)
events =
    call (dispatch_of exports handle web request)
    ∷ call (dispatch_of exports handle web (record request { pathname = text "/b" }))
    ∷ resume 0
    ∷ advance 0
    ∷ advance 0
    ∷ advance 0
    ∷ advance 0
    ∷ advance 0
    ∷ resume 1
    ∷ advance 1
    ∷ advance 1
    ∷ advance 1
    ∷ advance 1
    ∷ advance 1
    ∷ []

abbrev last : Queue Memory Answer
last = Option.get_or (run events (init memory)) (init memory)

abbrev answers : List (Outcome Answer)
answers = returned (relayed 200 [] (1 ∷ [])) ∷ returned (relayed 200 [] (1 ∷ [])) ∷ []

served_events : run events (init memory) ≡ some last
unfolding run init Option.bind dispatch_of write_request encode request_head response_bytes
    status_line
served_events = refl

served_calls : dispatches last.jobs ≡ dispatches_of exports handle web requests
unfolding run init Option.bind dispatch_of write_request encode request_head response_bytes
    status_line
served_calls = refl

settled_answers : HasOutcomes last.jobs answers
unfolding run init Option.bind dispatch_of after_fetch write_request encode request_head
    response_bytes status_line
settled_answers = (refl, (refl, tt))

served_in_turn_example : serve exports handle web requests memory ≡ (last.shared, answers)
served_in_turn_example =
    served_in_turn exports handle web requests memory events last answers served_events served_calls
      settled_answers
