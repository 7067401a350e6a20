-- ===== src/Instance.antt =====
-- deploy/worker/index.mjs: the calls of the worker into the wasm instance, which it makes under the lock:
-- `dispatchWasmUnlocked`, and what `queue` does with each message of a batch. The state `S` of the
-- instance is its own; `calls` are the exported functions that the worker has called, in their order.
pub mod Written
pub mod Balance
pub mod Batch
pub mod Concurrent
mod Tests
use mathlib.Core.Option
use akamata.Prelude.{
  ℕ, zero, suc, ◌+◌, Bool, true, false, Option, none, some, List, [], ◌∷◌, ◌++◌, leb, ltb,
  if◌then◌else◌, length,
}
use akamata.Prelude.Numbers.{ℤ, pos, negsuc}
use akamata.Text.{Text, text}
use akamata.Text.Utf8.{encode}
use akamata.Memory.{Memory, cells, read_string, write_bytes}
use akamata.Json.{Json, Codec, object, member, end, string, integer}
use akamata.Http.{Answer, plain, Web, Request, request_head, parse_http_response}

-- The exports; a `none` of a handler is a throw. `last_error_length` is 0 where it is not exported.
pub record Exports (S : Type 0) : Type 0 where
  pub alloc : ℕ → S → ℕ × S
  pub dealloc : ℕ → ℕ → S → S
  pub handle_fetch : ℕ → ℕ → S → Option ℕ × S
  pub handle_queue : ℕ → ℕ → S → Option ℤ × S
  pub last_response_length : S → ℕ
  pub last_error_length : S → ℕ
  pub last_error_ptr : S → ℕ
  pub memory : S → Memory
  pub with_memory : S → Memory → S

pub data Call : Type 0 where
  allocated freed fetched queued : ℕ → ℕ → Call

-- What a transaction comes to: its value, or a throw, with the calls it has made.
pub record Done (A S : Type 0) : Type 0 where
  pub value : Option A
  pub calls : List Call
  pub state : S

-- Both writes have been made, or one of them has thrown; with the state that this leaves.
pub data Handed (S : Type 0) : Type 0 where
  written failed : S → Handed S

-- `message.ack()` or `message.retry()`
pub data Verdict : Type 0 where
  ack retry : Verdict

-- `if (rc === 0) message.ack(); else message.retry();`, and the retry of the `catch`
unfoldable pub verdict : Option ℤ → Verdict
verdict (some (pos zero)) = ack
verdict _ = retry

-- A message of a batch. A `body` of `none` is a value on which `JSON.stringify` throws; a `timestamp` is as
-- `toISOString` gives it, and `none` is a date on which it throws.
pub record QueueMessage : Type 0 where
  pub id : Text
  pub body : Option Json
  pub attempts : ℕ
  pub timestamp : Option Text

abbrev pub payload_with : Codec → Text → ℕ → Option Json → Option Text → Option (List ℕ)
payload_with codec id attempts (some body) (some timestamp) = some (
    encode (
      codec.stringify (
        object (
          member (text "body") body (
            member (text "event_id") (string id) (
              member (text "attempt") (integer (pos attempts))
                (member (text "timestamp") (string timestamp) end)))))))
payload_with codec id attempts _ _ = none

-- the bytes that the instance gets for a message; `none` is a throw
unfoldable pub payload : Codec → QueueMessage → Option (List ℕ)
unfolding encode
payload codec q = payload_with codec q.id q.attempts q.body q.timestamp

-- What comes of a batch: the verdicts of the messages that got one, whether `queue` has thrown, and the instance.
pub record BatchDone (S : Type 0) : Type 0 where
  pub verdicts : List Verdict
  pub threw : Bool
  pub state : S

-- `new Uint8Array(memory.buffer, ptr, len).slice()`
unfoldable pub view : Memory → ℕ → ℕ → Option (List ℕ)
unfolding cells
view m ptr len = if leb (ptr + len) m.size then some (cells m.cell ptr len) else none

module _ {S : Type 0} (x : Exports S) where
  -- `writeBytes`; `none` is a RangeError
  unfoldable pub write : ℕ → List ℕ → S → Option S
  unfolding write_bytes
  write ptr bs s = Option.map (x.with_memory s) (write_bytes (x.memory s) ptr bs)

  -- head and body, one behind the other
  abbrev pub then_body : ℕ → List ℕ → S → Option S → Handed S
  then_body ptr body s o = elim o [
    | none ↦ failed s
    | some s' ↦ elim (write ptr body s') [ none ↦ failed s' | some s'' ↦ written s'' ]
  ]

  unfoldable pub write_request : ℕ → List ℕ → List ℕ → S → Handed S
  unfolding write
  write_request ptr head body s = then_body (ptr + length head) body s (write ptr head s)

  -- reading the name of the error for the log
  unfoldable pub error_name : S → Option Text
  unfolding read_string
  error_name s =
      if ltb 0 (x.last_error_length s)
      then read_string (x.memory s) (x.last_error_ptr s) (x.last_error_length s)
      else some (text "UnknownWasmDispatchError")

  -- where `handle_fetch` has answered 0
  unfoldable pub fail_fetch : ℕ → ℕ → Option Text → S → Done Answer S
  fail_fetch ptr total none s = record {
    value = none;
    calls = allocated ptr total ∷ fetched ptr total ∷ [];
    state = s;
  }
  fail_fetch ptr total (some name) s = record {
    value = some (plain 500 (text "internal error"));
    calls = allocated ptr total ∷ fetched ptr total ∷ freed ptr total ∷ [];
    state = x.dealloc ptr total s;
  }

  unfoldable pub finish_fetch : Web → ℕ → ℕ → ℕ → ℕ → Option (List ℕ) → S → Done Answer S
  unfolding parse_http_response
  finish_fetch web ptr total resp_ptr resp_len none s = record {
    value = none;
    calls = allocated ptr total ∷ fetched ptr total ∷ [];
    state = s;
  }
  finish_fetch web ptr total resp_ptr resp_len (some bs) s = record {
    value = parse_http_response web bs;
    calls =
        allocated ptr total ∷ fetched ptr total ∷ freed ptr total ∷ freed resp_ptr resp_len ∷ [];
    state = x.dealloc resp_ptr resp_len (x.dealloc ptr total s);
  }

  -- after `await handleFetchAsync(ptr, total)`
  unfoldable pub after_fetch : Web → ℕ → ℕ → Option ℕ × S → Done Answer S
  unfolding error_name fail_fetch finish_fetch view
  after_fetch web ptr total (none, s) = record {
    value = none;
    calls = allocated ptr total ∷ fetched ptr total ∷ [];
    state = s;
  }
  after_fetch web ptr total (some zero, s) = fail_fetch ptr total (error_name s) s
  after_fetch web ptr total (some (suc p), s) =
      finish_fetch web ptr total (suc p) (x.last_response_length s)
        (view (x.memory s) (suc p) (x.last_response_length s)) s

  unfoldable pub enter_fetch : Web → ℕ → ℕ → Handed S → Done Answer S
  unfolding after_fetch
  enter_fetch web ptr total (failed s) = record {
    value = none;
    calls = allocated ptr total ∷ [];
    state = s;
  }
  enter_fetch web ptr total (written s) = after_fetch web ptr total (x.handle_fetch ptr total s)

  -- `dispatchWasmUnlocked`
  unfoldable pub dispatch_unlocked : Web → Request → S → Done Answer S
  unfolding enter_fetch write_request request_head encode
  dispatch_unlocked web r s =
      let head = encode (request_head r) in
      let total = length head + length r.body in
      let (ptr, s') = x.alloc total s in
      enter_fetch web ptr total (write_request ptr head r.body s')

  unfoldable pub enter_queue : ℕ → ℕ → S → Option S → Done ℤ S
  enter_queue ptr len s none = record { value = none; calls = allocated ptr len ∷ []; state = s }
  enter_queue ptr len s (some s') = record {
    value = (x.handle_queue ptr len s').0;
    calls = allocated ptr len ∷ queued ptr len ∷ freed ptr len ∷ [];
    state = x.dealloc ptr len (x.handle_queue ptr len s').1;
  }

  -- what `queue` runs under the lock for one message; `finally` frees also after a throw
  unfoldable pub consume : List ℕ → S → Done ℤ S
  unfolding enter_queue write
  consume bs s =
      let (ptr, s') = x.alloc (length bs) s in enter_queue ptr (length bs) s' (write ptr bs s')

  -- The batch. `between` is what other dispatches do to the instance before the message of a number has the lock. A
  -- payload is made outside of the `try`.
  unfoldable pub consume_all : Codec → (ℕ → S → S) → List QueueMessage → S → BatchDone S
  unfolding consume verdict payload
  consume_all codec between [] s = record { verdicts = []; threw = false; state = s }
  consume_all codec between (q ∷ batch) s = elim (payload codec q) [
    | none ↦ record { verdicts = []; threw = true; state = s }
    | some bs ↦
        let d : Done ℤ S = consume bs (between 0 s) in
        let b : BatchDone S = consume_all codec (λ n. between (suc n)) batch d.state in
        record b { verdicts = verdict d.value ∷ b.verdicts }
  ]

  unfoldable pub retry_all : List QueueMessage → List Verdict
  retry_all [] = []
  retry_all (q ∷ batch) = retry ∷ retry_all batch

  -- `exported`: the instance has a `handle_queue`
  unfoldable pub queue : Codec → Bool → (ℕ → S → S) → List QueueMessage → S → BatchDone S
  unfolding consume_all retry_all
  queue codec true between batch s = consume_all codec between batch s
  queue codec false between batch s = record {
    verdicts = retry_all batch;
    threw = false;
    state = s;
  }
