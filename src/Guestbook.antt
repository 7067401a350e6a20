-- ===== src/Guestbook.antt =====
-- deploy/guestbook/worker/index.mjs: the worker of the guestbook example, an earlier copy of deploy/worker/index.mjs. Its `dispatchWasm` is here,
-- its bridge to D1 in Statements. What its `dispatchWasm` does to the instance is written with the functions of Instance.
pub mod Statements
pub mod Same
pub mod Duplicates
pub mod Entries
pub mod Readings
pub mod Simulation
mod Tests
use mathlib.Core.Option
use akamata.Prelude.{ℕ, zero, suc, ◌+◌, Option, none, some, List, [], ◌∷◌, ◌++◌, length}
use akamata.Text.{Text, text, join}
use akamata.Text.Utf8.{encode}
use akamata.Http.{
  Fields, crlf, Answer, plain, Web, Request, field_line, request_line, parse_http_response,
}
use akamata.Http.Decimal.{decimal}
use akamata.Instance.{
  Exports, allocated, fetched, freed, Done, Handed, written, failed, write_request, view,
}

-- `for (const [k, v] of request.headers) headers.push(…)`
unfoldable pub header_lines : Fields → List Text
header_lines [] = []
header_lines ((k, v) ∷ hs) = field_line k v ∷ header_lines hs

unfoldable pub guest_head : Request → Text
unfolding header_lines join decimal
guest_head r =
    request_line r
    ++ (crlf
        ++ (field_line (text "host") r.host
            ++ (crlf
                ++ (join crlf (header_lines r.headers)
                    ++ (crlf
                        ++ (field_line (text "content-length") (decimal (length r.body))
                            ++ (crlf ++ crlf)))))))

module _ {S : Type 0} (x : Exports S) (web : Web) where
  -- from `new Uint8Array(memory.buffer, respPtr, respLen).slice()` on; `none` is a RangeError
  unfoldable pub respond : ℕ → ℕ → ℕ → ℕ → Option (List ℕ) → S → Done Answer S
  unfolding parse_http_response
  respond ptr total resp_ptr resp_len none s = record {
    value = none;
    calls = allocated ptr total ∷ fetched ptr total ∷ [];
    state = s;
  }
  respond ptr total resp_ptr resp_len (some bs) s = record {
    value = parse_http_response web bs;
    calls =
        allocated ptr total ∷ fetched ptr total ∷ freed ptr total ∷ freed resp_ptr resp_len ∷ [];
    state = x.dealloc resp_ptr resp_len (x.dealloc ptr total s);
  }

  -- after `await handleFetchAsync(ptr, total)`
  unfoldable pub after_call : ℕ → ℕ → Option ℕ × S → Done Answer S
  unfolding respond view
  after_call ptr total (none, s) = record {
    value = none;
    calls = allocated ptr total ∷ fetched ptr total ∷ [];
    state = s;
  }
  after_call ptr total (some zero, s) = record {
    value = some (plain 500 (text "internal error"));
    calls = allocated ptr total ∷ fetched ptr total ∷ freed ptr total ∷ [];
    state = x.dealloc ptr total s;
  }
  after_call ptr total (some (suc p), s) =
      respond ptr total (suc p) (x.last_response_length s)
        (view (x.memory s) (suc p) (x.last_response_length s)) s

  unfoldable pub call_fetch : ℕ → ℕ → Handed S → Done Answer S
  unfolding after_call
  call_fetch ptr total (failed s) = record {
    value = none;
    calls = allocated ptr total ∷ [];
    state = s;
  }
  call_fetch ptr total (written s) = after_call ptr total (x.handle_fetch ptr total s)

  -- `dispatchWasm`
  unfoldable pub dispatch_wasm : Request → S → Done Answer S
  unfolding call_fetch write_request guest_head encode
  dispatch_wasm r s =
      let head = encode (guest_head r) in
      let total = length head + length r.body in
      let (ptr, s') = x.alloc total s in call_fetch ptr total (write_request x ptr head r.body s')
