-- ===== src/Outbound.antt =====
-- deploy/worker/index.mjs: `akamata_fetch`, the import through which the instance calls other servers. It takes a request
-- as text from the memory, calls `fetch`, and leaves the answer as HTTP/1.1 text in a buffer of the instance.
-- The instance is suspended at the awaits and holds the lock, so that its state does not change there.
pub mod Client
mod Cutting
pub mod Numerals
pub mod Expressed
pub mod Requests
mod Replies
pub mod Framed
pub mod Refused
pub mod Buffer
mod Tests
use mathlib.Core.Option
use akamata.Prelude.{
  ℕ, suc, ◌+◌, ◌/◌, ◌%◌, ◌^◌, Bool, true, false, not, ◌&&◌, ◌||◌, Option, none, some, List, [], ◌∷◌,
  ◌++◌, ltb, ◌==◌, if◌then◌else◌, length, take, drop,
}
use akamata.Prelude.Numbers.{ℤ, pos, minus}
use akamata.Text.{Text, text, same, index_of, split, to_lower}
use akamata.Text.Utf8.{encode}
use akamata.Memory.{read_string}
use akamata.D1.Statements.{suspending}
use akamata.Http.{Fields, Web, crlf, field_line, set_lines}
use akamata.Http.Decimal.{decimal}
use akamata.Instance.{Exports, Handed, written, failed, write, write_request}

abbrev pub newline : Text
newline = 10 ∷ []

-- `METHOD\nURL\nheaders\n\nBODY`, cut
pub record Sections : Type 0 where
  pub method : Text
  pub url : Text
  pub header_block : Text
  pub body : Text

-- what is before the first `p`, and what is behind it
unfoldable pub cut : Text → Text → Option (Text × Text)
unfolding index_of
cut p s = Option.map (λ i. (take i s, drop (i + length p) s)) (index_of p s)

-- `none` is the answer -1
unfoldable pub sections : Text → Option Sections
unfolding cut
sections req = Option.bind (cut newline req) λ (m : Text × Text).
    Option.bind (cut newline m.1) λ (u : Text × Text).
      Option.map
        (λ (h : Text × Text). record { method = m.0; url = u.0; header_block = h.0; body = h.1 })
        (cut (newline ++ newline) u.1)

-- The arguments of `fetch`; the body is there if `init.body` is set.
pub record Outgoing : Type 0 where
  pub method : Text
  pub url : Text
  pub headers : Fields
  pub body : Option Text

-- `new Headers()` and the loop over the lines; `none` is a throw
unfoldable pub block_headers : Web → Text → Option Fields
unfolding set_lines split
block_headers web block =
    if ltb 0 (length block) then set_lines web (split newline block) [] else some []

-- `method !== "GET" && method !== "HEAD" && body.length > 0`
unfoldable pub body_of : Text → Text → Option Text
unfolding same
body_of method body =
    if not (same method (text "GET")) && not (same method (text "HEAD")) && ltb 0 (length body)
    then some body
    else none

unfoldable pub outgoing_of : Web → Sections → Option Outgoing
unfolding block_headers body_of
outgoing_of web c =
    Option.map
      (λ hs. record {
        method = c.method;
        url = c.url;
        headers = hs;
        body = body_of c.method c.body;
      })
      (block_headers web c.header_block)

-- The response of the other server. The platform keeps header names in lower case.
pub record Upstream : Type 0 where
  pub status : ℕ
  pub status_text : Text
  pub headers : Fields
  pub body : List ℕ

-- the lines of the loop over `resp.headers`
unfoldable pub reply_fields : Fields → Text
unfolding same to_lower
reply_fields [] = []
reply_fields ((k, v) ∷ hs) =
    if same (to_lower k) (text "transfer-encoding")
    then reply_fields hs
    else field_line k v ++ (crlf ++ reply_fields hs)

unfoldable pub reply_head : Upstream → Text
unfolding reply_fields decimal
reply_head u =
    (text "HTTP/1.1 " ++ (decimal u.status ++ (text " " ++ u.status_text)))
    ++ (crlf
        ++ (reply_fields u.headers
            ++ (field_line (text "content-length") (decimal (length u.body)) ++ (crlf ++ crlf))))

unfoldable pub reply_bytes : Upstream → List ℕ
unfolding reply_head encode
reply_bytes u = encode (reply_head u) ++ u.body

-- the bytes of `n` modulo 2 ^ 32, the lowest first
unfoldable pub little_endian : ℕ → List ℕ
little_endian n = (n % 256) ∷ (n / 256 % 256) ∷ (n / 65536 % 256) ∷ (n / 16777216 % 256) ∷ []

module _ {S : Type 0} (x : Exports S) where
  -- `dv.setUint32(addr, n, true)`; `none` is a RangeError
  unfoldable pub set_uint32 : ℕ → ℕ → S → Option S
  unfolding little_endian write
  set_uint32 addr n s = write x addr (little_endian n) s

  abbrev pub then_length : ℕ → ℕ → S → Option S → ℤ × S
  then_length out_len_addr total s o = elim o [
    | none ↦ (minus 2, s)
    | some s' ↦ elim (set_uint32 out_len_addr total s') [
      | none ↦ (minus 2, s')
      | some s'' ↦ (pos 0, s'')
    ]
  ]

  -- where the buffer has been written
  unfoldable pub announce : ℕ → ℕ → ℕ → ℕ → Handed S → ℤ × S
  unfolding set_uint32
  announce buf_ptr total out_ptr_addr out_len_addr (failed s) = (minus 2, s)
  announce buf_ptr total out_ptr_addr out_len_addr (written s) =
      then_length out_len_addr total s (set_uint32 out_ptr_addr buf_ptr s)

  unfoldable pub deliver : Upstream → ℕ → ℕ → S → ℤ × S
  unfolding announce write_request reply_head encode
  deliver u out_ptr_addr out_len_addr s =
      let head = encode (reply_head u) in
      let total = length head + length u.body in
      let (buf_ptr, s') = x.alloc total s in
      announce buf_ptr total out_ptr_addr out_len_addr (write_request x buf_ptr head u.body s')

  abbrev pub then_deliver : ℕ → ℕ → S → Option Upstream → ℤ × S
  then_deliver out_ptr_addr out_len_addr s o = elim o [
    | none ↦ (minus 2, s)
    | some u ↦ deliver u out_ptr_addr out_len_addr s
  ]

  -- `fetch` is the platform's, with the reading of the response; `none` is a rejection.
  unfoldable pub call_upstream :
      Web → (Outgoing → Option Upstream) → ℕ → ℕ → S → Option Sections → ℤ × S
  unfolding deliver outgoing_of
  call_upstream web fetch out_ptr_addr out_len_addr s none = (minus 1, s)
  call_upstream web fetch out_ptr_addr out_len_addr s (some c) =
      then_deliver out_ptr_addr out_len_addr s (Option.bind (outgoing_of web c) fetch)

  unfoldable pub fetch_text : Web → (Outgoing → Option Upstream) → ℕ → ℕ → S → Option Text → ℤ × S
  unfolding call_upstream sections
  fetch_text web fetch out_ptr_addr out_len_addr s none = (minus 2, s)
  fetch_text web fetch out_ptr_addr out_len_addr s (some req) =
      call_upstream web fetch out_ptr_addr out_len_addr s (sections req)

  unfoldable pub akamata_fetch :
      Bool → Web → (Outgoing → Option Upstream) → ℕ → ℕ → ℕ → ℕ → S → ℤ × S
  unfolding suspending fetch_text read_string
  akamata_fetch jspi web fetch req_ptr req_len out_ptr_addr out_len_addr s =
      suspending jspi
        (λ s.
          fetch_text web fetch out_ptr_addr out_len_addr s
            (read_string (x.memory s) req_ptr req_len))
        s
