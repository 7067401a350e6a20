-- ===== src/Http.antt =====
-- deploy/worker/index.mjs: the HTTP/1 text between the worker and the wasm instance. `request_bytes`
-- is what `dispatchWasmUnlocked` writes into the memory, `parse_http_response` what it makes of the
-- bytes that it reads back.
pub mod Decimal
pub mod HeaderEnd
pub mod Framing
pub mod Sending
pub mod Parts
pub mod Lines
pub mod Receiving
mod Tests
use mathlib.Core.Option
use akamata.Prelude.{
  ℕ, zero, suc, ◌+◌, Bool, true, false, not, ◌&&◌, ◌||◌, Option, none, some, List, [], ◌∷◌, ◌++◌,
  ltb, leb, ◌==◌, if◌then◌else◌, length, take, drop, get_elem?,
}
use akamata.Prelude.Numbers.{ℤ, pos, negsuc}
use akamata.Text.{Text, text, same, index_of, split, join, trim, to_lower, parse_int}
use akamata.Text.Utf8.{encode, decode}
use Decimal.{decimal}

abbrev pub Fields : Type 0
Fields = List (Text × Text)

-- A `Response`, by how the source makes it: from a text, from a JSON object with an error name, or
-- from the bytes and headers that the instance answered.
pub data Answer : Type 0 where
  plain : ℕ → Text → Answer
  json_error : ℕ → Text → Answer
  relayed : ℕ → Fields → List ℕ → Answer

-- What the platform accepts: a header's name and value in `Headers.set`, and a status with a body in
-- `new Response`. What it does not accept it throws at.
pub record Web : Type 0 where
  pub valid_header : Text → Text → Bool
  pub constructible : ℕ → List ℕ → Bool

abbrev pub crlf : Text
crlf = 13 ∷ 10 ∷ []

-- `headers.set`: names are compared in lower case
unfoldable pub replace : Text → Text → Fields → Fields
replace name value [] = (name, value) ∷ []
replace name value ((k, v) ∷ hs) =
    if same k name then (name, value) ∷ hs else (k, v) ∷ replace name value hs

unfoldable pub set_header : Web → Text → Text → Fields → Option Fields
unfolding replace to_lower
set_header web name value hs =
    if web.valid_header name value then some (replace (to_lower name) value hs) else none

-- `bytes[i] === 13 && … ` for the first `i` at which it holds
unfoldable pub find_header_end : List ℕ → Option ℕ
find_header_end (a ∷ b ∷ c ∷ d ∷ bs) =
    let rest = Option.map suc (find_header_end (b ∷ c ∷ d ∷ bs)) in
    if a == 13 && b == 10 && c == 13 && d == 10 then some 0 else rest
find_header_end _ = none

-- the loop over `lines` from 1 on
unfoldable pub set_line : Web → Text → Fields → Option Fields
unfolding set_header index_of trim
set_line web line hs = elim (index_of (text ":") line) [
  | none ↦ some hs
  | some i ↦ set_header web (trim (take i line)) (trim (drop (i + 1) line)) hs
]

unfoldable pub set_lines : Web → List Text → Fields → Option Fields
unfolding set_line
set_lines web [] hs = some hs
set_lines web (line ∷ lines) hs = Option.bind (set_line web line hs) (set_lines web lines)

-- `parseInt(lines[0].split(" ")[1], 10)`; of undefined it is NaN
unfoldable pub status_of : List Text → Option ℤ
unfolding split parse_int
status_of [] = none
status_of (line ∷ lines) = Option.bind (get_elem? (split (text " ") line) 1) parse_int

-- an integer in the range that is not refused
unfoldable pub valid_status : Option ℤ → Option ℕ
valid_status none = none
valid_status (some (negsuc n)) = none
valid_status (some (pos n)) = if ltb n 200 || ltb 599 n then none else some n

unfoldable pub construct : Web → ℕ → Fields → List ℕ → Option Answer
construct web status hs body =
    if web.constructible status body then some (relayed status hs body) else none

unfoldable pub answer_lines : Web → List Text → List ℕ → Option Answer
unfolding set_lines status_of valid_status construct
answer_lines web lines body = Option.bind (set_lines web (drop 1 lines) []) λ hs.
    elim (valid_status (status_of lines)) [
      | none ↦ some (plain 502 (text "invalid wasm response status"))
      | some status ↦ construct web status hs body
    ]

-- `none` is a throw
unfoldable pub parse_http_response : Web → List ℕ → Option Answer
unfolding find_header_end split decode answer_lines
parse_http_response web bs = elim (find_header_end bs) [
  | none ↦ some (plain 502 (text "invalid wasm response"))
  | some sep ↦ answer_lines web (split crlf (decode (take sep bs))) (drop (sep + 4) bs)
]

-- What the worker reads of a `Request`; `headers` are the pairs of `request.headers`.
pub record Request : Type 0 where
  pub method : Text
  pub pathname : Text
  pub search : Text
  pub host : Text
  pub headers : Fields
  pub body : List ℕ

-- `lower === "host" || lower === "content-length"`
unfoldable pub is_owned : Text → Bool
unfolding same to_lower
is_owned k = same (to_lower k) (text "host") || same (to_lower k) (text "content-length")

abbrev pub field_line : Text → Text → Text
field_line k v = k ++ (text ": " ++ v)

unfoldable pub forwarded : Fields → List Text
unfolding is_owned
forwarded [] = []
forwarded ((k, v) ∷ hs) = if is_owned k then forwarded hs else field_line k v ∷ forwarded hs

abbrev pub request_line : Request → Text
request_line r = r.method ++ (text " " ++ (r.pathname ++ (r.search ++ text " HTTP/1.1")))

unfoldable pub request_head : Request → Text
unfolding forwarded join decimal
request_head r =
    request_line r
    ++ (crlf
        ++ (field_line (text "host") r.host
            ++ (crlf
                ++ (join crlf (forwarded r.headers)
                    ++ (crlf
                        ++ (field_line (text "content-length") (decimal (length r.body))
                            ++ (crlf ++ crlf)))))))

unfoldable pub request_bytes : Request → List ℕ
unfolding request_head encode
request_bytes r = encode (request_head r) ++ r.body
