-- ===== src/Outbound/Client.antt =====
-- src/http_client.zig: the instance's side of `akamata_fetch`. `serialize` is the text that `workersSend` makes
-- of a request, `framing_of` what `parseResponse` takes from the head of the answer.
use mathlib.Core.Option
use akamata.Prelude.{
  ℕ, zero, ◌+◌, ◌-◌, ◌*◌, Bool, true, false, not, ◌&&◌, ◌||◌, Option, none, some, List, [], ◌∷◌,
  ◌++◌, ltb, leb, ◌==◌, if◌then◌else◌, take, drop, get_elem?,
}
use mathlib.Core.List.{reverse}
use akamata.Text.{Text, text, index_of, split, is_digit}
use akamata.Http.{Fields, crlf, find_header_end, field_line}

-- `Request`: its method, url, headers and body
pub record ClientRequest : Type 0 where
  pub method : Text
  pub url : Text
  pub headers : Fields
  pub body : Text

-- the loop over `request.headers`
unfoldable pub serialize_headers : Fields → Text
serialize_headers [] = []
serialize_headers ((name, value) ∷ hs) = field_line name value ++ (10 ∷ serialize_headers hs)

unfoldable pub serialize : ClientRequest → Text
unfolding serialize_headers
serialize z = z.method ++ (10 ∷ (z.url ++ (10 ∷ (serialize_headers z.headers ++ (10 ∷ z.body)))))

-- `std.ascii.toLower`
unfoldable pub ascii_lower : ℕ → ℕ
ascii_lower c = if leb b'A' c && leb c b'Z' then c + 32 else c

-- `eqlIgnoreCase`
unfoldable pub eql_ignore_case : Text → Text → Bool
unfolding ascii_lower
eql_ignore_case [] [] = true
eql_ignore_case [] (_ ∷ _) = false
eql_ignore_case (_ ∷ _) [] = false
eql_ignore_case (a ∷ s) (b ∷ t) = ascii_lower a == ascii_lower b && eql_ignore_case s t

unfoldable pub trim_left : Text → Text
trim_left [] = []
trim_left (c ∷ s) = if c == 32 || c == 9 then trim_left s else c ∷ s

-- `std.mem.trim(u8, s, " \t")`
unfoldable pub trim_blanks : Text → Text
unfolding trim_left
trim_blanks s = reverse (trim_left (reverse (trim_left s)))

-- The digits of `std.fmt.parseInt`, below `2 ^ w`; it passes over `_`.
unfoldable pub accumulate : ℕ → ℕ → Text → Option ℕ
unfolding is_digit
accumulate limit n [] = some n
accumulate limit n (c ∷ s) =
    let next : ℕ = n * 10 + (c - b'0') in
    let passed = accumulate limit n s in
    let more = accumulate limit next s in
    if c == b'_' then passed else if is_digit c && ltb next limit then more else none

abbrev pub last_or : ℕ → Text → ℕ
last_or d [] = d
last_or d (c ∷ s) = last_or c s

-- `parseIntWithSign` on an unsigned number
unfoldable pub unsigned_of : ℕ → Text → Option ℕ
unfolding accumulate
unsigned_of limit [] = none
unsigned_of limit (c ∷ s) =
    if c == b'_' || last_or c s == b'_' then none else accumulate limit 0 (c ∷ s)

-- `-` is taken before zeros only
unfoldable pub negated_of : Option ℕ → Option ℕ
negated_of (some zero) = some 0
negated_of _ = none

-- `std.fmt.parseInt(T, s, 10)` of an unsigned type with the values below `limit`
unfoldable pub parse_int_below : ℕ → Text → Option ℕ
unfolding unsigned_of negated_of
parse_int_below limit [] = none
parse_int_below limit (c ∷ s) =
    if c == b'+'
    then unsigned_of limit s
    else if c == b'-'
    then negated_of (unsigned_of limit s)
    else unsigned_of limit (c ∷ s)

-- `transfer_encoding_seen`, which is also `chunked`, and `content_length` with `content_length_seen`
pub record Framing : Type 0 where
  pub chunked : Bool
  pub content_length : Option ℕ

abbrev pub with_length : Framing → Option ℕ → Option ℕ → Option Framing
with_length f (some n) seen = none
with_length f none none = none
with_length f none (some n) = some (record f { content_length = some n })

-- One header; lengths are `usize`, of 32 bits in the instance.
unfoldable pub see_field : Text → Text → Framing → Option Framing
unfolding eql_ignore_case parse_int_below
see_field name value f =
    if eql_ignore_case name (text "transfer-encoding")
    then (if f.chunked || not (eql_ignore_case value (text "chunked"))
        then none
        else some (record f { chunked = true }))
    else if eql_ignore_case name (text "content-length")
    then with_length f f.content_length (parse_int_below 0x100000000 value)
    else some f

unfoldable pub see_line : Text → Framing → Option Framing
unfolding see_field index_of trim_blanks
see_line line f = elim (index_of (text ":") line) [
  | none ↦ some f
  | some colon ↦ see_field (trim_blanks (take colon line)) (trim_blanks (drop (colon + 1) line)) f
]

unfoldable pub see_lines : List Text → Framing → Option Framing
unfolding see_line
see_lines [] f = some f
see_lines (line ∷ lines) f = Option.bind (see_line line f) (see_lines lines)

-- both headers at once are refused
unfoldable pub consistent : Framing → Option Framing
consistent f = elim f.content_length [ none ↦ some f | some n ↦ if f.chunked then none else some f ]

-- the second word of the status line, a `u16`
unfoldable pub client_status : Text → Option ℕ
unfolding parse_int_below split
client_status line = Option.bind (get_elem? (split (text " ") line) 1) (parse_int_below 65536)

-- What `parseResponse` has when it comes to the body: the status, the framing, and all behind the head. The bytes
-- of the head are ASCII here. `none` is HttpProtocolError.
pub record Head : Type 0 where
  pub status : ℕ
  pub framing : Framing
  pub rest : List ℕ

abbrev pub head_of : List Text → List ℕ → Option Head
head_of [] rest = none
head_of (line ∷ lines) rest = Option.bind (client_status line) λ status.
    Option.map (λ f. record { status = status; framing = f; rest = rest })
      (Option.bind (see_lines lines (record { chunked = false; content_length = none })) consistent)

unfoldable pub response_head : List ℕ → Option Head
unfolding find_header_end split client_status see_lines consistent
response_head bytes =
    Option.bind (find_header_end bytes)
      λ sep. head_of (split crlf (take sep bytes)) (drop (sep + 4) bytes)
