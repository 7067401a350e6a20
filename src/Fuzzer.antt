-- ===== src/Fuzzer.antt =====
-- tools/fuzz/http_fuzz.mjs: the HTTP fuzzer. Here are its arguments and what its requests are; Connection is one run of `rawRequest`.
pub mod Arguments
pub mod Connection
mod Tests
use mathlib.Core.Option
use akamata.Prelude.{
  ℕ, zero, suc, ◌+◌, ◌-◌, ◌*◌, Bool, true, false, ◌||◌, Option, none, some, List, [], ◌∷◌, ◌++◌,
  ◌==◌, if◌then◌else◌, length, drop,
}
use akamata.Prelude.Numbers.{ℤ, pos}
use akamata.Text.{Text, text, same, is_digit, starts_with, parse_int}
use akamata.Http.{crlf}

-- `opts`; a `workers` of `none` is NaN
pub record Options : Type 0 where
  pub target : Text
  pub duration_ms : ℕ
  pub workers : Option ℤ

unfoldable pub defaults : Options
defaults = record {
  target = text "http://127.0.0.1:8080";
  duration_ms = 30000;
  workers = some (pos 8);
}

-- `(\d+)`: the digits at the head, and what is behind them
unfoldable pub leading_digits : Text → Text × Text
unfolding is_digit
leading_digits [] = ([], [])
leading_digits (c ∷ s) =
    let (ds, rest) = leading_digits s in if is_digit c then (c ∷ ds, rest) else ([], c ∷ s)

-- the value of decimal digits, as `parseInt(m[1], 10)` reads them
unfoldable pub digits_value : ℕ → Text → ℕ
digits_value n [] = n
digits_value n (c ∷ ds) = digits_value (n * 10 + (c - b'0')) ds

-- `(ms|s|m)?$` and the number of milliseconds; `none` does not match
unfoldable pub in_unit : ℕ → Text → Option ℕ
unfolding same
in_unit n [] = some (n * 1000)
in_unit n (c ∷ s) =
    if same (c ∷ s) (text "ms")
    then some n
    else if same (c ∷ s) (text "s")
    then some (n * 1000)
    else if same (c ∷ s) (text "m")
    then some (n * 60000)
    else none

abbrev pub with_unit : Text × Text → Option ℕ
with_unit ([], rest) = none
with_unit (c ∷ ds, rest) = in_unit (digits_value 0 (c ∷ ds)) rest

-- `/^(\d+)(ms|s|m)?$/`, in milliseconds
unfoldable pub duration_of : Text → Option ℕ
unfolding leading_digits in_unit digits_value
duration_of s = with_unit (leading_digits s)

-- One argument; `none` is the throw of "bad --duration".
unfoldable pub read_argument : Text → Options → Option Options
unfolding starts_with duration_of parse_int
read_argument a o =
    if starts_with (text "--duration=") a
    then Option.map (λ ms. record o { duration_ms = ms }) (duration_of (drop 11 a))
    else if starts_with (text "--workers=") a
    then some (record o { workers = parse_int (drop 10 a) })
    else if starts_with (text "http://") a || starts_with (text "https://") a
    then some (record o { target = a })
    else some o

unfoldable pub read_arguments : List Text → Options → Option Options
unfolding read_argument
read_arguments [] o = some o
read_arguments (a ∷ av) o = Option.bind (read_argument a o) (read_arguments av)

-- `parseArgs`
unfoldable pub parse_args : List Text → Option Options
unfolding read_arguments defaults
parse_args av = read_arguments av defaults

-- The payloads of `rawRequest`, by the host
unfoldable pub repeat : ℕ → Text → Text
repeat zero s = []
repeat (suc n) s = s ++ repeat n s

-- the lines of a request's head, each with its CR LF, and the empty line
unfoldable pub head_lines : List Text → Text
head_lines [] = crlf
head_lines (l ∷ ls) = l ++ (crlf ++ head_lines ls)

abbrev pub host_field : Text → Text
host_field host = text "Host: " ++ host

abbrev pub close_field : Text
close_field = text "Connection: close"

abbrev pub post_echo : Text
post_echo = text "POST /echo HTTP/1.1"

abbrev pub chunked_field : Text
chunked_field = text "Transfer-Encoding: chunked"

module _ (host : Text) where
  unfoldable pub giant_content_length_lie : Text
  unfolding head_lines
  giant_content_length_lie =
      head_lines (post_echo ∷ host_field host ∷ text "Content-Length: 10737418240" ∷ [])
      ++ text "{}"

  unfoldable pub huge_body_but_tiny_cl : Text
  unfolding head_lines repeat
  huge_body_but_tiny_cl =
      head_lines (post_echo ∷ host_field host ∷ text "Content-Length: 4" ∷ [])
      ++ repeat 1048576 (text "X")

  unfoldable pub chunked_zero_size : Text
  unfolding head_lines
  chunked_zero_size =
      head_lines (post_echo ∷ host_field host ∷ chunked_field ∷ []) ++ (text "0" ++ (crlf ++ crlf))

  unfoldable pub chunked_bad_hex : Text
  unfolding head_lines
  chunked_bad_hex =
      head_lines (post_echo ∷ host_field host ∷ chunked_field ∷ [])
      ++ (text "zz" ++ (crlf ++ (text "hello" ++ (crlf ++ (text "0" ++ (crlf ++ crlf))))))

  unfoldable pub chunked_no_terminator : Text
  unfolding head_lines
  chunked_no_terminator =
      head_lines (post_echo ∷ host_field host ∷ chunked_field ∷ [])
      ++ (text "5" ++ (crlf ++ text "hello"))

  unfoldable pub smuggling_clte : Text
  unfolding head_lines
  smuggling_clte =
      head_lines (post_echo ∷ host_field host ∷ text "Content-Length: 4" ∷ chunked_field ∷ [])
      ++ (text "0" ++ (crlf ++ (crlf ++ text "foo")))

  unfoldable pub smuggling_duplicate_cl : Text
  unfolding head_lines
  smuggling_duplicate_cl =
      head_lines
        (post_echo ∷ host_field host ∷ text "Content-Length: 4" ∷ text "Content-Length: 8" ∷ [])
      ++ text "abcd1234"

  -- U+1F980 is two code units.
  unfoldable pub illegal_method : Text
  unfolding head_lines
  illegal_method =
      head_lines ((0xd83e ∷ 0xdd80 ∷ text "ATCH / HTTP/1.1") ∷ host_field host ∷ close_field ∷ [])

  unfoldable pub illegal_request_line : Text
  unfolding head_lines
  illegal_request_line =
      head_lines (text "GET   /   HTTP/9.99" ∷ host_field host ∷ close_field ∷ [])

  unfoldable pub control_char_in_url : Text
  unfolding head_lines
  control_char_in_url =
      head_lines
        ((text "GET /" ++ (1 ∷ 2 ∷ 3 ∷ text " HTTP/1.1")) ∷ host_field host ∷ close_field ∷ [])

  unfoldable pub nul_byte_in_header : Text
  unfolding head_lines
  nul_byte_in_header = head_lines (
      text "GET / HTTP/1.1"
      ∷ host_field host
      ∷ (text "X-Bad: a" ++ (0 ∷ text "b"))
      ∷ close_field
      ∷ [])

  unfoldable pub normal_get : Text
  unfolding head_lines
  normal_get = head_lines (text "GET / HTTP/1.1" ∷ host_field host ∷ close_field ∷ [])

  unfoldable pub pipelined_burst : Text
  unfolding head_lines repeat normal_get
  pipelined_burst =
      repeat 5 (head_lines (text "GET / HTTP/1.1" ∷ host_field host ∷ [])) ++ normal_get
