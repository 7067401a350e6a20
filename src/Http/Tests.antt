-- ===== src/Http/Tests.antt =====
-- The HTTP text at concrete requests and responses (deploy/worker/index.mjs).
use mathlib.Core.Option
use akamata.Prelude.{◌+◌, ◌≡◌, ◌≢◌, refl, true, some, [], ◌∷◌, ◌++◌, arith, length, drop}
use akamata.Text.{text, join, split, same, to_lower, trim, is_space, trim_start}
use akamata.Http.{
  Fields, Web, crlf, find_header_end, Request, is_owned, construct, parse_http_response,
  request_line, request_bytes,
}
use akamata.Http.HeaderEnd.{header_end}
use akamata.Http.Parts.{Parts, response_bytes, IsServed, set_fields, status_number}
use akamata.Http.Receiving.{parse_http_response-served}
use akamata.Http.Framing.{unowned, AllUnowned, IsSendable, sent_lines, host_line, length_line}
use akamata.Http.Sending.{request_bytes-framed, request_bytes-unframed}

-- a platform that takes every header, and every status with every body
abbrev web : Web
web = record { valid_header = λ k v. true; constructible = λ s b. true }

abbrev served : Parts
served = record {
  hundreds = 2;
  tens = 0;
  ones = 1;
  reason = text "Created" ∷ [];
  fields = (text "x-a", text "b") ∷ [];
  body = 1 ∷ 2 ∷ [];
}

served-IsServed : IsServed served
unfolding trim trim_start is_space
served-IsServed = record {
  first = (omega arith, omega arith);
  digits = (omega arith, omega arith);
  words = ground arith;
  clean = ((ground arith, ground arith, ground arith, refl, refl), tt);
}

parse_http_response-served_example :
    parse_http_response web (response_bytes served)
    ≡ Option.bind
        (set_fields web served.fields [])
        (λ hs. construct web (status_number served) hs served.body)
parse_http_response-served_example = parse_http_response-served web served served-IsServed

abbrev get_home : Fields → Request
get_home headers = record {
  method = text "GET";
  pathname = text "/";
  search = [];
  host = text "a.b";
  headers = headers;
  body = 7 ∷ [];
}

abbrev fields : Fields
fields = (text "Host", text "x") ∷ (text "accept", text "y") ∷ []

fields-IsSendable : IsSendable (get_home fields)
unfolding unowned is_owned same to_lower
fields-IsSendable = record { first = ground arith; host = ground arith; fields = ground arith }

unowned-fields : unowned fields ≢ []
unfolding unowned is_owned same to_lower
unowned-fields e = ground arith

request_bytes-framed_example :
    (request_bytes (get_home fields)
      ≡ join crlf (sent_lines (get_home fields)) ++ header_end (7 ∷ []))
    × AllUnowned (unowned fields)
    × (split crlf (join crlf (sent_lines (get_home fields))) ≡ sent_lines (get_home fields))
    × (find_header_end (request_bytes (get_home fields))
        ≡ some (length (join crlf (sent_lines (get_home fields)))))
request_bytes-framed_example =
    request_bytes-framed (get_home fields) fields-IsSendable unowned-fields

bare-IsSendable : IsSendable (get_home [])
unfolding unowned
bare-IsSendable = record { first = ground arith; host = ground arith; fields = tt }

no_fields : unowned [] ≡ []
unfolding unowned
no_fields = refl

request_bytes-unframed_example :
    (find_header_end (request_bytes (get_home []))
      ≡ some (length (join crlf (request_line (get_home []) ∷ host_line (get_home []) ∷ []))))
    × (drop
          (length (join crlf (request_line (get_home []) ∷ host_line (get_home []) ∷ [])) + 4)
          (request_bytes (get_home []))
        ≡ length_line (get_home []) ++ (crlf ++ (crlf ++ 7 ∷ [])))
request_bytes-unframed_example = request_bytes-unframed (get_home []) bare-IsSendable no_fields
