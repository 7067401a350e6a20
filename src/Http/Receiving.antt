-- ===== src/Http/Receiving.antt =====
-- `parseHttpResponse` of deploy/worker/index.mjs on what an HTTP/1.1 serialiser writes.
use mathlib.Core.Option
use akamata.Prelude.{
  ℕ, ◌+◌, ◌≡◌, ap, ap₂, ◌∙◌, Option, none, some, List, [], ◌∷◌, arith, length, take, drop,
  take-length_append,
}
use akamata.Prelude.Numbers.{pos}
use akamata.Text.Utf8.{decode}
use akamata.Text.{Text, text, join, split}
use akamata.Text.Laws.{decode_ascii}
use akamata.Text.Search.{AllAvoid, split-join, drop-two}
use akamata.Http.{
  Fields, Answer, plain, Web, crlf, valid_status, construct, answer_lines, parse_http_response,
}
use akamata.Http.HeaderEnd.{header_end, find_header_end-lines}
use akamata.Http.Parts.{
  Parts, status_number, status_line, field_lines, response_lines, response_bytes, IsServed,
  set_fields,
}
use akamata.Http.Lines.{
  set_lines-fields, status_line-IsLine, status_of-line, AllLines-avoid, AllLines-IsAscii,
  field_lines-AllLines, field_lines-AllNonempty,
}

module _ (web : Web) (x : Parts) (w : IsServed x) where
  abbrev head : Text
  head = join crlf (response_lines x)

  lines : AllAvoid 13 (response_lines x)
  lines = (
    (status_line-IsLine x w).0,
    AllLines-avoid (field_lines x.fields) (field_lines-AllLines x.fields w.clean),
  )

  status-valid : valid_status (some (pos (status_number x))) ≡ some (status_number x)
  unfolding valid_status
  status-valid = ground (arith, w.first, w.digits)

  abbrev chosen : List ℕ → Fields → Option ℕ → Option Answer
  chosen body hs o = elim o [
    | none ↦ some (plain 502 (text "invalid wasm response status"))
    | some status ↦ construct web status hs body
  ]

  answer_lines-served :
      answer_lines web (response_lines x) x.body
      ≡ Option.bind (set_fields web x.fields []) (λ hs. construct web (status_number x) hs x.body)
  unfolding answer_lines Option.bind
  answer_lines-served =
      ap₂ (λ o st. Option.bind o (λ hs. chosen x.body hs st))
        (set_lines-fields web x.fields [] w.clean)
        (ap valid_status (status_of-line x w) ∙ status-valid)

  abbrev cut : Option ℕ → Option Answer
  cut o = elim o [
    | none ↦ some (plain 502 (text "invalid wasm response"))
    | some sep ↦
        answer_lines web (split crlf (decode (take sep (response_bytes x))))
          (drop (sep + 4) (response_bytes x))
  ]

  parse-cut : parse_http_response web (response_bytes x) ≡ cut (some (length head))
  unfolding parse_http_response response_bytes
  parse-cut = ap cut (
      find_header_end-lines (status_line x) (field_lines x.fields) x.body lines
        (field_lines-AllNonempty x.fields))

  head-lines : split crlf (decode (take (length head) (response_bytes x))) ≡ response_lines x
  unfolding response_bytes
  head-lines =
      ap (λ (s : Text). split crlf (decode s)) (take-length_append head (header_end x.body))
      ∙ ap (split crlf) (
          decode_ascii head (
            AllLines-IsAscii (status_line x) (field_lines x.fields) (status_line-IsLine x w)
              (field_lines-AllLines x.fields w.clean)))
      ∙ split-join 13 (10 ∷ []) (status_line x) (field_lines x.fields) lines

  body-rest : drop (length head + 4) (response_bytes x) ≡ x.body
  unfolding response_bytes
  body-rest = drop-two head (header_end []) x.body

-- Let the status be a number of three digits from 200 to 599, and let the words of the reason and
-- the fields be ASCII without CR, the words without spaces, and the fields with names without a
-- colon and no white space around names and values. Then the bytes of the response come out of
-- `parseHttpResponse` with that status, with the fields put into `Headers` in their order, and
-- with the body byte for byte; and if the platform throws at one of the fields, or at the status
-- with this body, so does the call.
pub parse_http_response-served :
    (web : Web) (x : Parts)
    → IsServed x
    → parse_http_response web (response_bytes x)
      ≡ Option.bind (set_fields web x.fields []) (λ hs. construct web (status_number x) hs x.body)
parse_http_response-served web x w =
    parse-cut web x w
    ∙ ap₂ (answer_lines web) (head-lines web x w) (body-rest web x w)
    ∙ answer_lines-served web x w
