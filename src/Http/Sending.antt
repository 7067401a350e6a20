-- ===== src/Http/Sending.antt =====
-- The request text that `dispatchWasmUnlocked` of deploy/worker/index.mjs hands to the instance.
use akamata.Prelude.{
  ◌+◌, ◌≡◌, ◌≢◌, sym, ap, ◌∙◌, some, [], ◌∷◌, ◌++◌, arith, length, drop, append_assoc,
}
use akamata.Text.{Text, join, split}
use akamata.Text.Utf8.{encode}
use akamata.Text.Laws.{IsAscii, IsAscii-append, encode_ascii}
use akamata.Text.Search.{split-join, drop-two}
use akamata.Http.{crlf, find_header_end, Request, request_line, request_head, request_bytes}
use akamata.Http.HeaderEnd.{header_end, find_header_end-lines}
use akamata.Http.Parts.{field_lines}
use akamata.Http.Lines.{AllLines-IsAscii}
use akamata.Http.Framing.{
  sent-IsAscii, sent-avoid, sent-nonempty, unowned, AllUnowned, unowned-AllUnowned, host_line,
  length_line, IsSendable, length_line-IsLine, host_line-IsLine, sent_lines, head_with,
  request_head-eq, head_lines,
}

bytes_framed :
    (r : Request)
    → IsSendable r
    → unowned r.headers ≢ []
    → request_bytes r ≡ join crlf (sent_lines r) ++ header_end r.body
unfolding request_bytes
bytes_framed r s ne =
    let block = join crlf (sent_lines r) in
    let head : request_head r ≡ block ++ header_end [] =
      request_head-eq r ∙ head_lines r (unowned r.headers) ne in
    ap (λ (t : Text). encode t ++ r.body) head
    ∙ ap (λ (t : Text). t ++ r.body)
        (encode_ascii (block ++ header_end [])
          (IsAscii-append block _ (sent-IsAscii r s) (omega arith)))
    ∙ append_assoc block (header_end []) r.body

-- Let the lines of the request be ASCII without CR. If at least one field is forwarded, the bytes
-- are the lines: the request line, one `host`, the forwarded fields in their order, one `content-
-- length` with the length of the body; then an empty line and the body. No forwarded field is
-- called `host` or `content-length` in any case, and the first header end in the bytes is the one
-- just before the body.
pub request_bytes-framed :
    (r : Request)
    → IsSendable r
    → unowned r.headers ≢ []
    → (request_bytes r ≡ join crlf (sent_lines r) ++ header_end r.body)
      × AllUnowned (unowned r.headers)
      × (split crlf (join crlf (sent_lines r)) ≡ sent_lines r)
      × (find_header_end (request_bytes r) ≡ some (length (join crlf (sent_lines r))))
request_bytes-framed r s ne = (
  bytes_framed r s ne,
  unowned-AllUnowned r.headers,
  split-join 13 (10 ∷ []) _ _ (sent-avoid r s),
  ap find_header_end (bytes_framed r s ne)
      ∙ find_header_end-lines _ _ r.body (sent-avoid r s) (sent-nonempty r s),
)

abbrev first_lines : Request → Text
first_lines r = join crlf (request_line r ∷ host_line r ∷ [])

unframed_head :
    (r : Request)
    → unowned r.headers ≡ []
    → request_head r ≡ first_lines r ++ header_end (length_line r ++ (crlf ++ crlf))
unfolding join
unframed_head r e =
    request_head-eq r
    ∙ ap (λ hs. head_with r (join crlf (field_lines hs))) e
    ∙ sym (append_assoc (request_line r) (crlf ++ host_line r) _)

first-IsAscii : (r : Request) → IsSendable r → IsAscii (first_lines r)
first-IsAscii r s = AllLines-IsAscii _ _ s.first (host_line-IsLine r s, tt)

bytes_unframed :
    (r : Request)
    → IsSendable r
    → unowned r.headers ≡ []
    → request_bytes r ≡ first_lines r ++ header_end (length_line r ++ (crlf ++ (crlf ++ r.body)))
unfolding request_bytes
bytes_unframed r s e =
    let rest = length_line r ++ (crlf ++ crlf) in
    ap (λ (t : Text). encode t ++ r.body) (unframed_head r e)
    ∙ ap (λ (t : Text). t ++ r.body)
        (encode_ascii (first_lines r ++ header_end rest) (
          IsAscii-append (first_lines r) _ (first-IsAscii r s) (
            omega arith,
            (
              omega arith,
              (
                omega arith,
                (
                  omega arith,
                  IsAscii-append (length_line r) _ (length_line-IsLine r).1 (omega arith),
                ),
              ),
            ),
          )))
    ∙ append_assoc (first_lines r) (header_end rest) r.body
    ∙ ap (λ (t : Text). first_lines r ++ header_end t)
        (append_assoc (length_line r) (crlf ++ crlf) r.body)

-- Let the lines of the request be ASCII without CR. If no field is forwarded, the first header end
-- in the bytes is that behind the `host` line, and what follows it is the `content-length` line,
-- an empty line and the body.
pub request_bytes-unframed :
    (r : Request)
    → IsSendable r
    → unowned r.headers ≡ []
    → (find_header_end (request_bytes r)
        ≡ some (length (join crlf (request_line r ∷ host_line r ∷ []))))
      × (drop (length (join crlf (request_line r ∷ host_line r ∷ [])) + 4) (request_bytes r)
          ≡ length_line r ++ (crlf ++ (crlf ++ r.body)))
request_bytes-unframed r s e =
    let rest = length_line r ++ (crlf ++ (crlf ++ r.body)) in
    (
      ap find_header_end (bytes_unframed r s e)
          ∙ find_header_end-lines _ _ rest (s.first.0, ((host_line-IsLine r s).0, tt)) tt,
      ap (drop (length (first_lines r) + 4)) (bytes_unframed r s e)
          ∙ drop-two (first_lines r) (header_end []) rest,
    )
