-- ===== src/Outbound/Replies.antt =====
-- The answer that `akamata_fetch` (deploy/worker/index.mjs) hands to the instance, as `parseResponse`
-- (src/http_client.zig) reads it.
use mathlib.Core.Option
use akamata.Prelude.{
  ℕ, ◌+◌, ◌<◌, ◌≡◌, refl, sym, ap, ap₂, ◌∙◌, true, false, some, List, [], ◌∷◌, ◌++◌, arith, length,
  take, drop, append_assoc, take-length_append,
}
use akamata.Text.{Text, text, same, join, split, to_lower}
use akamata.Text.Utf8.{encode}
use akamata.Text.Laws.{IsAscii-append, encode_ascii}
use akamata.Text.Search.{Avoids, AllAvoid, split-join, drop-two}
use akamata.Http.{Fields, crlf, field_line, find_header_end}
use akamata.Http.Decimal.{decimal, decimal-AllDigits}
use akamata.Http.HeaderEnd.{header_end, find_header_end-lines}
use akamata.Http.Parts.{IsLine, field_lines}
use akamata.Http.Lines.{
  AllLines, AllLines-avoid, AllLines-IsAscii, IsLine-append, field_lines-AllNonempty,
}
use akamata.Http.Framing.{digits-IsLine, AllLines-append, AllNonempty-append}
use akamata.Outbound.{Upstream, reply_fields, reply_head, reply_bytes}
use akamata.Outbound.Client.{trim_blanks, head_of, response_head}

-- The fields that are passed on.
unfoldable pub passed : Fields → Fields
unfolding to_lower
passed [] = []
passed ((k, v) ∷ hs) = elim (same (to_lower k) (text "transfer-encoding")) [
  | true ↦ passed hs
  | false ↦ (k, v) ∷ passed hs
]

pub passed-transfer :
    (k v : Text) (hs : Fields)
    → same (to_lower k) (text "transfer-encoding") ≡ true
    → passed ((k, v) ∷ hs) ≡ passed hs
unfolding passed
passed-transfer k v hs e = ground arith

pub passed-other :
    (k v : Text) (hs : Fields)
    → same (to_lower k) (text "transfer-encoding") ≡ false
    → passed ((k, v) ∷ hs) ≡ (k, v) ∷ passed hs
unfolding passed
passed-other k v hs e = ground arith

abbrev pub first_line : Upstream → Text
first_line u = text "HTTP/1.1 " ++ (decimal u.status ++ (text " " ++ u.status_text))

abbrev pub length_of : Upstream → Text
length_of u = field_line (text "content-length") (decimal (length u.body))

abbrev pub reply_lines : Upstream → List Text
reply_lines u = first_line u ∷ (field_lines (passed u.headers) ++ length_of u ∷ [])

-- each line with its CR LF
abbrev ended : List Text → Text
ended [] = []
ended (l ∷ ls) = l ++ (crlf ++ ended ls)

reply_fields-ended : (hs : Fields) → reply_fields hs ≡ ended (field_lines (passed hs))
unfolding reply_fields passed
reply_fields-ended [] = refl
reply_fields-ended ((k, v) ∷ hs) = ground (arith, reply_fields-ended hs)

ended-join :
    (t l : Text) (ls : List Text)
    → t ++ (crlf ++ (ended ls ++ (l ++ (crlf ++ crlf))))
      ≡ join crlf (t ∷ (ls ++ l ∷ [])) ++ header_end []
unfolding join
ended-join t l [] = sym (append_assoc t (crlf ++ l) (header_end []))
ended-join t l (c ∷ ls) =
    let rest = join crlf (c ∷ (ls ++ l ∷ [])) in
    ap (λ r. t ++ (crlf ++ r))
      (append_assoc c (crlf ++ ended ls) (l ++ (crlf ++ crlf)) ∙ ended-join c l ls)
    ∙ sym (append_assoc t (crlf ++ rest) (header_end []))

reply_head-lines : (u : Upstream) → reply_head u ≡ join crlf (reply_lines u) ++ header_end []
unfolding reply_head
reply_head-lines u =
    ap (λ r. first_line u ++ (crlf ++ (r ++ (length_of u ++ (crlf ++ crlf)))))
      (reply_fields-ended u.headers)
    ∙ ended-join (first_line u) (length_of u) (field_lines (passed u.headers))

-- Names without a colon or blanks around them; names and values are ASCII without CR.
abbrev pub AllTokens : Fields → Type 0
AllTokens [] = Unit
AllTokens ((k, v) ∷ fs) = (Avoids 58 k × IsLine k × IsLine v × (trim_blanks k ≡ k)) × AllTokens fs

pub record IsReply (u : Upstream) : Type 0 where
  pub status : u.status < 65536
  pub status_text : IsLine u.status_text
  pub fields : AllTokens u.headers
  pub size : length u.body < 0x100000000

passed-AllTokens : (hs : Fields) → AllTokens hs → AllTokens (passed hs)
unfolding passed
passed-AllTokens [] h = tt
passed-AllTokens ((k, v) ∷ hs) h =
    elim (same (to_lower k) (text "transfer-encoding"))
      as (λ b. AllTokens (elim b [ true ↦ passed hs | false ↦ (k, v) ∷ passed hs ])) [
        | true ↦ passed-AllTokens hs h.1
        | false ↦ (h.0, passed-AllTokens hs h.1)
      ]

AllTokens-lines : (fs : Fields) → AllTokens fs → AllLines (field_lines fs)
AllTokens-lines [] h = tt
AllTokens-lines ((k, v) ∷ fs) h = (
  IsLine-append k _ h.0.1 (IsLine-append (text ": ") v (omega arith, omega arith) h.0.2),
  AllTokens-lines fs h.1,
)

decimal-IsLine : (n : ℕ) → IsLine (decimal n)
decimal-IsLine n = digits-IsLine (decimal n) (decimal-AllDigits n)

module _ (u : Upstream) (w : IsReply u) where
  first-IsLine : IsLine (first_line u)
  first-IsLine =
      IsLine-append (text "HTTP/1.1 ") _ (omega arith, omega arith)
        (IsLine-append (decimal u.status) _ (decimal-IsLine u.status)
          (IsLine-append (text " ") u.status_text (omega arith, omega arith) w.status_text))

  length-IsLine : IsLine (length_of u)
  length-IsLine =
      IsLine-append (text "content-length: ") _ (omega arith, omega arith)
        (decimal-IsLine (length u.body))

  rest-AllLines : AllLines (field_lines (passed u.headers) ++ length_of u ∷ [])
  rest-AllLines =
      AllLines-append _ _ (AllTokens-lines (passed u.headers) (passed-AllTokens u.headers w.fields))
        (length-IsLine, tt)

  reply-avoid : AllAvoid 13 (reply_lines u)
  reply-avoid = (first-IsLine.0, AllLines-avoid _ rest-AllLines)

  reply_bytes-lines : reply_bytes u ≡ join crlf (reply_lines u) ++ header_end u.body
  unfolding reply_bytes
  reply_bytes-lines =
      let block = join crlf (reply_lines u) in
      ap (λ t. encode t ++ u.body) (reply_head-lines u)
      ∙ ap (λ (t : Text). t ++ u.body)
          (encode_ascii (block ++ header_end []) (
            IsAscii-append block _ (AllLines-IsAscii _ _ first-IsLine rest-AllLines) (omega arith)))
      ∙ append_assoc block (header_end []) u.body

  pub reply-found : find_header_end (reply_bytes u) ≡ some (length (join crlf (reply_lines u)))
  reply-found =
      ap find_header_end reply_bytes-lines
      ∙ find_header_end-lines _ _ u.body reply-avoid (
          AllNonempty-append (field_lines (passed u.headers)) _
            (field_lines-AllNonempty (passed u.headers)) tt)

  pub response_head-lines : response_head (reply_bytes u) ≡ head_of (reply_lines u) u.body
  unfolding response_head Option.bind
  response_head-lines =
      let block = join crlf (reply_lines u) in
      ap
        (λ o.
          Option.bind o
            λ sep. head_of (split crlf (take sep (reply_bytes u))) (drop (sep + 4) (reply_bytes u)))
        reply-found
      ∙ ap (λ bs. head_of (split crlf (take (length block) bs)) (drop (length block + 4) bs))
          reply_bytes-lines
      ∙ ap₂ head_of
          (ap (split crlf) (take-length_append block (header_end u.body))
            ∙ split-join 13 (10 ∷ []) _ _ reply-avoid)
          (drop-two block (header_end []) u.body)
