-- ===== src/Outbound/Framed.antt =====
-- The status and the framing that `parseResponse` (src/http_client.zig) finds in an answer of `akamata_fetch`
-- (deploy/worker/index.mjs).
use mathlib.Core.Option
use akamata.Prelude.{
  ℕ, suc, ◌+◌, ◌<◌, ◌≡◌, refl, ap, ap₂, ◌∙◌, Bool, false, none, some, List, [], ◌∷◌, ◌++◌, arith,
  length, take, drop, take-length_append, get_elem?, Bool-cases, inl, inr,
}
use akamata.Text.{Text, text, same, split, to_lower, lower_unit}
use akamata.Text.Laws.{IsAscii}
use akamata.Text.Search.{Avoids, index_of-append, split_rounds-cons, drop-two}
use akamata.Http.{Fields, field_line}
use akamata.Http.Decimal.{decimal, AllDigits, decimal-AllDigits}
use akamata.Http.Parts.{field_lines}
use akamata.Outbound.{Upstream, reply_bytes}
use akamata.Outbound.Client.{
  ascii_lower, eql_ignore_case, trim_left, trim_blanks, Framing, see_field, see_line, see_lines,
  consistent, client_status, parse_int_below, response_head,
}
use akamata.Outbound.Numerals.{parse_int_below-decimal, trim_blanks-digits}
use akamata.Outbound.Replies.{
  passed, passed-transfer, passed-other, first_line, length_of, AllTokens, IsReply,
  response_head-lines,
}

abbrev pub unframed : Framing
unframed = record { chunked = false; content_length = none }

pub see_line-field :
    (k v : Text) (f : Framing)
    → Avoids 58 k
    → trim_blanks k ≡ k
    → see_line (field_line k v) f ≡ see_field k (trim_blanks (32 ∷ v)) f
unfolding see_line
see_line-field k v f a t =
    ap
      (λ o. elim o [
        | none ↦ some f
        | some colon ↦
            see_field (trim_blanks (take colon (field_line k v)))
              (trim_blanks (drop (colon + 1) (field_line k v))) f
      ])
      (index_of-append 58 [] k (32 ∷ v) a)
    ∙ ap₂ (λ name value. see_field name value f)
        (ap trim_blanks (take-length_append k (58 ∷ 32 ∷ v)) ∙ t)
        (ap trim_blanks (drop-two k (58 ∷ []) (32 ∷ v)))

-- A text in lower case.
abbrev AllLower : Text → Type 0
AllLower [] = Unit
AllLower (c ∷ s) = (ascii_lower c ≡ c) × AllLower s

-- On ASCII, both sides of the bridge compare names alike.
pub eql_ignore_case-same :
    (k t : Text) → IsAscii k → AllLower t → eql_ignore_case k t ≡ same (to_lower k) t
unfolding eql_ignore_case same to_lower lower_unit ascii_lower
eql_ignore_case-same [] [] a l = refl
eql_ignore_case-same [] (d ∷ t) a l = refl
eql_ignore_case-same (c ∷ k) [] a l = refl
eql_ignore_case-same (c ∷ k) (d ∷ t) a l = ground (arith, eql_ignore_case-same k t a.1 l.1)

abbrev pub is_length : Text → Bool
is_length k = eql_ignore_case k (text "content-length")

transfer-AllLower : AllLower (text "transfer-encoding")
unfolding ascii_lower
transfer-AllLower = omega arith

pub not_transfer :
    (k : Text)
    → IsAscii k
    → same (to_lower k) (text "transfer-encoding") ≡ false
    → eql_ignore_case k (text "transfer-encoding") ≡ false
not_transfer k a e = eql_ignore_case-same k (text "transfer-encoding") a (transfer-AllLower) ∙ e

see_field-other :
    (k value : Text) (f : Framing)
    → eql_ignore_case k (text "transfer-encoding") ≡ false
    → is_length k ≡ false
    → see_field k value f ≡ some f
unfolding see_field
see_field-other k value f t l = rw (t, l) refl

-- No header is called `content-length`.
abbrev pub LacksLength : Fields → Type 0
LacksLength [] = Unit
LacksLength ((k, v) ∷ hs) = (eql_ignore_case k (text "content-length") ≡ false) × LacksLength hs

-- The fields in front of the length do not touch the framing.
see_lines-passed :
    (hs : Fields) (ls : List Text) (f : Framing)
    → AllTokens hs
    → LacksLength hs
    → see_lines (field_lines (passed hs) ++ ls) f ≡ see_lines ls f
unfolding see_lines passed Option.bind
see_lines-passed [] ls f h n = refl
see_lines-passed ((k, v) ∷ hs) ls f h n =
    elim (Bool-cases (same (to_lower k) (text "transfer-encoding"))) [
      | inl e ↦
          ap (λ fs. see_lines (field_lines fs ++ ls) f) (passed-transfer k v hs e)
          ∙ see_lines-passed hs ls f h.1 n.1
      | inr e ↦
          ap (λ fs. see_lines (field_lines fs ++ ls) f) (passed-other k v hs e)
          ∙ ap (λ o. Option.bind o (see_lines (field_lines (passed hs) ++ ls)))
              (see_line-field k v f h.0.0 h.0.3
                ∙ see_field-other k (trim_blanks (32 ∷ v)) f (not_transfer k h.0.1.1 e) n.0)
          ∙ see_lines-passed hs ls f h.1 n.1
    ]

abbrev framed : Upstream → Framing
framed u = record { chunked = false; content_length = some (length u.body) }

pub see_length :
    (u : Upstream) (f : Framing)
    → see_line (length_of u) f ≡ see_field (text "content-length") (decimal (length u.body)) f
unfolding trim_blanks trim_left
see_length u f =
    see_line-field (text "content-length") (decimal (length u.body)) f (omega arith) refl
    ∙ ap (λ value. see_field (text "content-length") value f)
        (trim_blanks-digits (decimal (length u.body)) (decimal-AllDigits (length u.body)))

see_length_first :
    (u : Upstream) → length u.body < 0x100000000 → see_line (length_of u) unframed ≡ some (framed u)
unfolding see_field eql_ignore_case ascii_lower
see_length_first u lt =
    see_length u unframed ∙ rw (parse_int_below-decimal 0x100000000 (length u.body) lt) refl

digits_avoid : (s : Text) → AllDigits s → Avoids 32 s
digits_avoid [] h = tt
digits_avoid (c ∷ s) h = (omega (arith, h.0), digits_avoid s h.2)

second_word :
    (d t : Text)
    → Avoids 32 d
    → get_elem? (split (text " ") (text "HTTP/1.1 " ++ (d ++ (text " " ++ t)))) 1 ≡ some d
unfolding split
second_word d t a =
    let n : ℕ = suc (suc (suc (suc (suc (suc (suc (length (d ++ (text " " ++ t))))))))) in
    ap (λ (ws : List Text). get_elem? ws 1)
      (split_rounds-cons 32 [] (suc n) (text "HTTP/1.1") (d ++ (text " " ++ t)) (omega arith)
        ∙ ap (λ (ws : List Text). text "HTTP/1.1" ∷ ws) (split_rounds-cons 32 [] n d t a))

pub client_status-reply :
    (u : Upstream) → u.status < 65536 → client_status (first_line u) ≡ some u.status
unfolding client_status Option.bind split
client_status-reply u lt =
    ap (λ o. Option.bind o (parse_int_below 65536))
      (second_word (decimal u.status) u.status_text
        (digits_avoid (decimal u.status) (decimal-AllDigits u.status)))
    ∙ parse_int_below-decimal 65536 u.status lt

-- Let the status be below 65536, the body shorter than 2 ^ 32 bytes, the header names free of colons and of blanks around
-- them, and status text, names and values ASCII without CR; and let no header of the upstream's be called
-- content-length. Then `parseResponse` finds in the bytes that `akamata_fetch` writes: the status, the length of the
-- body as the content-length, no chunked encoding (not even if the upstream's was), and behind the head the body byte for byte.
pub response_head-reply :
    (u : Upstream)
    → IsReply u
    → LacksLength u.headers
    → response_head (reply_bytes u)
      ≡ some (record {
        status = u.status;
        framing = record { chunked = false; content_length = some (length u.body) };
        rest = u.body;
      })
unfolding see_lines consistent Option.bind
response_head-reply u w n =
    response_head-lines u w
    ∙ ap₂
        (λ st fr. Option.bind st λ status.
          Option.map (λ f. record { status = status; framing = f; rest = u.body })
            (Option.bind fr consistent))
        (client_status-reply u w.status)
        (see_lines-passed u.headers (length_of u ∷ []) unframed w.fields n
          ∙ ap (λ o. Option.bind o some) (see_length_first u w.size))
