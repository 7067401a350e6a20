-- ===== src/Guestbook/Duplicates.antt =====
-- What the instance gets from the guestbook's worker (deploy/guestbook/worker/index.mjs) for a request with headers.
use akamata.Prelude.{
  ℕ, ◌+◌, ◌≤◌, ◌≡◌, ◌≢◌, ◌⊎◌, refl, ap, ◌∙◌, true, Option, none, some, List, [], ◌∷◌, ◌++◌, arith,
  length, inl, inr, take, append_assoc, if◌then◌else◌, take-length_append,
}
use akamata.Text.{Text, text, join, split, index_of}
use akamata.Text.Utf8.{encode}
use akamata.Text.Laws.{IsAscii-append, encode_ascii}
use akamata.Text.Search.{Avoids, AllAvoid, index_of-append, split-join}
use akamata.Http.{Fields, crlf, find_header_end, Request, field_line, request_line}
use akamata.Http.HeaderEnd.{header_end, find_header_end-lines}
use akamata.Http.Parts.{IsLine, field_lines}
use akamata.Http.Lines.{
  AllLines, AllLines-avoid, AllLines-IsAscii, IsLine-append, field_lines-AllNonempty,
}
use akamata.Http.Framing.{
  host_line, length_line, length_line-IsLine, AllLines-append, AllNonempty-append, head_with,
  head_lines,
}
use akamata.Outbound.Client.{eql_ignore_case, ascii_lower}
use akamata.Guestbook.{header_lines, guest_head}

header_lines-field_lines : (hs : Fields) → header_lines hs ≡ field_lines hs
unfolding header_lines
header_lines-field_lines [] = refl
header_lines-field_lines ((k, v) ∷ hs) =
    ap (λ ls. field_line k v ∷ ls) (header_lines-field_lines hs)

-- the lines of a head that set the field of the name, in any case
unfoldable pub count_named : Text → List Text → ℕ
count_named name [] = 0
count_named name (line ∷ lines) = elim (index_of (text ":") line) [
  | none ↦ count_named name lines
  | some i ↦ (if eql_ignore_case (take i line) name then 1 else 0) + count_named name lines
]

-- All lines are ASCII without CR, and the names have no colon.
abbrev pub AllNamed : Fields → Type 0
AllNamed [] = Unit
AllNamed ((k, v) ∷ hs) = Avoids 58 k × AllNamed hs

pub record IsPassable (r : Request) : Type 0 where
  pub first : IsLine (request_line r)
  pub host : IsLine r.host
  pub fields : AllLines (field_lines r.headers)
  pub names : AllNamed r.headers

abbrev pub guest_lines : Request → List Text
guest_lines r = request_line r ∷ host_line r ∷ (field_lines r.headers ++ length_line r ∷ [])

abbrev pub guest_bytes : Request → List ℕ
guest_bytes r = encode (guest_head r) ++ r.body

-- A header of the name, in any case
abbrev pub HasNamed : Text → Fields → Type 0
HasNamed name [] = ⊥
HasNamed name ((k, v) ∷ hs) = (eql_ignore_case k name ≡ true) ⊎ HasNamed name hs

abbrev count_at : Text → Text → List Text → Option ℕ → ℕ
count_at name line lines o = elim o [
  | none ↦ count_named name lines
  | some i ↦ (if eql_ignore_case (take i line) name then 1 else 0) + count_named name lines
]

count_field :
    (name k v : Text) (lines : List Text)
    → Avoids 58 k
    → count_named name (field_line k v ∷ lines)
      ≡ (if eql_ignore_case k name then 1 else 0) + count_named name lines
unfolding count_named
count_field name k v lines a =
    ap (count_at name (field_line k v) lines) (index_of-append 58 [] k (32 ∷ v) a)
    ∙ ap (λ t. (if eql_ignore_case t name then 1 else 0) + count_named name lines)
        (take-length_append k (58 ∷ 32 ∷ v))

count_at_more :
    (name line : Text) (lines : List Text) (o : Option ℕ)
    → count_named name lines ≤ count_at name line lines o
count_at_more name line lines none = omega arith
count_at_more name line lines (some i) = ground arith

count_more :
    (name line : Text) (lines : List Text)
    → count_named name lines ≤ count_named name (line ∷ lines)
unfolding count_named
count_more name line lines = count_at_more name line lines (index_of (text ":") line)

count_named-HasNamed :
    (name : Text) (hs : Fields) (lines : List Text)
    → AllNamed hs
    → HasNamed name hs
    → 1 ≤ count_named name (field_lines hs ++ lines)
count_named-HasNamed name [] lines a h = absurd h
count_named-HasNamed name ((k, v) ∷ hs) lines a (inl e) =
    let c = count_field name k v (field_lines hs ++ lines) a.0 in
    let d : count_named name (field_lines ((k, v) ∷ hs) ++ lines)
        ≡ 1 + count_named name (field_lines hs ++ lines) =
      c ∙ ap (λ b. (if b then 1 else 0) + count_named name (field_lines hs ++ lines)) e in
    omega (arith, d)
count_named-HasNamed name ((k, v) ∷ hs) lines a (inr h) = omega (
  arith,
  count_named-HasNamed name hs lines a.1 h,
  count_more name (field_line k v) (field_lines hs ++ lines),
)

two_hosts :
    (r : Request)
    → IsPassable r
    → HasNamed (text "host") r.headers
    → 2 ≤ count_named (text "host") (guest_lines r)
unfolding eql_ignore_case ascii_lower
two_hosts r p h =
    let rest = field_lines r.headers ++ length_line r ∷ [] in
    omega (
      arith,
      count_more (text "host") (request_line r) (host_line r ∷ rest),
      count_field (text "host") (text "host") r.host rest (omega arith),
      count_named-HasNamed (text "host") r.headers (length_line r ∷ []) p.names h,
    )

headers_nonempty : (name : Text) (hs : Fields) → HasNamed name hs → hs ≢ []
headers_nonempty name [] h e = absurd h
headers_nonempty name ((k, v) ∷ hs) h e = cc

module _ (r : Request) (p : IsPassable r) (name : Text) (h : HasNamed name r.headers) where
  guest_head-lines : guest_head r ≡ join crlf (guest_lines r) ++ header_end []
  unfolding guest_head
  guest_head-lines =
      ap (λ ls. head_with r (join crlf ls)) (header_lines-field_lines r.headers)
      ∙ head_lines r r.headers (headers_nonempty name r.headers h)

  host-IsLine : IsLine (host_line r)
  host-IsLine = IsLine-append (text "host: ") r.host (omega arith, omega arith) p.host

  rest-AllLines : AllLines (field_lines r.headers ++ length_line r ∷ [])
  rest-AllLines = AllLines-append _ _ p.fields (length_line-IsLine r, tt)

  guest-avoid : AllAvoid 13 (guest_lines r)
  guest-avoid = (p.first.0, (host-IsLine.0, AllLines-avoid _ rest-AllLines))

  guest_bytes-lines : guest_bytes r ≡ join crlf (guest_lines r) ++ header_end r.body
  guest_bytes-lines =
      let block = join crlf (guest_lines r) in
      ap (λ t. encode t ++ r.body) guest_head-lines
      ∙ ap (λ (t : Text). t ++ r.body)
          (encode_ascii (block ++ header_end []) (
            IsAscii-append block _ (AllLines-IsAscii _ _ p.first (host-IsLine, rest-AllLines))
              (omega arith)))
      ∙ append_assoc block (header_end []) r.body

-- Let the lines of the request be ASCII without CR and its header names without colons, and let one of its headers be called `host`, in any case, as the
-- platform gives it. Then the head that the guestbook's worker hands to the instance, up to the first header end, is the request
-- line, the worker's own `host` line, all the headers in their order and the `content-length` line; and at
-- least two of its lines set `host`.
pub guest_bytes-duplicate :
    (r : Request)
    → IsPassable r
    → HasNamed (text "host") r.headers
    → (find_header_end (guest_bytes r) ≡ some (length (join crlf (guest_lines r))))
      × (split crlf (take (length (join crlf (guest_lines r))) (guest_bytes r)) ≡ guest_lines r)
      × (2 ≤ count_named (text "host") (guest_lines r))
guest_bytes-duplicate r p h =
    let block = join crlf (guest_lines r) in
    let avoid = guest-avoid r p (text "host") h in
    let eq = guest_bytes-lines r p (text "host") h in
    (
      ap find_header_end eq
          ∙ find_header_end-lines _ _ r.body avoid
              (AllNonempty-append (field_lines r.headers) _ (field_lines-AllNonempty r.headers) tt),
      ap (λ bs. split crlf (take (length block) bs)) eq
          ∙ ap (split crlf) (take-length_append block (header_end r.body))
          ∙ split-join 13 (10 ∷ []) _ _ avoid,
      two_hosts r p h,
    )
