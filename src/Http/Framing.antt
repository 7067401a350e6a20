-- ===== src/Http/Framing.antt =====
-- The lines of the request text that `dispatchWasmUnlocked` of deploy/worker/index.mjs hands to the instance.
use akamata.Prelude.{
  ◌≡◌, ◌≢◌, refl, sym, ap, ◌∙◌, List, [], ◌∷◌, ◌++◌, arith, length, true, append_assoc, false, Bool,
}
use akamata.Text.{Text, text, join, same, to_lower}
use akamata.Text.Laws.{IsAscii, same-false}
use akamata.Text.Search.{AllAvoid}
use akamata.Http.{
  Fields, crlf, Request, is_owned, field_line, forwarded, request_line, request_head,
}
use akamata.Http.Decimal.{decimal, AllDigits, decimal-AllDigits}
use akamata.Http.HeaderEnd.{header_end, AllNonempty}
use akamata.Http.Parts.{field_lines, IsLine}
use akamata.Http.Lines.{
  AllLines, AllLines-avoid, AllLines-IsAscii, IsLine-append, field_lines-AllNonempty,
}

abbrev keep : Bool → Bool → Text → Text → Fields → Fields
keep true b k v rest = rest
keep false true k v rest = rest
keep false false k v rest = (k, v) ∷ rest

-- The fields that are called neither `host` nor `content-length`, in any case.
unfoldable pub unowned : Fields → Fields
unfolding same to_lower
unowned [] = []
unowned ((k, v) ∷ hs) =
    keep (same (to_lower k) (text "host")) (same (to_lower k) (text "content-length")) k v
      (unowned hs)

abbrev pub AllUnowned : Fields → Type 0
AllUnowned [] = Unit
AllUnowned ((k, v) ∷ hs) =
    (to_lower k ≢ text "host") × (to_lower k ≢ text "content-length") × AllUnowned hs

kept :
    (a b : Bool) (k v : Text) (rest : Fields)
    → same (to_lower k) (text "host") ≡ a
    → same (to_lower k) (text "content-length") ≡ b
    → AllUnowned rest
    → AllUnowned (keep a b k v rest)
kept true b k v rest e f h = h
kept false true k v rest e f h = h
kept false false k v rest e f h =
    (same-false (to_lower k) (text "host") e, same-false (to_lower k) (text "content-length") f, h)

pub unowned-AllUnowned : (hs : Fields) → AllUnowned (unowned hs)
unfolding unowned
unowned-AllUnowned [] = tt
unowned-AllUnowned ((k, v) ∷ hs) = kept _ _ k v (unowned hs) refl refl (unowned-AllUnowned hs)

pub forwarded-unowned : (hs : Fields) → forwarded hs ≡ field_lines (unowned hs)
unfolding forwarded unowned is_owned
forwarded-unowned [] = refl
forwarded-unowned ((k, v) ∷ hs) = ground (arith, forwarded-unowned hs)

abbrev pub host_line : Request → Text
host_line r = field_line (text "host") r.host

abbrev pub length_line : Request → Text
length_line r = field_line (text "content-length") (decimal (length r.body))

-- Every line of the request is ASCII without CR.
pub record IsSendable (r : Request) : Type 0 where
  pub first : IsLine (request_line r)
  pub host : IsLine r.host
  pub fields : AllLines (field_lines (unowned r.headers))

pub digits-IsLine : (s : Text) → AllDigits s → IsLine s
digits-IsLine [] h = (tt, tt)
digits-IsLine (c ∷ s) h =
    let (a, b) = digits-IsLine s h.2 in ((omega (arith, h.0, h.1), a), (omega (arith, h.0, h.1), b))

pub length_line-IsLine : (r : Request) → IsLine (length_line r)
length_line-IsLine r =
    IsLine-append (text "content-length: ") (decimal (length r.body)) (omega arith, omega arith)
      (digits-IsLine (decimal (length r.body)) (decimal-AllDigits (length r.body)))

pub host_line-IsLine : (r : Request) → IsSendable r → IsLine (host_line r)
host_line-IsLine r s = IsLine-append (text "host: ") r.host (omega arith, omega arith) s.host

pub AllLines-append : (ts us : List Text) → AllLines ts → AllLines us → AllLines (ts ++ us)
AllLines-append [] us a b = b
AllLines-append (t ∷ ts) us a b = (a.0, AllLines-append ts us a.1 b)

pub AllNonempty-append :
    (ts us : List Text) → AllNonempty ts → AllNonempty us → AllNonempty (ts ++ us)
AllNonempty-append [] us a b = b
AllNonempty-append ([] ∷ ts) us a b = absurd a
AllNonempty-append ((x ∷ s) ∷ ts) us a b = AllNonempty-append ts us a b

-- the last line behind a joined block, with what follows it
pub join-append :
    (p t : Text) (ts : List Text) (c e : Text)
    → join p (t ∷ ts ++ c ∷ []) ++ e ≡ join p (t ∷ ts) ++ (p ++ (c ++ e))
unfolding join
join-append p t [] c e = append_assoc t (p ++ c) e ∙ ap (λ r. t ++ r) (append_assoc p c e)
join-append p t (u ∷ us) c e =
    let whole = join p ((u ∷ us) ++ c ∷ []) in
    let start = join p (u ∷ us) in
    append_assoc t (p ++ whole) e
    ∙ ap (λ r. t ++ r) (append_assoc p whole e ∙ ap (λ r. p ++ r) (join-append p u us c e))
    ∙ sym (
        append_assoc t (p ++ start) (p ++ (c ++ e))
        ∙ ap (λ r. t ++ r) (append_assoc p start (p ++ (c ++ e))))

-- The lines that the instance is meant to read.
abbrev pub sent_lines : Request → List Text
sent_lines r =
    request_line r ∷ host_line r ∷ (field_lines (unowned r.headers) ++ length_line r ∷ [])

module _ (r : Request) (s : IsSendable r) where
  sent-AllLines : AllLines (field_lines (unowned r.headers) ++ length_line r ∷ [])
  sent-AllLines = AllLines-append _ _ s.fields (length_line-IsLine r, tt)

  pub sent-avoid : AllAvoid 13 (sent_lines r)
  sent-avoid = (s.first.0, ((host_line-IsLine r s).0, AllLines-avoid _ sent-AllLines))

  pub sent-IsAscii : IsAscii (join crlf (sent_lines r))
  sent-IsAscii = AllLines-IsAscii _ _ s.first (host_line-IsLine r s, sent-AllLines)

  pub sent-nonempty :
      AllNonempty (host_line r ∷ (field_lines (unowned r.headers) ++ length_line r ∷ []))
  sent-nonempty =
      AllNonempty-append (field_lines (unowned r.headers)) _
        (field_lines-AllNonempty (unowned r.headers)) tt

-- the head with any block `b` of forwarded lines
abbrev pub head_with : Request → Text → Text
head_with r b =
    request_line r
    ++ (crlf ++ (host_line r ++ (crlf ++ (b ++ (crlf ++ (length_line r ++ (crlf ++ crlf)))))))

pub request_head-eq :
    (r : Request) → request_head r ≡ head_with r (join crlf (field_lines (unowned r.headers)))
unfolding request_head
request_head-eq r = ap (λ ls. head_with r (join crlf ls)) (forwarded-unowned r.headers)

pub head_with-lines :
    (r : Request) (l : Text) (ls : List Text)
    → head_with r (join crlf (l ∷ ls))
      ≡ join crlf (request_line r ∷ host_line r ∷ ((l ∷ ls) ++ length_line r ∷ [])) ++ header_end []
unfolding join
head_with-lines r l ls =
    let k = crlf ++ (length_line r ++ (crlf ++ crlf)) in
    let block = join crlf (l ∷ ls) in
    sym (
      join-append crlf (request_line r) (host_line r ∷ l ∷ ls) (length_line r) (header_end [])
      ∙ append_assoc (request_line r) (crlf ++ (host_line r ++ (crlf ++ block))) k
      ∙ ap (λ x. request_line r ++ (crlf ++ x)) (append_assoc (host_line r) (crlf ++ block) k))

pub head_lines :
    (r : Request) (hs : Fields)
    → hs ≢ []
    → head_with r (join crlf (field_lines hs))
      ≡ join crlf (request_line r ∷ host_line r ∷ (field_lines hs ++ length_line r ∷ []))
        ++ header_end []
head_lines r [] ne = absurd (ne refl)
head_lines r ((k, v) ∷ hs) ne = head_with-lines r (field_line k v) (field_lines hs)
