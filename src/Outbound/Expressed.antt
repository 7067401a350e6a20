-- ===== src/Outbound/Expressed.antt =====
-- How `akamata_fetch` of deploy/worker/index.mjs cuts the request text of `workersSend` (src/http_client.zig).
use mathlib.Core.Option
use akamata.Prelude.{
  ◌≡◌, refl, fun_ext, ap, ◌∙◌, true, Option, some, [], ◌∷◌, ◌++◌, arith, length, ltb, ◌⊎◌, inl, inr,
}
use akamata.Text.{Text, text, join, trim}
use akamata.Text.Utf8.{decode}
use akamata.Text.Laws.{IsAscii, decode_ascii}
use akamata.Text.Search.{Avoids, AllAvoid, Avoids-append, split-join}
use akamata.Http.{Fields, Web, field_line, set_lines, set_header}
use akamata.Http.Lines.{set_line-field, field_lines-AllNonempty}
use akamata.Http.Parts.{field_lines, set_fields}
use akamata.Outbound.{newline, Sections, cut, sections, block_headers}
use akamata.Outbound.Client.{ClientRequest, serialize_headers, serialize}
use akamata.Outbound.Cutting.{cut-newline, cut-lines, serialize_headers-join}

-- No newline outside the body, no colon in a name, nothing padded.
abbrev pub AllExpressible : Fields → Type 0
AllExpressible [] = Unit
AllExpressible ((k, v) ∷ fs) =
    (Avoids 58 k × Avoids 10 k × Avoids 10 v × (trim k ≡ k) × (trim v ≡ v)) × AllExpressible fs

pub record IsExpressible (z : ClientRequest) : Type 0 where
  pub method : Avoids 10 z.method
  pub url : Avoids 10 z.url
  pub fields : AllExpressible z.headers
  pub ascii : IsAscii (serialize z)

field_lines-AllAvoid : (fs : Fields) → AllExpressible fs → AllAvoid 10 (field_lines fs)
field_lines-AllAvoid [] h = tt
field_lines-AllAvoid ((k, v) ∷ fs) ((ck, nk, nv, tk, tv), h) = (
  Avoids-append 10 k _ nk (Avoids-append 10 (text ": ") v (omega arith) nv),
  field_lines-AllAvoid fs h,
)

set_lines-expressed :
    (web : Web) (fs hs : Fields)
    → AllExpressible fs
    → set_lines web (field_lines fs) hs ≡ set_fields web fs hs
unfolding set_lines set_fields Option.bind
set_lines-expressed web [] hs c = refl
set_lines-expressed web ((k, v) ∷ fs) hs ((ck, nk, nv, tk, tv), c) =
    ap (λ o. Option.bind o (set_lines web (field_lines fs))) (set_line-field web k v hs ck tk tv)
    ∙ ap (Option.bind (set_header web k v hs)) (fun_ext λ hs'. set_lines-expressed web fs hs' c)

block_nonempty :
    (k v : Text) (fs : Fields) → ltb 0 (length (join newline (field_lines ((k, v) ∷ fs)))) ≡ true
unfolding join
block_nonempty [] v [] = ground arith
block_nonempty (c ∷ k) v [] = ground arith
block_nonempty [] v (f ∷ fs) = ground arith
block_nonempty (c ∷ k) v (f ∷ fs) = ground arith

pub block_headers-fields :
    (web : Web) (k v : Text) (fs : Fields)
    → AllExpressible ((k, v) ∷ fs)
    → block_headers web (join newline (field_lines ((k, v) ∷ fs))) ≡ set_fields web ((k, v) ∷ fs) []
unfolding block_headers
block_headers-fields web k v fs c = rw (block_nonempty k v fs) (
    ap (λ ls. set_lines web ls [])
      (split-join 10 [] (field_line k v) (field_lines fs) (field_lines-AllAvoid ((k, v) ∷ fs) c))
    ∙ set_lines-expressed web ((k, v) ∷ fs) [] c)

-- behind the first newline, and behind the second
abbrev behind_method : Option (Text × Text) → Option Sections
behind_method o = Option.bind o λ (m : Text × Text).
    Option.bind (cut newline m.1) λ (u : Text × Text).
      Option.map
        (λ (h : Text × Text). record { method = m.0; url = u.0; header_block = h.0; body = h.1 })
        (cut (newline ++ newline) u.1)

abbrev behind_url : Text → Option (Text × Text) → Option Sections
behind_url method o = Option.bind o λ (u : Text × Text).
    Option.map
      (λ (h : Text × Text). record { method = method; url = u.0; header_block = h.0; body = h.1 })
      (cut (newline ++ newline) u.1)

abbrev pub sections_at : Text → Text → Option (Text × Text) → Option Sections
sections_at method url o =
    Option.map
      (λ (h : Text × Text). record { method = method; url = url; header_block = h.0; body = h.1 }) o

pub sections-first :
    (z : ClientRequest)
    → IsExpressible z
    → sections (serialize z)
      ≡ sections_at z.method z.url
          (cut (newline ++ newline) (serialize_headers z.headers ++ (10 ∷ z.body)))
unfolding sections serialize Option.bind
sections-first z e =
    let rest = serialize_headers z.headers ++ (10 ∷ z.body) in
    ap behind_method (cut-newline z.method (z.url ++ (10 ∷ rest)) e.method)
    ∙ ap (behind_url z.method) (cut-newline z.url rest e.url)

pub sections-serialize :
    (z : ClientRequest) (k v : Text) (fs : Fields)
    → IsExpressible z
    → z.headers ≡ (k, v) ∷ fs
    → AllExpressible ((k, v) ∷ fs)
    → sections (serialize z)
      ≡ some (record {
        method = z.method;
        url = z.url;
        header_block = join newline (field_lines ((k, v) ∷ fs));
        body = z.body;
      })
sections-serialize z k v fs e q c =
    sections-first z e
    ∙ ap
        (λ hs.
          sections_at z.method z.url
            (cut (newline ++ newline) (serialize_headers hs ++ (10 ∷ z.body))))
        q
    ∙ ap (λ t. sections_at z.method z.url (cut (newline ++ newline) t))
        (serialize_headers-join k v fs z.body)
    ∙ ap (sections_at z.method z.url) (
        cut-lines (field_line k v) (field_lines fs) z.body (field_lines-AllAvoid ((k, v) ∷ fs) c)
          (field_lines-AllNonempty fs))

pub decoded : (z : ClientRequest) → IsExpressible z → decode (serialize z) ≡ serialize z
decoded z e = decode_ascii (serialize z) e.ascii

pub headers-cases : (hs : Fields) → (hs ≡ []) ⊎ ((k v : Text) × (fs : Fields) × (hs ≡ (k, v) ∷ fs))
headers-cases [] = inl refl
headers-cases ((k, v) ∷ fs) = inr (k, v, fs, refl)
