-- ===== src/Outbound/Requests.antt =====
-- What `akamata_fetch` of deploy/worker/index.mjs makes of the request text of `workersSend` (src/http_client.zig).
use mathlib.Core.Option
use akamata.Prelude.{
  Bool, ltb, false, if◌then◌else◌, ◌⊎◌, not, ◌&&◌, ℕ, ◌≡◌, ◌≢◌, refl, sym, ap, ◌∙◌, true, Option,
  none, some, [], ◌∷◌, ◌++◌, arith, length, take, drop, ◌+◌, inl, inr, subst, bind-map,
}
use akamata.Prelude.Numbers.{minus}
use akamata.Text.{Text, text, same, starts_with, index_of, join}
use akamata.Text.Utf8.{decode}
use akamata.Text.Search.{Avoids, index_of-none}
use akamata.Text.Laws.{same_iff, same-false}
use akamata.Memory.{read_bytes, read_string}
use akamata.D1.Statements.{suspending}
use akamata.Http.{Fields, Web}
use akamata.Http.Parts.{field_lines, set_fields}
use akamata.Instance.{Exports}
use akamata.Outbound.{
  newline, cut, sections, Outgoing, Upstream, body_of, outgoing_of, then_deliver, call_upstream,
  fetch_text, akamata_fetch,
}
use akamata.Outbound.Client.{ClientRequest, serialize_headers, serialize}
use akamata.Outbound.Expressed.{
  AllExpressible, IsExpressible, block_headers-fields, sections_at, sections-first,
  sections-serialize, decoded, headers-cases,
}

module _ {S : Type 0} (x : Exports S) (web : Web) (fetch : Outgoing → Option Upstream) where
  fetch-read :
      (z : ClientRequest) (req_ptr out_ptr_addr out_len_addr : ℕ) (s : S)
      → IsExpressible z
      → read_bytes (x.memory s) req_ptr (length (serialize z)) ≡ some (serialize z)
      → akamata_fetch x true web fetch req_ptr (length (serialize z)) out_ptr_addr out_len_addr s
        ≡ call_upstream x web fetch out_ptr_addr out_len_addr s (sections (serialize z))
  unfolding akamata_fetch suspending read_string fetch_text
  fetch-read z req_ptr out_ptr_addr out_len_addr s e r =
      ap (λ o. fetch_text x web fetch out_ptr_addr out_len_addr s (Option.map decode o)) r
      ∙ ap (λ t. call_upstream x web fetch out_ptr_addr out_len_addr s (sections t)) (decoded z e)

  outgoing-serialized :
      (z : ClientRequest) (k v : Text) (fs : Fields)
      → AllExpressible ((k, v) ∷ fs)
      → z.headers ≡ (k, v) ∷ fs
      → Option.bind
          (outgoing_of web (record {
            method = z.method;
            url = z.url;
            header_block = join newline (field_lines ((k, v) ∷ fs));
            body = z.body;
          }))
          fetch
        ≡ Option.bind (set_fields web z.headers []) (λ hs.
          fetch (record {
            method = z.method;
            url = z.url;
            headers = hs;
            body = body_of z.method z.body;
          }))
  unfolding outgoing_of Option.bind
  outgoing-serialized z k v fs c q =
      ap
        (λ o.
          Option.bind
            (Option.map
              (λ hs. record {
                method = z.method;
                url = z.url;
                headers = hs;
                body = body_of z.method z.body;
              })
              o)
            fetch)
        (block_headers-fields web k v fs c ∙ ap (λ hs. set_fields web hs []) (sym q))
      ∙ bind-map _ fetch (set_fields web z.headers [])

-- The body that goes out: none with GET, with HEAD and where there are no bytes, and else the body of the request.
abbrev pub IsSentBody : ClientRequest → Option Text → Type 0
IsSentBody z none = (z.method ≡ text "GET") ⊎ ((z.method ≡ text "HEAD") ⊎ (z.body ≡ []))
IsSentBody z (some t) =
    (z.method ≢ text "GET") × (z.method ≢ text "HEAD") × (z.body ≢ []) × (t ≡ z.body)

sent_bytes :
    (z : ClientRequest) (body : Text)
    → z.body ≡ body
    → z.method ≢ text "GET"
    → z.method ≢ text "HEAD"
    → IsSentBody z (if ltb 0 (length body) then some body else none)
sent_bytes z [] e g h = inr (inr e)
sent_bytes z (c ∷ body) e g h =
    let nonempty : ltb 0 (length (c ∷ body)) ≡ true = ground arith in
    subst (λ b. IsSentBody z (if b then some (c ∷ body) else none)) (sym nonempty)
      (g, h, (λ q. cc (e, q)), sym e)

sent_body :
    (z : ClientRequest) (a b : Bool)
    → same z.method (text "GET") ≡ a
    → same z.method (text "HEAD") ≡ b
    → IsSentBody z (if not a && not b && ltb 0 (length z.body) then some z.body else none)
sent_body z true b e f = inl ((same_iff z.method (text "GET")).0 e)
sent_body z false true e f = inr (inl ((same_iff z.method (text "HEAD")).0 f))
sent_body z false false e f =
    sent_bytes z z.body refl (same-false z.method (text "GET") e)
      (same-false z.method (text "HEAD") f)

body_of-IsSentBody : (z : ClientRequest) → IsSentBody z (body_of z.method z.body)
unfolding body_of
body_of-IsSentBody z = sent_body z _ _ refl refl

-- Let the text that `workersSend` makes of a request lie in the memory. The request has at least one header; its method,
-- url and headers hold no newline, its names no colon, nothing is padded, and all of it is ASCII. Then
-- `akamata_fetch` calls `fetch` with just this method, url, these headers put into `Headers` one after the
-- other, and this body, which is left out where it is empty or the method is GET or HEAD; what it does with the answer
-- depends on nothing else of the request. A refused header is a throw like a rejected `fetch`.
pub akamata_fetch-sends :
    {S : Type 0} (x : Exports S) (web : Web) (fetch : Outgoing → Option Upstream)
    (z : ClientRequest) (req_ptr out_ptr_addr out_len_addr : ℕ) (s : S)
    → IsExpressible z
    → z.headers ≢ []
    → read_bytes (x.memory s) req_ptr (length (serialize z)) ≡ some (serialize z)
    → (sent : Option Text) × IsSentBody z sent
      × (akamata_fetch x true web fetch req_ptr (length (serialize z)) out_ptr_addr out_len_addr s
          ≡ then_deliver x out_ptr_addr out_len_addr s (
              Option.bind (set_fields web z.headers []) (λ hs.
                fetch (record { method = z.method; url = z.url; headers = hs; body = sent }))))
unfolding call_upstream
akamata_fetch-sends x web fetch z req_ptr out_ptr_addr out_len_addr s e ne r =
    elim (headers-cases z.headers) [
      | inl q ↦ absurd (ne q)
      | inr (k, v, fs, q) ↦
          let c : AllExpressible ((k, v) ∷ fs) = subst AllExpressible q e.fields in
          (
            body_of z.method z.body,
            body_of-IsSentBody z,
            fetch-read x web fetch z req_ptr out_ptr_addr out_len_addr s e r
                ∙ ap (call_upstream x web fetch out_ptr_addr out_len_addr s)
                    (sections-serialize z k v fs e q c)
                ∙ ap (then_deliver x out_ptr_addr out_len_addr s)
                    (outgoing-serialized x web fetch z k v fs c q),
          )
    ]

no_blank : (body : Text) → Avoids 10 body → index_of (10 ∷ 10 ∷ []) (10 ∷ body) ≡ none
unfolding index_of starts_with
no_blank [] a = refl
no_blank (c ∷ body) a = ground (arith, index_of-none 10 (10 ∷ []) (c ∷ body) a)

-- Let the text that `workersSend` makes of a request lie in the memory, as ASCII with no newline in the method, the url or the body,
-- and let the request have no header. Then `akamata_fetch` calls nothing: it returns -1 and leaves
-- the instance as it is.
pub akamata_fetch-headerless :
    {S : Type 0} (x : Exports S) (web : Web) (fetch : Outgoing → Option Upstream)
    (z : ClientRequest) (req_ptr out_ptr_addr out_len_addr : ℕ) (s : S)
    → IsExpressible z
    → z.headers ≡ []
    → Avoids 10 z.body
    → read_bytes (x.memory s) req_ptr (length (serialize z)) ≡ some (serialize z)
    → akamata_fetch x true web fetch req_ptr (length (serialize z)) out_ptr_addr out_len_addr s
      ≡ (minus 1, s)
unfolding call_upstream serialize_headers cut
akamata_fetch-headerless x web fetch z req_ptr out_ptr_addr out_len_addr s e q a r =
    fetch-read x web fetch z req_ptr out_ptr_addr out_len_addr s e r
    ∙ ap (call_upstream x web fetch out_ptr_addr out_len_addr s) (
        sections-first z e
        ∙ ap
            (λ hs.
              sections_at z.method z.url
                (cut (newline ++ newline) (serialize_headers hs ++ (10 ∷ z.body))))
            q
        ∙ ap
            (λ o.
              sections_at z.method z.url
                (Option.map (λ i. (take i (10 ∷ z.body), drop (i + 2) (10 ∷ z.body))) o))
            (no_blank z.body a))
