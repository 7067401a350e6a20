-- ===== src/Guestbook/Same.antt =====
-- Where the guestbook's worker (deploy/guestbook/worker/index.mjs) does what deploy/worker/index.mjs does.
use akamata.Prelude.{
  ℕ, zero, suc, ◌+◌, ◌≡◌, ◌≢◌, refl, sym, ap, ◌∙◌, Option, none, some, List, [], ◌∷◌, ◌++◌, length,
  inl, inr, Option-cases,
}
use akamata.Text.{Text, text, join, to_lower}
use akamata.Text.Utf8.{encode}
use akamata.Text.Laws.{same_ne}
use akamata.Http.{
  is_owned, Fields, crlf, Web, Request, field_line, forwarded, request_line, request_head,
}
use akamata.Http.Decimal.{decimal}
use akamata.Http.Framing.{AllUnowned}
use akamata.Instance.{
  Exports, Handed, written, failed, write_request, view, error_name, fail_fetch, finish_fetch,
  after_fetch, enter_fetch, dispatch_unlocked,
}
use akamata.Guestbook.{header_lines, guest_head, respond, after_call, call_fetch, dispatch_wasm}

header_lines-forwarded : (hs : Fields) → AllUnowned hs → header_lines hs ≡ forwarded hs
unfolding header_lines forwarded is_owned
header_lines-forwarded [] h = refl
header_lines-forwarded ((k, v) ∷ hs) h =
    rw (same_ne (to_lower k) (text "host") h.0, same_ne (to_lower k) (text "content-length") h.1)
      (ap (λ ls. field_line k v ∷ ls) (header_lines-forwarded hs h.2))

abbrev head_of_block : Request → List Text → Text
head_of_block r ls =
    request_line r
    ++ (crlf
        ++ (field_line (text "host") r.host
            ++ (crlf
                ++ (join crlf ls
                    ++ (crlf
                        ++ (field_line (text "content-length") (decimal (length r.body))
                            ++ (crlf ++ crlf)))))))

guest_head-request_head : (r : Request) → AllUnowned r.headers → guest_head r ≡ request_head r
unfolding guest_head request_head
guest_head-request_head r h = ap (head_of_block r) (header_lines-forwarded r.headers h)

module _ {S : Type 0} (x : Exports S) (web : Web) (named : (s : S) → error_name x s ≢ none) where
  respond-finish :
      (ptr total resp_ptr resp_len : ℕ) (o : Option (List ℕ)) (s : S)
      → respond x web ptr total resp_ptr resp_len o s
        ≡ finish_fetch x web ptr total resp_ptr resp_len o s
  unfolding respond finish_fetch
  respond-finish ptr total resp_ptr resp_len none s = refl
  respond-finish ptr total resp_ptr resp_len (some bs) s = refl

  after_call-after_fetch :
      (ptr total : ℕ) (a : Option ℕ × S)
      → after_call x web ptr total a ≡ after_fetch x web ptr total a
  unfolding after_call after_fetch fail_fetch
  after_call-after_fetch ptr total (none, s) = refl
  after_call-after_fetch ptr total (some zero, s) = elim (Option-cases (error_name x s)) [
    | inl e ↦ absurd (named s e)
    | inr (name, e) ↦ ap (λ o. fail_fetch x ptr total o s) (sym e)
  ]
  after_call-after_fetch ptr total (some (suc p), s) =
      respond-finish ptr total (suc p) (x.last_response_length s)
        (view (x.memory s) (suc p) (x.last_response_length s)) s

  call_fetch-enter_fetch :
      (ptr total : ℕ) (h : Handed S) → call_fetch x web ptr total h ≡ enter_fetch x web ptr total h
  unfolding call_fetch enter_fetch
  call_fetch-enter_fetch ptr total (failed s) = refl
  call_fetch-enter_fetch ptr total (written s) =
      after_call-after_fetch ptr total (x.handle_fetch ptr total s)

-- Let the name of an error, where the instance reports one, lie in its memory. For a request that has neither a `host` nor a `content-length` among its headers,
-- the guestbook's `dispatchWasm` does what `dispatchWasmUnlocked` does: the same answer or throw, the same calls of the exports in the same
-- order, and the same state of the instance after them.
pub dispatch_wasm-dispatch_unlocked :
    {S : Type 0} (x : Exports S) (web : Web) (r : Request) (s : S)
    → ((s : S) → error_name x s ≢ none)
    → AllUnowned r.headers
    → dispatch_wasm x web r s ≡ dispatch_unlocked x web r s
unfolding dispatch_wasm dispatch_unlocked
dispatch_wasm-dispatch_unlocked x web r s named h =
    ap
      (λ t.
        let head = encode t in
        let total = length head + length r.body in
        let (ptr, s') = x.alloc total s in
        call_fetch x web ptr total (write_request x ptr head r.body s'))
      (guest_head-request_head r h)
    ∙ call_fetch-enter_fetch x web named _ _ _
