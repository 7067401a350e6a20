-- ===== src/Fuzzer/Connection/Settling.antt =====
-- How an attempt ends, and what is counted (tools/fuzz/http_fuzz.mjs).
use akamata.Prelude.{
  ℕ, suc, ◌≡◌, refl, ap, sym, ◌∙◌, Bool, true, false, List, [], ◌∷◌, ◌++◌, if◌then◌else◌,
  append-nil, append_assoc,
}
use akamata.Text.{Text, text, same}
use akamata.Fuzzer.Connection.{
  Stats, resolved, rejected, SocketEvent, connect, close, timeout, chunk, error, Request, on_event,
  on_events, open_request, raw_request, after_attempt, attempt,
}

-- what has come in, in its order
unfoldable pub received : List SocketEvent → List ℕ
received [] = []
received (chunk d ∷ es) = d ++ received es
received (e ∷ es) = received es

-- No `close` and no `error`
abbrev pub AllQuiet : List SocketEvent → Type 0
AllQuiet [] = Unit
AllQuiet (close ∷ es) = ⊥
AllQuiet (error code ∷ es) = ⊥
AllQuiet (e ∷ es) = AllQuiet es

quiet_events :
    (payload : Text) (es more : List SocketEvent) (q : Request)
    → AllQuiet es
    → (w : List Text) × (b : Bool) × (on_events payload (es ++ more) q
        ≡ on_events payload more
            (record q { chunks = q.chunks ++ received es; written = w; destroyed = b }))
unfolding on_events on_event received
quiet_events payload [] more q h = (
  q.written,
  q.destroyed,
  ap (λ cs. on_events payload more (record q { chunks = cs })) (sym (append-nil q.chunks)),
)
quiet_events payload (close ∷ es) more q h = absurd h
quiet_events payload (error code ∷ es) more q h = absurd h
quiet_events payload (connect ∷ es) more q h =
    quiet_events payload es more (record q { written = q.written ++ (payload ∷ []) }) h
quiet_events payload (timeout ∷ es) more q h =
    quiet_events payload es more (record q { destroyed = true }) h
quiet_events payload (chunk d ∷ es) more q h =
    let (w, b, e) = quiet_events payload es more (record q { chunks = q.chunks ++ d }) h in
    (
      w,
      b,
      e
          ∙ ap (λ cs. on_events payload more (record q { chunks = cs; written = w; destroyed = b }))
              (append_assoc q.chunks d (received es)),
    )

-- A socket that ends without an error, after a timeout or not: the promise resolves to all that has come in, in its order, and the attempt
-- is counted once, as sent, and as nothing else.
pub raw_request-resolves :
    (payload : Text) (es : List SocketEvent) (st : Stats)
    → AllQuiet es
    → ((raw_request payload (es ++ close ∷ []) st).promise ≡ resolved (received es))
      × (attempt payload (es ++ close ∷ []) st ≡ record st { sent = suc st.sent })
unfolding raw_request attempt on_events on_event open_request
raw_request-resolves payload es st h =
    let (w, b, e) = quiet_events payload es (close ∷ []) (open_request st) h in
    (ap (λ (q : Request). q.promise) e, ap (λ (q : Request). after_attempt q.promise q.stats) e)

abbrev failed_stats : Bool → Stats → Stats
failed_stats b st =
    if b
    then record st { refused = suc st.refused }
    else record st { socket_err = suc st.socket_err }

counted :
    (b : Bool) (st : Stats)
    → after_attempt rejected (record (failed_stats b st) { sent = suc (failed_stats b st).sent })
      ≡ (if b
          then record st {
            sent = suc st.sent;
            refused = suc st.refused;
            socket_err = suc st.socket_err;
          }
          else record st { sent = suc st.sent; socket_err = suc (suc st.socket_err) })
counted true st = refl
counted false st = refl

-- A socket that fails, and is then closed: the promise rejects, the attempt is counted once as sent, and twice as an error: a refused
-- connection as refused and as a socket error, any other error as two socket errors.
pub attempt-counts_twice :
    (payload code : Text) (es : List SocketEvent) (st : Stats)
    → AllQuiet es
    → ((raw_request payload (es ++ (error code ∷ close ∷ [])) st).promise ≡ rejected)
      × (attempt payload (es ++ (error code ∷ close ∷ [])) st ≡ (
          if same code (text "ECONNREFUSED")
          then record st {
            sent = suc st.sent;
            refused = suc st.refused;
            socket_err = suc st.socket_err;
          }
          else record st { sent = suc st.sent; socket_err = suc (suc st.socket_err) }))
unfolding raw_request attempt on_events on_event open_request
attempt-counts_twice payload code es st h =
    let (w, b, e) = quiet_events payload es (error code ∷ close ∷ []) (open_request st) h in
    (
      ap (λ (q : Request). q.promise) e,
      ap (λ (q : Request). after_attempt q.promise q.stats) e
          ∙ counted (same code (text "ECONNREFUSED")) st,
    )
