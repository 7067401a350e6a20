-- ===== src/Instance/Balance.antt =====
-- What a dispatch calls of the instance, and what it frees (deploy/worker/index.mjs).
use mathlib.Core.Option
use akamata.Prelude.{
  ℕ, zero, suc, ◌+◌, ◌⊎◌, ◌≡◌, ◌∙◌, refl, sym, subst, Option, none, some, List, [], ◌∷◌, ◌++◌,
  length, inl, inr,
}
use akamata.Text.{Text, text}
use akamata.Text.Utf8.{encode}
use akamata.Memory.{Memory}
use akamata.Http.{Web, Answer, plain, Request, request_head, parse_http_response}
use akamata.Instance.{
  Exports, Call, allocated, fetched, queued, freed, Done, Handed, written, failed, view, write,
  then_body, write_request, fail_fetch, finish_fetch, after_fetch, enter_fetch, dispatch_unlocked,
}

-- The same instance, with a record of the calls that are made on it.
abbrev pub logging : {S : Type 0} → Exports S → Exports (S × List Call)
logging x = record {
  alloc = λ n z. let (p, s) = x.alloc n z.0 in (p, (s, z.1 ++ (allocated p n ∷ [])));
  dealloc = λ p n z. (x.dealloc p n z.0, z.1 ++ (freed p n ∷ []));
  handle_fetch =
      λ p n z. let (o, s) = x.handle_fetch p n z.0 in (o, (s, z.1 ++ (fetched p n ∷ [])));
  handle_queue = λ p n z. let (o, s) = x.handle_queue p n z.0 in (o, (s, z.1 ++ (queued p n ∷ [])));
  last_response_length = λ z. x.last_response_length z.0;
  last_error_length = λ z. x.last_error_length z.0;
  last_error_ptr = λ z. x.last_error_ptr z.0;
  memory = λ z. x.memory z.0;
  with_memory = λ z m. (x.with_memory z.0 m, z.1);
}

module _ {S : Type 0} (x : Exports S) (web : Web) where
  abbrev Logged : Type 0
  Logged = S × List Call

  -- the writes call nothing
  abbrev Kept : Option Logged → List Call → Type 0
  Kept none l = Unit
  Kept (some z) l = z.1 ≡ l

  abbrev log_of : Handed Logged → List Call
  log_of (written z) = z.1
  log_of (failed z) = z.1

  mapped-Kept :
      (z : Logged) (o : Option Memory) → Kept (Option.map ((logging x).with_memory z) o) z.1
  mapped-Kept z none = tt
  mapped-Kept z (some m) = refl

  write-Kept : (ptr : ℕ) (bs : List ℕ) (z : Logged) → Kept (write (logging x) ptr bs z) z.1
  unfolding write
  write-Kept ptr bs z = mapped-Kept z _

  abbrev second : Logged → Option Logged → Handed Logged
  second z o = elim o [ none ↦ failed z | some y ↦ written y ]

  second_log : (z : Logged) (o : Option Logged) → Kept o z.1 → log_of (second z o) ≡ z.1
  second_log z none k = refl
  second_log z (some y) k = k

  then_body_log :
      (ptr : ℕ) (body : List ℕ) (z : Logged) (o : Option Logged)
      → Kept o z.1
      → log_of (then_body (logging x) ptr body z o) ≡ z.1
  then_body_log ptr body z none k = refl
  then_body_log ptr body z (some y) k = second_log y _ (write-Kept ptr body y) ∙ k

  write_request_log :
      (ptr : ℕ) (head body : List ℕ) (z : Logged)
      → log_of (write_request (logging x) ptr head body z) ≡ z.1
  unfolding write_request
  write_request_log ptr head body z = then_body_log _ body z _ (write-Kept ptr head z)

  -- The instance was entered with the buffer and has answered with a response that lies in its memory: it is what the
  -- dispatch answers, and both buffers are freed, with their lengths.
  pub record Answers (ptr total : ℕ) (value : Option Answer) (log : List Call) : Type 0 where
    pub state : S
    pub response : ℕ
    pub bytes : List ℕ
    pub lies : view (x.memory state) (suc response) (x.last_response_length state) ≡ some bytes
    pub answer : value ≡ parse_http_response web bytes
    pub calls :
        log
        ≡ allocated ptr total
          ∷ fetched ptr total
          ∷ freed ptr total
          ∷ freed (suc response) (x.last_response_length state)
          ∷ []

  -- How a dispatch ends, and what it has called
  abbrev pub Ends : ℕ → ℕ → Option Answer → List Call → Type 0
  Ends ptr total value log =
      Answers ptr total value log
      ⊎ (((value ≡ some (plain 500 (text "internal error")))
            × (log ≡ allocated ptr total ∷ fetched ptr total ∷ freed ptr total ∷ []))
          ⊎ ((value ≡ none)
              × ((log ≡ allocated ptr total ∷ [])
                  ⊎ (log ≡ allocated ptr total ∷ fetched ptr total ∷ []))))

  abbrev EndsAt : ℕ → ℕ → Done Answer Logged → Type 0
  EndsAt ptr total d = Ends ptr total d.value d.state.1 × (d.state.1 ≡ d.calls)

  abbrev entered : ℕ → ℕ → List Call
  entered ptr total = allocated ptr total ∷ fetched ptr total ∷ []

  failing :
      (ptr total : ℕ) (s : S) (o : Option Text)
      → EndsAt ptr total (fail_fetch (logging x) ptr total o (s, entered ptr total))
  unfolding fail_fetch
  failing ptr total s none = (inr (inr (refl, inr refl)), refl)
  failing ptr total s (some name) = (inr (inl (refl, refl)), refl)

  finishing :
      (ptr total p : ℕ) (s : S) (o : Option (List ℕ))
      → view (x.memory s) (suc p) (x.last_response_length s) ≡ o
      → EndsAt ptr total (
          finish_fetch
            (logging x)
            web
            ptr
            total
            (suc p)
            (x.last_response_length s)
            o
            (s, entered ptr total))
  unfolding finish_fetch
  finishing ptr total p s none e = (inr (inr (refl, inr refl)), refl)
  finishing ptr total p s (some bs) e = (
    inl (record { state = s; response = p; bytes = bs; lies = e; answer = refl; calls = refl }),
    refl,
  )

  after_fetch-EndsAt :
      (ptr total : ℕ) (s : S) (o : Option ℕ)
      → EndsAt ptr total (after_fetch (logging x) web ptr total (o, (s, entered ptr total)))
  unfolding after_fetch
  after_fetch-EndsAt ptr total s none = (inr (inr (refl, inr refl)), refl)
  after_fetch-EndsAt ptr total s (some zero) = failing ptr total s _
  after_fetch-EndsAt ptr total s (some (suc p)) = finishing ptr total p s _ refl

  enter_fetch-EndsAt :
      (ptr total : ℕ) (h : Handed Logged)
      → log_of h ≡ allocated ptr total ∷ []
      → EndsAt ptr total (enter_fetch (logging x) web ptr total h)
  unfolding enter_fetch
  enter_fetch-EndsAt ptr total (failed z) e = (inr (inr (refl, inl e)), e)
  enter_fetch-EndsAt ptr total (written (s, log)) e =
      let (o, s') = x.handle_fetch ptr total s in
      subst
        (λ (l : List Call).
          EndsAt ptr total
            (after_fetch (logging x) web ptr total (o, (s', l ++ (fetched ptr total ∷ [])))))
        (sym e) (after_fetch-EndsAt ptr total s' o)

-- The calls that a dispatch makes of the instance, as the instance sees them, begin with one `alloc`, of the length of the head and the body, and the dispatch ends in one
-- of three ways. A response lies in the memory of the instance: the answer is what it parses to, `handle_fetch` was entered once, with the buffer,
-- and the buffer and the response are freed, once each and with their lengths. Or the answer is 500, `handle_fetch` was entered once, and the
-- buffer is freed. Or the dispatch throws, and after `alloc` it has called nothing, or `handle_fetch` alone. The list of calls
-- that the dispatch keeps is the one that the instance sees.
pub dispatch_unlocked-Ends :
    {S : Type 0} (x : Exports S) (web : Web) (r : Request) (s : S)
    → Ends x web
        (x.alloc (length (encode (request_head r)) + length r.body) s).0
        (length (encode (request_head r)) + length r.body)
        (dispatch_unlocked (logging x) web r (s, [])).value
        (dispatch_unlocked (logging x) web r (s, [])).state.1
      × ((dispatch_unlocked (logging x) web r (s, [])).state.1
          ≡ (dispatch_unlocked (logging x) web r (s, [])).calls)
unfolding dispatch_unlocked
dispatch_unlocked-Ends x web r s =
    let head = encode (request_head r) in
    let total = length head + length r.body in
    enter_fetch-EndsAt x web _ total _ (write_request_log x web (x.alloc total s).0 head r.body _)
