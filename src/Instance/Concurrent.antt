-- ===== src/Instance/Concurrent.antt =====
-- Requests under the lock: `dispatchWasm` of deploy/worker/index.mjs, with `handle_fetch` cut where the
-- instance is suspended, run by `WasmDispatchQueue` of deploy/worker/wasm_dispatch.mjs.
use akamata.Prelude.{ℕ, ◌+◌, ◌≡◌, refl, sym, ap, ◌∙◌, Option, none, some, List, [], ◌∷◌, length}
use akamata.Text.Utf8.{encode}
use akamata.Http.{Answer, Web, Request, request_head}
use akamata.Dispatch.{Outcome, returned, threw, Dispatch, finish, chunk, Queue, Event, init, run}
use akamata.Dispatch.Order.{exec}
use akamata.Dispatch.Serial.{serial_run, dispatches, HasOutcomes, serializable}
use akamata.Instance.{
  Exports, Done, Handed, written, failed, write_request, after_fetch, enter_fetch,
  dispatch_unlocked,
}

abbrev outcome_of : {A : Type 0} → Option A → Outcome A
outcome_of none = threw
outcome_of (some a) = returned a

abbrev value_of : {A : Type 0} → Outcome A → Option A
value_of (returned a) = some a
value_of threw = none

abbrev handed_state : {S : Type 0} → Handed S → S
handed_state (written s) = s
handed_state (failed s) = s

module _ {S : Type 0} where
  -- a dispatch that goes on when an inner one has ended
  unfoldable pub await : {A B : Type 0} → Dispatch S A → (Outcome A → Dispatch S B) → Dispatch S B
  await (finish o) k = k o
  await (chunk f next) k = chunk f (λ s. await (next s) k)

  exec-await :
      {A B : Type 0} (d : Dispatch S A) (k : Outcome A → Dispatch S B) (s : S)
      → exec (await d k) s ≡ exec (k (exec d s).1) (exec d s).0
  unfolding exec await
  exec-await (finish o) k s = refl
  exec-await (chunk f next) k s = exec-await (next s) k (f s)

  module _ (x : Exports S) (handle : ℕ → ℕ → Dispatch S ℕ) (web : Web) where
    -- the exports, with a `handle_fetch` that is not interrupted
    abbrev pub uninterrupted : Exports S
    uninterrupted = record x {
      handle_fetch = λ ptr len s. let r = exec (handle ptr len) s in (value_of r.1, r.0);
    }

    abbrev prepared : Request → S → Handed S
    prepared r s =
        let head = encode (request_head r) in
        let (ptr, s') = x.alloc (length head + length r.body) s in
        write_request x ptr head r.body s'

    abbrev size_of : Request → ℕ
    size_of r = length (encode (request_head r)) + length r.body

    -- after `await handleFetchAsync(ptr, total)`
    unfoldable pub answer : ℕ → ℕ → Outcome ℕ → Dispatch S Answer
    unfolding after_fetch
    answer ptr total o =
        chunk (λ s. (after_fetch x web ptr total (value_of o, s)).state)
          (λ s. finish (outcome_of (after_fetch x web ptr total (value_of o, s)).value))

    unfoldable pub enter : ℕ → ℕ → Handed S → Dispatch S Answer
    unfolding answer await
    enter ptr total (failed s) = finish threw
    enter ptr total (written s) = await (handle ptr total) (answer ptr total)

    -- `dispatchWasmUnlocked`, cut at its await and at those inside `handle_fetch`
    unfoldable pub dispatch_of : Request → Dispatch S Answer
    unfolding enter
    dispatch_of r =
        chunk (λ s. handed_state (prepared r s))
          (λ s. enter (x.alloc (size_of r) s).0 (size_of r) (prepared r s))

    -- The specification: one request after the other, with nothing in between.
    unfoldable pub serve : List Request → S → S × List (Outcome Answer)
    serve [] s = (s, [])
    serve (r ∷ rs) s =
        let d : Done Answer S = dispatch_unlocked uninterrupted web r s in
        let (s', os) = serve rs d.state in (s', outcome_of d.value ∷ os)

    abbrev pub dispatches_of : List Request → List (Dispatch S Answer)
    dispatches_of [] = []
    dispatches_of (r ∷ rs) = dispatch_of r ∷ dispatches_of rs

    abbrev ends : Done Answer S → S × Outcome Answer
    ends d = (d.state, outcome_of d.value)

    exec-enter :
        (ptr total : ℕ) (h : Handed S)
        → exec (enter ptr total h) (handed_state h)
          ≡ ends (enter_fetch uninterrupted web ptr total h)
    unfolding enter exec answer enter_fetch
    exec-enter ptr total (failed s) = refl
    exec-enter ptr total (written s) = exec-await (handle ptr total) (answer ptr total) s

    exec-dispatch_of :
        (r : Request) (s : S)
        → exec (dispatch_of r) s ≡ ends (dispatch_unlocked uninterrupted web r s)
    unfolding dispatch_of exec dispatch_unlocked
    exec-dispatch_of r s = exec-enter (x.alloc (size_of r) s).0 (size_of r) (prepared r s)

    dispatches_of-serve : (rs : List Request) (s : S) → serial_run (dispatches_of rs) s ≡ serve rs s
    unfolding serial_run serve
    dispatches_of-serve [] s = refl
    dispatches_of-serve (r ∷ rs) s =
        let d : Done Answer S = dispatch_unlocked uninterrupted web r s in
        rw (exec-dispatch_of r s, dispatches_of-serve rs d.state) refl

-- Let every call of the lock be a request, given to an instance whose `handle_fetch` may be suspended and resumed
-- any number of times. For every interleaving after which all calls are settled: the state of the instance
-- and the answers and throws, in the order of the calls, are those of serving one request after the other with a
-- `handle_fetch` that is not interrupted.
pub served_in_turn :
    {S : Type 0} (x : Exports S) (handle : ℕ → ℕ → Dispatch S ℕ) (web : Web) (rs : List Request)
    (s0 : S) (es : List (Event S Answer)) (q : Queue S Answer) (os : List (Outcome Answer))
    → run es (init s0) ≡ some q
    → dispatches q.jobs ≡ dispatches_of x handle web rs
    → HasOutcomes q.jobs os
    → serve x handle web rs s0 ≡ (q.shared, os)
served_in_turn x handle web rs s0 es q os e calls h =
    sym (dispatches_of-serve x handle web rs s0)
    ∙ ap (λ ds. serial_run ds s0) (sym calls)
    ∙ serializable s0 es q os e h
