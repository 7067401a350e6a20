-- ===== src/Instance/Written.antt =====
-- What the instance finds in its memory when it is entered (deploy/worker/index.mjs).
use mathlib.Core.Option
use akamata.Prelude.{
  ℕ, ◌+◌, ◌≤◌, ◌≡◌, sym, ap, ap₂, ◌∙◌, subst, Option, none, some, List, [], ◌∷◌, ◌++◌, arith,
  length, length-append,
}
use akamata.Prelude.Numbers.{ℤ}
use akamata.Text.Utf8.{encode}
use akamata.Memory.{Memory, read_bytes}
use akamata.Memory.Sequel.{
  overwritten, write_bytes-overwritten, read_bytes-overwritten, read_bytes-overwritten_twice,
}
use akamata.Http.{Web, Answer, Request, request_head, request_bytes}
use akamata.Instance.{
  Exports, allocated, queued, freed, Done, written, failed, write, then_body, write_request,
  after_fetch, enter_fetch, dispatch_unlocked, enter_queue, consume,
}

-- What the worker writes into the memory is there.
abbrev pub IsLinear : {S : Type 0} → Exports S → Type 0
IsLinear {S} x = (s : S) (m : Memory) → x.memory (x.with_memory s m) ≡ m

module _ {S : Type 0} (x : Exports S) (linear : IsLinear x) where
  -- the state after a write that fits
  abbrev pub after_write : ℕ → List ℕ → S → S
  after_write ptr bs s = x.with_memory s (overwritten (x.memory s) ptr bs)

  pub write-eq :
      (ptr : ℕ) (bs : List ℕ) (s : S)
      → ptr + length bs ≤ (x.memory s).size
      → write x ptr bs s ≡ some (after_write ptr bs s)
  unfolding write
  write-eq ptr bs s fits =
      ap (Option.map (x.with_memory s)) (write_bytes-overwritten (x.memory s) ptr bs fits)

  abbrev pub after_both : ℕ → List ℕ → List ℕ → S → S
  after_both ptr head body s = after_write (ptr + length head) body (after_write ptr head s)

  pub write_request-eq :
      (ptr : ℕ) (head body : List ℕ) (s : S)
      → ptr + (length head + length body) ≤ (x.memory s).size
      → write_request x ptr head body s ≡ written (after_both ptr head body s)
  unfolding write_request
  write_request-eq ptr head body s fits =
      ap (then_body x (ptr + length head) body s) (write-eq ptr head s (omega (arith, fits)))
      ∙ ap
          (λ (o : Option S). elim o [
            | none ↦ failed (after_write ptr head s)
            | some s'' ↦ written s''
          ])
          (write-eq (ptr + length head) body (after_write ptr head s) (
            subst (λ (m : Memory). ptr + length head + length body ≤ m.size)
              (sym (linear s (overwritten (x.memory s) ptr head))) (omega (arith, fits))))

  pub after_both-memory :
      (ptr : ℕ) (head body : List ℕ) (s : S)
      → x.memory (after_both ptr head body s)
        ≡ overwritten (overwritten (x.memory s) ptr head) (ptr + length head) body
  after_both-memory ptr head body s =
      linear (after_write ptr head s)
        (overwritten (x.memory (after_write ptr head s)) (ptr + length head) body)
      ∙ ap (λ m. overwritten m (ptr + length head) body)
          (linear s (overwritten (x.memory s) ptr head))

-- `dispatchWasmUnlocked` from the allocation on
abbrev enter : {S : Type 0} → Exports S → Web → List ℕ → List ℕ → S → ℕ → Done Answer S
enter x web head body s total =
    let (ptr, s') = x.alloc total s in
    enter_fetch x web ptr total (write_request x ptr head body s')

-- Let the memory hold what is written into it, and let the buffer that `alloc` gives lie in it.
-- Then `handle_fetch` is called with that buffer, of the length of the request text, at a state of
-- the instance in which it holds the request text byte for byte; and the dispatch is what follows
-- that call.
pub dispatch_unlocked-enters :
    {S : Type 0} (x : Exports S) (web : Web) (r : Request) (s : S)
    → IsLinear x
    → (x.alloc (length (request_bytes r)) s).0 + length (request_bytes r)
      ≤ (x.memory (x.alloc (length (request_bytes r)) s).1).size
    → (s' : S) × (read_bytes
          (x.memory s')
          (x.alloc (length (request_bytes r)) s).0
          (length (request_bytes r))
        ≡ some (request_bytes r))
      × (dispatch_unlocked x web r s
          ≡ after_fetch x web (x.alloc (length (request_bytes r)) s).0 (length (request_bytes r)) (
              x.handle_fetch
                (x.alloc (length (request_bytes r)) s).0
                (length (request_bytes r))
                s'))
unfolding request_bytes dispatch_unlocked enter_fetch
dispatch_unlocked-enters x web r s linear fits =
    let head = encode (request_head r) in
    let total = length (head ++ r.body) in
    let ptr = (x.alloc total s).0 in
    let s0 = (x.alloc total s).1 in
    let size : total ≡ length head + length r.body = length-append head r.body in
    (
      after_both x linear ptr head r.body s0,
      ap₂ (λ m n. read_bytes m ptr n) (after_both-memory x linear ptr head r.body s0) size
          ∙ read_bytes-overwritten_twice (x.memory s0) ptr head r.body (omega (arith, fits, size)),
      ap (enter x web head r.body s) (sym size)
          ∙ ap (enter_fetch x web ptr total)
              (write_request-eq x linear ptr head r.body s0 (omega (arith, fits, size))),
    )

-- Let the memory hold what is written into it, and let the buffer that `alloc` gives lie in it.
-- Then a queue message is handled at a state of the instance in which the buffer holds the payload
-- byte for byte; the value is that of `handle_queue`, a throw included, and in every case the
-- buffer is freed once after the call, with the length that it was allocated with.
pub consume-frees :
    {S : Type 0} (x : Exports S) (bs : List ℕ) (s : S)
    → IsLinear x
    → (x.alloc (length bs) s).0 + length bs ≤ (x.memory (x.alloc (length bs) s).1).size
    → (s' : S) × (read_bytes (x.memory s') (x.alloc (length bs) s).0 (length bs) ≡ some bs)
      × ((consume x bs s).value ≡ (x.handle_queue (x.alloc (length bs) s).0 (length bs) s').0)
      × ((consume x bs s).calls
          ≡ allocated (x.alloc (length bs) s).0 (length bs)
            ∷ queued (x.alloc (length bs) s).0 (length bs)
            ∷ freed (x.alloc (length bs) s).0 (length bs)
            ∷ [])
unfolding consume enter_queue
consume-frees x bs s linear fits =
    let ptr = (x.alloc (length bs) s).0 in
    let s0 = (x.alloc (length bs) s).1 in
    let eq = ap (enter_queue x ptr (length bs) s0) (write-eq x linear ptr bs s0 fits) in
    (
      after_write x linear ptr bs s0,
      ap (λ m. read_bytes m ptr (length bs)) (linear s0 (overwritten (x.memory s0) ptr bs))
          ∙ read_bytes-overwritten (x.memory s0) ptr bs fits,
      ap (λ (d : Done ℤ _). d.value) eq,
      ap (λ (d : Done ℤ _). d.calls) eq,
    )
