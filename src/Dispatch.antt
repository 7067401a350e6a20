-- ===== src/Dispatch.antt =====
-- deploy/worker/wasm_dispatch.mjs: the FIFO lock under which every call into the wasm instance
-- runs. The JavaScript between two awaits is one step; which step comes next is the event loop's
-- choice, so that an interleaving is a list of events.
pub mod Order
mod Promises
mod Invariant
pub mod Fifo
pub mod Serial
mod Tests
use mathlib.Core.Option
use akamata.Prelude.{
  ℕ, zero, suc, Bool, true, false, Option, none, some, List, [], ◌∷◌, ◌++◌, length, get_elem?,
}

-- How a dispatch ends: `return` or a throw.
pub data Outcome (R : Type 0) : Type 0 where
  returned : R → Outcome R
  threw : Outcome R

-- A dispatch cut at its awaits: a chunk changes the state of the instance that all dispatches
-- share, and what follows depends on what the chunk read there.
pub data Dispatch (S R : Type 0) : Type 0 where
  finish : Outcome R → Dispatch S R
  chunk : (S → S) → (S → Dispatch S R) → Dispatch S R

pub data Phase (S R : Type 0) : Type 0 where
  waiting : Phase S R
  running : Dispatch S R → Phase S R
  settled : Outcome R → Phase S R

-- One call of `run`, with the promise that it awaits and the one that it resolves.
pub record Job (S R : Type 0) : Type 0 where
  pub previous : ℕ
  pub own : ℕ
  pub dispatch : Dispatch S R
  pub phase : Phase S R

-- `promises` holds for every promise of the lock whether it is resolved.
pub record Queue (S R : Type 0) : Type 0 where
  pub shared : S
  pub promises : List Bool
  pub tail : ℕ
  pub jobs : List (Job S R)

pub data Event (S R : Type 0) : Type 0 where
  call : Dispatch S R → Event S R
  resume : ℕ → Event S R
  advance : ℕ → Event S R

abbrev pub set {ℓ} : {A : Type ℓ} → List A → ℕ → A → List A
set [] i v = []
set (x ∷ xs) zero v = v ∷ xs
set (x ∷ xs) (suc i) v = x ∷ set xs i v

module _ {S R : Type 0} where
  -- `#tail = Promise.resolve()`
  unfoldable pub init : S → Queue S R
  init s = record { shared = s; promises = true ∷ []; tail = 0; jobs = [] }

  -- `run` up to its `await previous`
  unfoldable pub enqueue : Dispatch S R → Queue S R → Queue S R
  enqueue d q = record {
    shared = q.shared;
    promises = q.promises ++ false ∷ [];
    tail = length q.promises;
    jobs =
        q.jobs
        ++ (record { previous = q.tail; own = length q.promises; dispatch = d; phase = waiting }
            ∷ []);
  }

  -- `await previous` comes back, once that promise is resolved.
  unfoldable pub wake : Option Bool → ℕ → Job S R → Queue S R → Option (Queue S R)
  wake (some true) i j q =
      some (record q { jobs = set q.jobs i (record j { phase = running j.dispatch }) })
  wake _ i j q = none

  unfoldable pub resume_job : Phase S R → ℕ → Job S R → Queue S R → Option (Queue S R)
  unfolding wake
  resume_job waiting i j q = wake (get_elem? q.promises j.previous) i j q
  resume_job _ i j q = none

  -- A chunk of `dispatch()`, or its end, return or throw, with the `finally` that releases.
  unfoldable pub advance_dispatch : Dispatch S R → ℕ → Job S R → Queue S R → Queue S R
  advance_dispatch (chunk f next) i j q = record q {
    shared = f q.shared;
    jobs = set q.jobs i (record j { phase = running (next q.shared) });
  }
  advance_dispatch (finish o) i j q = record q {
    promises = set q.promises j.own true;
    jobs = set q.jobs i (record j { phase = settled o });
  }

  unfoldable pub advance_job : Phase S R → ℕ → Job S R → Queue S R → Option (Queue S R)
  unfolding advance_dispatch
  advance_job (running d) i j q = some (advance_dispatch d i j q)
  advance_job _ i j q = none

  -- `none`: the event loop cannot do this now.
  unfoldable pub step : Event S R → Queue S R → Option (Queue S R)
  unfolding enqueue resume_job advance_job
  step (call d) q = some (enqueue d q)
  step (resume i) q = Option.bind (get_elem? q.jobs i) (λ j. resume_job j.phase i j q)
  step (advance i) q = Option.bind (get_elem? q.jobs i) (λ j. advance_job j.phase i j q)

  unfoldable pub run : List (Event S R) → Queue S R → Option (Queue S R)
  unfolding step
  run [] q = some q
  run (e ∷ es) q = Option.bind (step e q) (run es)
