-- ===== src/Dispatch/Serial.antt =====
-- Whatever the event loop does, the dispatches behave as if each ran alone, in the order of the
-- calls (deploy/worker/wasm_dispatch.mjs).
use akamata.Prelude.{◌≡◌, some, List, [], ◌∷◌, arith}
use akamata.Dispatch.{Outcome, Dispatch, settled, Job, Queue, Event, init, run}
use akamata.Dispatch.Order.{exec, Serial}
use akamata.Dispatch.Invariant.{Inv-init, run-Inv}

module _ {S R : Type 0} where
  -- The specification: no awaits, no promises, one dispatch after the other.
  unfoldable pub serial_run : List (Dispatch S R) → S → S × List (Outcome R)
  unfolding exec
  serial_run [] s = (s, [])
  serial_run (d ∷ ds) s =
      let (s', o) = exec d s in let (s'', os) = serial_run ds s' in (s'', o ∷ os)

  abbrev pub dispatches : List (Job S R) → List (Dispatch S R)
  dispatches [] = []
  dispatches (j ∷ js) = j.dispatch ∷ dispatches js

  -- the outcomes of jobs that are all settled
  abbrev pub HasOutcomes : List (Job S R) → List (Outcome R) → Type 0
  HasOutcomes [] [] = Unit
  HasOutcomes (j ∷ js) (o ∷ os) = (j.phase ≡ settled o) × HasOutcomes js os
  HasOutcomes _ _ = ⊥

  Serial-serial_run :
      (js : List (Job S R)) (os : List (Outcome R)) (s0 s : S)
      → HasOutcomes js os
      → Serial s0 js s
      → serial_run (dispatches js) s0 ≡ (s, os)
  unfolding serial_run
  Serial-serial_run [] [] s0 s h e = ground arith
  Serial-serial_run [] (o ∷ os) s0 s h e = absurd h
  Serial-serial_run (j ∷ js) [] s0 s h e = absurd h
  Serial-serial_run (j ∷ js) (o ∷ os) s0 s h e =
      ground (arith, Serial-serial_run js os (exec j.dispatch s0).0 s h.1)

-- For every interleaving of any dispatches, return or throw, after which all of them are settled:
-- the shared state and the outcomes, in the order of the calls, are those of running each dispatch
-- from its start to its end before the next one starts.
pub serializable :
    {S R : Type 0} (s0 : S) (es : List (Event S R)) (q : Queue S R) (os : List (Outcome R))
    → run es (init s0) ≡ some q
    → HasOutcomes q.jobs os
    → serial_run (dispatches q.jobs) s0 ≡ (q.shared, os)
serializable s0 es q os e h =
    Serial-serial_run q.jobs os s0 q.shared h (run-Inv es (init s0) q (Inv-init s0) e).serial
