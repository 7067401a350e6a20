-- ===== src/Dispatch/Tests.antt =====
-- Runs of the lock in deploy/worker/wasm_dispatch.mjs, after tests/workers_wasm_dispatch_test.mjs,
-- and the theorems at these runs.
use mathlib.Core.Option
use akamata.Prelude.{ℕ, ◌+◌, ◌≡◌, ◌⊎◌, refl, true, false, Option, some, List, [], ◌∷◌}
use akamata.Dispatch.{
  Outcome, returned, threw, Dispatch, finish, chunk, running, settled, Job, Queue, Event, call,
  resume, advance, init, run,
}
use akamata.Dispatch.Serial.{serial_run, serializable}
use akamata.Dispatch.Fifo.{AllSettled, CanGoOn, never_stuck}

-- stores its response, is suspended, and reads the response back
abbrev answering : ℕ → Dispatch ℕ ℕ
answering id = chunk (λ _. id) (λ _. chunk (λ s. s) (λ s. finish (returned s)))

abbrev failing : Dispatch ℕ ℕ
failing = chunk (λ s. s) (λ _. finish threw)

-- three calls at once; the second one throws
abbrev events : List (Event ℕ ℕ)
events =
    call (answering 7)
    ∷ call failing
    ∷ call (answering 9)
    ∷ resume 0
    ∷ advance 0
    ∷ advance 0
    ∷ advance 0
    ∷ resume 1
    ∷ advance 1
    ∷ advance 1
    ∷ resume 2
    ∷ advance 2
    ∷ advance 2
    ∷ advance 2
    ∷ []

abbrev job : ℕ → Dispatch ℕ ℕ → Outcome ℕ → Job ℕ ℕ
job n d o = record { previous = n; own = n + 1; dispatch = d; phase = settled o }

abbrev last : Queue ℕ ℕ
last = record {
  shared = 9;
  promises = true ∷ true ∷ true ∷ true ∷ [];
  tail = 3;
  jobs =
      job 0 (answering 7) (returned 7)
      ∷ job 1 failing threw
      ∷ job 2 (answering 9) (returned 9)
      ∷ [];
}

runs : run events (init 0) ≡ some last
unfolding run init Option.bind
runs = refl

-- the second call resumes only after the first has settled
too_early : run (call (answering 7) ∷ call failing ∷ resume 1 ∷ []) (init 0) ≡ Option.none
unfolding run init Option.bind
too_early = refl

serializable_example :
    serial_run (answering 7 ∷ failing ∷ answering 9 ∷ []) 0
    ≡ (9, returned 7 ∷ threw ∷ returned 9 ∷ [])
serializable_example =
    serializable 0 events last (returned 7 ∷ threw ∷ returned 9 ∷ []) runs
      (refl, (refl, (refl, tt)))

abbrev half_way : Queue ℕ ℕ
half_way = record {
  shared = 7;
  promises = true ∷ true ∷ false ∷ [];
  tail = 2;
  jobs =
      job 0 (answering 7) (returned 7)
      ∷ record { previous = 1; own = 2; dispatch = failing; phase = running failing }
      ∷ [];
}

abbrev some_events : List (Event ℕ ℕ)
some_events =
    call (answering 7) ∷ call failing ∷ resume 0 ∷ advance 0 ∷ advance 0 ∷ advance 0 ∷ resume 1 ∷ []

half_runs : run some_events (init 0) ≡ some half_way
unfolding run init Option.bind
half_runs = refl

never_stuck_example : AllSettled half_way.jobs ⊎ ((i : ℕ) × CanGoOn half_way i)
never_stuck_example = never_stuck 0 some_events half_way half_runs
