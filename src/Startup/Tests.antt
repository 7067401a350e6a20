-- ===== src/Startup/Tests.antt =====
-- Runs of `instantiate` (deploy/worker/index.mjs), and the theorems there.
use mathlib.Core.Option
use akamata.Prelude.{◌≡◌, ◌≢◌, ◌≤◌, refl, true, false, some, List, [], ◌∷◌}
use akamata.Startup.{
  Attempt, undefined, pending, fulfilled, rejected, Caller, awaits, returned, threw, Startup, Event,
  call, loaded, init_throws, load_fails, caught, init, step, run,
}
use akamata.Startup.Once.{NoneReturned, NoneAwaits, run-one_instance}
use akamata.Startup.Uninitialised.{init_throws-IsFinal}

-- two calls share an attempt that fails; a third one comes before the `catch`; the fourth starts anew
abbrev events : List Event
events = call ∷ call ∷ load_fails ∷ call ∷ caught ∷ call ∷ loaded ∷ call ∷ []

abbrev last : Startup
last = record {
  instance_set = true;
  attempt = fulfilled;
  instances = 1;
  initialised = true;
  callers = threw ∷ threw ∷ threw ∷ returned ∷ returned ∷ [];
}

retried : run events init ≡ some last
unfolding run init Option.bind
retried = refl

run-one_instance_example :
    (1 ≤ 1)
    × (last.instances ≡ 0 → NoneReturned last.callers)
    × (last.attempt ≢ pending → NoneAwaits last.callers)
run-one_instance_example = run-one_instance events last retried

abbrev waiting : Startup
waiting = record {
  instance_set = false;
  attempt = pending;
  instances = 0;
  initialised = false;
  callers = awaits ∷ [];
}

abbrev uninitialised : Attempt → List Caller → Startup
uninitialised a cs = record {
  instance_set = true;
  attempt = a;
  instances = 1;
  initialised = false;
  callers = cs;
}

thrown : step init_throws waiting ≡ some (uninitialised rejected (threw ∷ []))
unfolding step
thrown = refl

goes_on :
    run (caught ∷ call ∷ []) (uninitialised rejected (threw ∷ []))
    ≡ some (uninitialised undefined (threw ∷ returned ∷ []))
unfolding run Option.bind
goes_on = refl

init_throws-IsFinal_example :
    ((uninitialised undefined (threw ∷ returned ∷ [])).initialised ≡ false)
    × ((uninitialised undefined (threw ∷ returned ∷ [])).instance_set ≡ true)
    × (step call (uninitialised undefined (threw ∷ returned ∷ []))
        ≡ some (uninitialised undefined (threw ∷ returned ∷ returned ∷ [])))
init_throws-IsFinal_example =
    init_throws-IsFinal waiting (uninitialised rejected (threw ∷ []))
      (uninitialised undefined (threw ∷ returned ∷ [])) (caught ∷ call ∷ []) thrown goes_on
