-- ===== src/Startup.antt =====
-- deploy/worker/index.mjs: `instantiate`, which every request and every batch awaits first. The JavaScript between two awaits is
-- one step, so that a run is a list of events.
pub mod Once
pub mod Uninitialised
mod Tests
use mathlib.Core.Option
use akamata.Prelude.{
  ℕ, zero, suc, Bool, true, false, Option, none, some, List, [], ◌∷◌, ◌++◌, if◌then◌else◌,
}

-- `instantiatePromise`: undefined, or the promise of `instantiateOnce`. A promise that has rejected is there until the
-- `catch` of the call that made it runs.
pub data Attempt : Type 0 where
  undefined pending fulfilled rejected : Attempt

-- A call of `instantiate`: it awaits the promise, has returned, or has thrown.
pub data Caller : Type 0 where
  awaits returned threw : Caller

-- `instances` counts the instances that `WebAssembly.instantiate` has made; `instance` is the variable;
-- `initialised` tells whether `instantiateOnce` has come to its end.
pub record Startup : Type 0 where
  pub instance_set : Bool
  pub attempt : Attempt
  pub instances : ℕ
  pub initialised : Bool
  pub callers : List Caller

pub data Event : Type 0 where
  -- a call of `instantiate`
  call : Event
  -- `WebAssembly.instantiate` comes back, and `akamata_init` returns, or throws
  loaded init_throws : Event
  -- `WebAssembly.instantiate` rejects
  load_fails : Event
  -- the `catch` of the call that made the promise
  caught : Event

unfoldable pub init : Startup
init = record {
  instance_set = false;
  attempt = undefined;
  instances = 0;
  initialised = false;
  callers = [];
}

-- every call that awaits the promise
unfoldable pub settle : Caller → List Caller → List Caller
settle end [] = []
settle end (awaits ∷ cs) = end ∷ settle end cs
settle end (c ∷ cs) = c ∷ settle end cs

abbrev pub enter : Caller → Startup → Startup
enter c s = record s { callers = s.callers ++ (c ∷ []) }

-- `if (instantiatePromise) return instantiatePromise;`, or a new promise
unfoldable pub join : Attempt → Startup → Startup
join undefined s = enter awaits (record s { attempt = pending })
join pending s = enter awaits s
join fulfilled s = enter returned s
join rejected s = enter threw s

-- `if (instance) return;`
unfoldable pub instantiate : Startup → Startup
unfolding join
instantiate s = if s.instance_set then enter returned s else join s.attempt s

-- what `instantiateOnce` does when the module is there; `ok` tells whether `akamata_init` returns
unfoldable pub instantiate_once : Bool → Startup → Startup
unfolding settle
instantiate_once ok s = record {
  instance_set = true;
  attempt = if ok then fulfilled else rejected;
  instances = suc s.instances;
  initialised = ok;
  callers = settle (if ok then returned else threw) s.callers;
}

-- `none`: the event cannot happen now.
unfoldable pub on_attempt : Event → Attempt → Startup → Option Startup
unfolding instantiate_once
on_attempt loaded pending s = some (instantiate_once true s)
on_attempt init_throws pending s = some (instantiate_once false s)
on_attempt load_fails pending s =
    some (record s { attempt = rejected; callers = settle threw s.callers })
on_attempt caught rejected s = some (record s { attempt = undefined })
on_attempt _ _ s = none

unfoldable pub step : Event → Startup → Option Startup
unfolding instantiate on_attempt
step call s = some (instantiate s)
step e s = on_attempt e s.attempt s

unfoldable pub run : List Event → Startup → Option Startup
unfolding step
run [] s = some s
run (e ∷ es) s = Option.bind (step e s) (run es)
