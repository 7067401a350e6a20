-- ===== src/Startup/Uninitialised.antt =====
-- What follows if `akamata_init` throws (deploy/worker/index.mjs).
use mathlib.Core.Option
use akamata.Prelude.{
  ◌≡◌, ◌≢◌, refl, sym, ap, subst, ◌∙◌, true, false, some, List, [], ◌∷◌, ◌++◌, inl, inr, of_some,
  Option-cases, if◌then◌else◌,
}
use akamata.Startup.{
  Attempt, pending, rejected, returned, Startup, Event, call, loaded, init_throws, load_fails,
  caught, join, instantiate, instantiate_once, on_attempt, step, run, enter,
}

record IsStuck (s : Startup) : Type 0 where
  pub set : s.instance_set ≡ true
  pub uninitialised : s.initialised ≡ false
  pub idle : s.attempt ≢ pending

call-IsStuck : (s : Startup) → IsStuck s → instantiate s ≡ enter returned s
unfolding instantiate
call-IsStuck s k = ap (λ b. if b then enter returned s else join s.attempt s) k.set

on_attempt-IsStuck :
    (e : Event) (a : Attempt) (s s' : Startup)
    → s.attempt ≡ a
    → IsStuck s
    → on_attempt e a s ≡ some s'
    → IsStuck s'
unfolding on_attempt
on_attempt-IsStuck loaded pending s s' q k h = absurd (k.idle q)
on_attempt-IsStuck init_throws pending s s' q k h = absurd (k.idle q)
on_attempt-IsStuck load_fails pending s s' q k h = absurd (k.idle q)
on_attempt-IsStuck caught rejected s s' q k h =
    subst IsStuck (of_some h)
      (record { set = k.set; uninitialised = k.uninitialised; idle = λ p. cc })
on_attempt-IsStuck _ _ s s' q k h = cc

step-IsStuck : (e : Event) (s s' : Startup) → IsStuck s → step e s ≡ some s' → IsStuck s'
unfolding step
step-IsStuck call s s' k h =
    subst IsStuck (sym (call-IsStuck s k) ∙ of_some h)
      (record { set = k.set; uninitialised = k.uninitialised; idle = k.idle })
step-IsStuck loaded s s' k h = on_attempt-IsStuck loaded s.attempt s s' refl k h
step-IsStuck init_throws s s' k h = on_attempt-IsStuck init_throws s.attempt s s' refl k h
step-IsStuck load_fails s s' k h = on_attempt-IsStuck load_fails s.attempt s s' refl k h
step-IsStuck caught s s' k h = on_attempt-IsStuck caught s.attempt s s' refl k h

run-IsStuck : (es : List Event) (s s' : Startup) → IsStuck s → run es s ≡ some s' → IsStuck s'
unfolding run Option.bind
run-IsStuck [] s s' k h = subst IsStuck (of_some h) k
run-IsStuck (e ∷ es) s s' k h = elim (Option-cases (step e s)) [
  | inl q ↦ cc q
  | inr (t, q) ↦
      run-IsStuck es t s' (step-IsStuck e s t k q) (sym (ap (λ t. Option.bind t (run es)) q) ∙ h)
]

thrown-IsStuck : (a : Attempt) (s s' : Startup) → on_attempt init_throws a s ≡ some s' → IsStuck s'
unfolding on_attempt instantiate_once
thrown-IsStuck pending s s' h =
    subst IsStuck (of_some h) (record { set = refl; uninitialised = refl; idle = λ p. cc })
thrown-IsStuck _ s s' h = cc

-- Once `akamata_init` has thrown, whatever happens: no later attempt initialises an instance, the one that was not initialised is kept, and the next call
-- of `instantiate` returns at once, so that its request is dispatched to that instance.
pub init_throws-IsFinal :
    (s0 s1 s2 : Startup) (es : List Event)
    → step init_throws s0 ≡ some s1
    → run es s1 ≡ some s2
    → (s2.initialised ≡ false)
      × (s2.instance_set ≡ true)
      × (step call s2 ≡ some (record s2 { callers = s2.callers ++ (returned ∷ []) }))
unfolding step
init_throws-IsFinal s0 s1 s2 es h r =
    let k = run-IsStuck es s1 s2 (thrown-IsStuck s0.attempt s0 s1 h) r in
    (k.uninitialised, k.set, ap some (call-IsStuck s2 k))
