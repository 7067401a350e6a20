-- ===== src/Startup/Once.antt =====
-- At most one instance is ever made (deploy/worker/index.mjs).
use mathlib.Core.Option
use akamata.Prelude.{
  suc, ◌≡◌, ◌≢◌, ◌≤◌, refl, Bool, true, false, some, List, [], ◌∷◌, ◌++◌, arith, inl, inr, subst,
  sym, ap, if◌then◌else◌, Bool-cases, of_some, Option-cases, ◌∙◌,
}
use akamata.Startup.{
  Attempt, undefined, pending, fulfilled, rejected, Caller, awaits, returned, threw, Startup, Event,
  call, loaded, init_throws, load_fails, caught, init, settle, join, instantiate, instantiate_once,
  on_attempt, step, run, enter,
}

abbrev pub NoneReturned : List Caller → Type 0
NoneReturned [] = Unit
NoneReturned (c ∷ cs) = (c ≢ returned) × NoneReturned cs

abbrev pub NoneAwaits : List Caller → Type 0
NoneAwaits [] = Unit
NoneAwaits (c ∷ cs) = (c ≢ awaits) × NoneAwaits cs

abbrev BeforeLoad : Startup → Type 0
BeforeLoad s =
    (s.instances ≡ 0) × (s.initialised ≡ false) × (s.attempt ≢ fulfilled) × NoneReturned s.callers

abbrev AfterLoad : Startup → Type 0
AfterLoad s = (s.instances ≡ 1) × (s.attempt ≢ pending)

abbrev Loads : Bool → Startup → Type 0
Loads true s = AfterLoad s
Loads false s = BeforeLoad s

-- The instance is set exactly when one has been made; before, no call has returned; and a call awaits only a promise that is pending.
pub record IsOrderly (s : Startup) : Type 0 where
  pub loads : Loads s.instance_set s
  pub quiet : s.attempt ≢ pending → NoneAwaits s.callers
  pub done : s.attempt ≡ fulfilled → s.initialised ≡ true

NoneAwaits-settle : (end : Caller) (cs : List Caller) → end ≢ awaits → NoneAwaits (settle end cs)
unfolding settle
NoneAwaits-settle end [] n = tt
NoneAwaits-settle end (awaits ∷ cs) n = (n, NoneAwaits-settle end cs n)
NoneAwaits-settle end (returned ∷ cs) n = (λ e. cc, NoneAwaits-settle end cs n)
NoneAwaits-settle end (threw ∷ cs) n = (λ e. cc, NoneAwaits-settle end cs n)

NoneAwaits-append :
    (cs : List Caller) (c : Caller) → c ≢ awaits → NoneAwaits cs → NoneAwaits (cs ++ c ∷ [])
NoneAwaits-append [] c n h = (n, tt)
NoneAwaits-append (d ∷ cs) c n h = (h.0, NoneAwaits-append cs c n h.1)

NoneReturned-append :
    (cs : List Caller) (c : Caller) → c ≢ returned → NoneReturned cs → NoneReturned (cs ++ c ∷ [])
NoneReturned-append [] c n h = (n, tt)
NoneReturned-append (d ∷ cs) c n h = (h.0, NoneReturned-append cs c n h.1)

NoneReturned-settle : (cs : List Caller) → NoneReturned cs → NoneReturned (settle threw cs)
unfolding settle
NoneReturned-settle [] h = tt
NoneReturned-settle (awaits ∷ cs) h = (λ e. cc, NoneReturned-settle cs h.1)
NoneReturned-settle (returned ∷ cs) h = absurd (h.0 refl)
NoneReturned-settle (threw ∷ cs) h = (λ e. cc, NoneReturned-settle cs h.1)

-- `instantiate` when no instance is set
join-IsOrderly :
    (a : Attempt) (s : Startup)
    → s.instance_set ≡ false
    → s.attempt ≡ a
    → BeforeLoad s
    → IsOrderly s
    → IsOrderly (join a s)
unfolding join
join-IsOrderly undefined s i e b o =
    let next : Startup = enter awaits (record s { attempt = pending }) in
    record {
      loads =
          subst (λ t. Loads t next) (sym i)
            (b.0, b.1, λ q. cc, NoneReturned-append s.callers awaits (λ q. cc) b.3);
      quiet = λ n. absurd (n refl);
      done = λ q. cc;
    }
join-IsOrderly pending s i e b o =
    let next : Startup = enter awaits s in
    record {
      loads =
          subst (λ t. Loads t next) (sym i)
            (b.0, b.1, b.2, NoneReturned-append s.callers awaits (λ q. cc) b.3);
      quiet = λ n. absurd (n e);
      done = o.done;
    }
join-IsOrderly fulfilled s i e b o = absurd (b.2 e)
join-IsOrderly rejected s i e b o =
    let next : Startup = enter threw s in
    record {
      loads =
          subst (λ t. Loads t next) (sym i)
            (b.0, b.1, b.2, NoneReturned-append s.callers threw (λ q. cc) b.3);
      quiet = λ n. NoneAwaits-append s.callers threw (λ q. cc) (o.quiet n);
      done = o.done;
    }

instantiate_at-IsOrderly :
    (b : Bool) (s : Startup)
    → s.instance_set ≡ b
    → IsOrderly s
    → IsOrderly (if b then enter returned s else join s.attempt s)
instantiate_at-IsOrderly true s i o = record {
  loads = subst (λ b. Loads b (enter returned s)) (sym i) (subst (λ b. Loads b s) i o.loads);
  quiet = λ n. NoneAwaits-append s.callers returned (λ q. cc) (o.quiet n);
  done = o.done;
}
instantiate_at-IsOrderly false s i o =
    join-IsOrderly s.attempt s i refl (subst (λ b. Loads b s) i o.loads) o

instantiate-IsOrderly : (s : Startup) → IsOrderly s → IsOrderly (instantiate s)
unfolding instantiate
instantiate-IsOrderly s o = instantiate_at-IsOrderly s.instance_set s refl o

-- An attempt that is pending has no instance behind it.
pending_before : (s : Startup) → IsOrderly s → s.attempt ≡ pending → BeforeLoad s
pending_before s o e = elim (Bool-cases s.instance_set) [
  | inl i ↦ absurd ((subst (λ b. Loads b s) i o.loads).1 e)
  | inr i ↦ subst (λ b. Loads b s) i o.loads
]

caught-Loads : (b : Bool) (s : Startup) → Loads b s → Loads b (record s { attempt = undefined })
caught-Loads true s l = (l.0, λ p. cc)
caught-Loads false s l = (l.0, l.1, λ p. cc, l.3)

fails-Loads_at :
    (b : Bool) (s : Startup)
    → s.attempt ≡ pending
    → Loads b s
    → Loads b (record s { attempt = rejected; callers = settle threw s.callers })
fails-Loads_at true s q l = absurd (l.1 q)
fails-Loads_at false s q l = (l.0, l.1, λ p. cc, NoneReturned-settle s.callers l.3)

on_attempt-IsOrderly :
    (e : Event) (a : Attempt) (s s' : Startup)
    → s.attempt ≡ a
    → IsOrderly s
    → on_attempt e a s ≡ some s'
    → IsOrderly s'
unfolding on_attempt instantiate_once
on_attempt-IsOrderly loaded pending s s' q o h =
    let b = pending_before s o q in
    subst IsOrderly (of_some h) (record {
      loads = (ap suc b.0, λ p. cc);
      quiet = λ n. NoneAwaits-settle returned s.callers (λ p. cc);
      done = λ p. refl;
    })
on_attempt-IsOrderly init_throws pending s s' q o h =
    let b = pending_before s o q in
    subst IsOrderly (of_some h) (record {
      loads = (ap suc b.0, λ p. cc);
      quiet = λ n. NoneAwaits-settle threw s.callers (λ p. cc);
      done = λ p. cc;
    })
on_attempt-IsOrderly load_fails pending s s' q o h =
    let b = pending_before s o q in
    subst IsOrderly (of_some h) (record {
      loads = fails-Loads_at s.instance_set s q o.loads;
      quiet = λ n. NoneAwaits-settle threw s.callers (λ p. cc);
      done = λ p. cc;
    })
on_attempt-IsOrderly caught rejected s s' q o h = subst IsOrderly (of_some h) (record {
  loads = caught-Loads s.instance_set s o.loads;
  quiet = λ n. o.quiet (λ p. cc);
  done = λ p. cc;
})
on_attempt-IsOrderly _ _ s s' q o h = cc

step-IsOrderly : (e : Event) (s s' : Startup) → IsOrderly s → step e s ≡ some s' → IsOrderly s'
unfolding step
step-IsOrderly call s s' o h = subst IsOrderly (of_some h) (instantiate-IsOrderly s o)
step-IsOrderly loaded s s' o h = on_attempt-IsOrderly loaded s.attempt s s' refl o h
step-IsOrderly init_throws s s' o h = on_attempt-IsOrderly init_throws s.attempt s s' refl o h
step-IsOrderly load_fails s s' o h = on_attempt-IsOrderly load_fails s.attempt s s' refl o h
step-IsOrderly caught s s' o h = on_attempt-IsOrderly caught s.attempt s s' refl o h

run-IsOrderly : (es : List Event) (s s' : Startup) → IsOrderly s → run es s ≡ some s' → IsOrderly s'
unfolding run Option.bind
run-IsOrderly [] s s' o h = subst IsOrderly (of_some h) o
run-IsOrderly (e ∷ es) s s' o h = elim (Option-cases (step e s)) [
  | inl q ↦ cc q
  | inr (t, q) ↦
      run-IsOrderly es t s' (step-IsOrderly e s t o q)
        (sym (ap (λ t. Option.bind t (run es)) q) ∙ h)
]

at_most_one : (b : Bool) (s : Startup) → Loads b s → s.instances ≤ 1
at_most_one true s l = omega (arith, l.0)
at_most_one false s l = omega (arith, l.0)

none_before : (b : Bool) (s : Startup) → Loads b s → s.instances ≡ 0 → NoneReturned s.callers
none_before true s l e = absurd (omega (arith, l.0, e))
none_before false s l e = l.3

init-IsOrderly : IsOrderly init
unfolding init
init-IsOrderly = record { loads = (refl, refl, λ p. cc, tt); quiet = λ n. tt; done = λ p. cc }

-- Whatever calls come and however `WebAssembly.instantiate` and `akamata_init` end, in any order that the event loop can have:
-- at most one instance is ever made; while there is none, no call has returned; and no call still awaits
-- when no attempt is pending, so that each is settled with the attempt that it has joined.
pub run-one_instance :
    (es : List Event) (s : Startup)
    → run es init ≡ some s
    → (s.instances ≤ 1)
      × (s.instances ≡ 0 → NoneReturned s.callers)
      × (s.attempt ≢ pending → NoneAwaits s.callers)
run-one_instance es s h =
    let o = run-IsOrderly es init s init-IsOrderly h in
    (at_most_one s.instance_set s o.loads, none_before s.instance_set s o.loads, o.quiet)
