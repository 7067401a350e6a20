-- ===== src/Dispatch/Invariant.antt =====
-- What holds between the jobs, the promises and the shared state at every point of every
-- interleaving (deploy/worker/wasm_dispatch.mjs).
use mathlib.Core.Option
use native.Mathlib.Nat.{zero-add}
use akamata.Prelude.{
  ℕ, suc, ◌≡◌, refl, sym, ap, subst, ◌∙◌, Bool, true, false, Option, none, some, List, [], ◌∷◌,
  ◌++◌, arith, length, get_elem?, length-append, of_some,
}
use akamata.Dispatch.{
  Outcome, Dispatch, finish, chunk, Phase, waiting, running, settled, Job, Queue, Event, call,
  resume, advance, set, init, enqueue, wake, resume_job, advance_dispatch, advance_job, step, run,
}
use akamata.Dispatch.Order.{
  is_settled, flags, Numbered, Serial, resume-Serial, chunk-Serial, finish-Serial, call-Serial,
}
use akamata.Dispatch.Promises.{
  flags-set_same, flags-set_settled, flags-append, length-flags, length-set, Numbered-at,
  Numbered-set, Numbered-append,
}

module _ {S R : Type 0} where
  pub record Inv (s0 : S) (q : Queue S R) : Type 0 where
    pub promises : q.promises ≡ true ∷ flags q.jobs
    pub tail : q.tail ≡ length q.jobs
    pub numbered : Numbered 0 q.jobs
    pub serial : Serial s0 q.jobs q.shared

  pub Inv-init : (s : S) → Inv s (init s)
  unfolding init
  Inv-init s = record { promises = refl; tail = refl; numbered = tt; serial = refl }

  module _ {s0 : S} (q : Queue S R) (inv : Inv s0 q) where
    -- the job that `enqueue` adds
    abbrev added : Dispatch S R → Job S R
    added d = record { previous = q.tail; own = length q.promises; dispatch = d; phase = waiting }

    length-promises : length q.promises ≡ suc (length q.jobs)
    length-promises = rw inv.promises (omega (arith, length-flags q.jobs))

    enqueue-Inv : (d : Dispatch S R) → Inv s0 (enqueue d q)
    unfolding enqueue
    enqueue-Inv d = record {
      promises =
          ap (λ ps. ps ++ false ∷ []) inv.promises
          ∙ ap (λ ps. true ∷ ps) (sym (flags-append q.jobs (added d) refl));
      tail = omega (arith, length-promises, length-append {0} q.jobs (added d ∷ []));
      numbered =
          Numbered-append 0 q.jobs (added d) inv.numbered (omega (arith, inv.tail))
            (omega (arith, length-promises));
      serial = call-Serial q.jobs (added d) s0 q.shared refl inv.serial;
    }

    module _ (i : ℕ) (j : Job S R) (at : get_elem? q.jobs i ≡ some j) where
      unsettled-Inv :
          (ph ph' : Phase S R) (s : S)
          → j.phase ≡ ph
          → is_settled ph ≡ false
          → is_settled ph' ≡ false
          → Serial s0 (set q.jobs i (record j { phase = ph' })) s
          → Inv s0 (record q { shared = s; jobs = set q.jobs i (record j { phase = ph' }) })
      unsettled-Inv ph ph' s e off off' serial = record {
        promises =
            inv.promises
            ∙ ap (λ ps. true ∷ ps)
                (sym (flags-set_same q.jobs i j (record j { phase = ph' }) at (cc)));
        tail = omega (arith, inv.tail, length-set q.jobs i (record j { phase = ph' }));
        numbered = Numbered-set 0 q.jobs i j _ inv.numbered at refl refl;
        serial = serial;
      }

      waiting-Inv :
          j.phase ≡ waiting
          → get_elem? q.promises j.previous ≡ some true
          → Inv s0 (record q { jobs = set q.jobs i (record j { phase = running j.dispatch }) })
      waiting-Inv w p = unsettled-Inv waiting _ q.shared w refl refl (
          resume-Serial q.jobs i j s0 q.shared at w
            (cc (inv.promises, (Numbered-at 0 q.jobs i j inv.numbered at).0, zero-add i))
            inv.serial)

      chunk-Inv :
          (f : S → S) (next : S → Dispatch S R)
          → j.phase ≡ running (chunk f next)
          → Inv s0 (record q {
            shared = f q.shared;
            jobs = set q.jobs i (record j { phase = running (next q.shared) });
          })
      chunk-Inv f next r =
          unsettled-Inv _ _ (f q.shared) r refl refl
            (chunk-Serial q.jobs i j f next s0 q.shared at r inv.serial)

      own_at : j.own ≡ suc i
      own_at = omega (arith, Numbered-at 0 q.jobs i j inv.numbered at)

      finish-Inv :
          (o : Outcome R)
          → j.phase ≡ running (finish o)
          → Inv s0 (record q {
            promises = set q.promises j.own true;
            jobs = set q.jobs i (record j { phase = settled o });
          })
      finish-Inv o r = record {
        promises =
            ap (λ ps. set ps j.own true) inv.promises
            ∙ ap (λ n. set (true ∷ flags q.jobs) n true) own_at
            ∙ ap (λ ps. true ∷ ps)
                (sym (flags-set_settled q.jobs i (record j { phase = settled o }) refl));
        tail = omega (arith, inv.tail, length-set q.jobs i (record j { phase = settled o }));
        numbered = Numbered-set 0 q.jobs i j _ inv.numbered at refl refl;
        serial = finish-Serial q.jobs i j o s0 q.shared at r inv.serial;
      }

      wake-Inv :
          (o : Option Bool) (q' : Queue S R)
          → j.phase ≡ waiting
          → get_elem? q.promises j.previous ≡ o
          → wake o i j q ≡ some q'
          → Inv s0 q'
      unfolding wake
      wake-Inv none q' w p e = cc
      wake-Inv (some false) q' w p e = cc
      wake-Inv (some true) q' w p e = subst (Inv s0) (of_some e) (waiting-Inv w p)

      resume_job-Inv :
          (ph : Phase S R) (q' : Queue S R)
          → j.phase ≡ ph
          → resume_job ph i j q ≡ some q'
          → Inv s0 q'
      unfolding resume_job
      resume_job-Inv waiting q' w e = wake-Inv _ q' w refl e
      resume_job-Inv (running d) q' w e = cc
      resume_job-Inv (settled o) q' w e = cc

      advance_dispatch-Inv :
          (d : Dispatch S R) → j.phase ≡ running d → Inv s0 (advance_dispatch d i j q)
      unfolding advance_dispatch
      advance_dispatch-Inv (chunk f next) r = chunk-Inv f next r
      advance_dispatch-Inv (finish o) r = finish-Inv o r

      advance_job-Inv :
          (ph : Phase S R) (q' : Queue S R)
          → j.phase ≡ ph
          → advance_job ph i j q ≡ some q'
          → Inv s0 q'
      unfolding advance_job
      advance_job-Inv waiting q' w e = cc
      advance_job-Inv (running d) q' w e = subst (Inv s0) (of_some e) (advance_dispatch-Inv d w)
      advance_job-Inv (settled o) q' w e = cc

  -- Every step of the event loop keeps the invariant.
  step-Inv : {s0 : S} (e : Event S R) (q q' : Queue S R) → Inv s0 q → step e q ≡ some q' → Inv s0 q'
  unfolding step
  step-Inv {s0} (call d) q q' inv e = subst (Inv s0) (of_some e) (enqueue-Inv q inv d)
  step-Inv (resume i) q q' inv e =
      let (j, at, done) = (Option.bind-eq-some_iff _ _).0 e in
      resume_job-Inv q inv i j at j.phase q' refl done
  step-Inv (advance i) q q' inv e =
      let (j, at, done) = (Option.bind-eq-some_iff _ _).0 e in
      advance_job-Inv q inv i j at j.phase q' refl done

  pub run-Inv :
      {s0 : S} (es : List (Event S R)) (q q' : Queue S R)
      → Inv s0 q
      → run es q ≡ some q'
      → Inv s0 q'
  unfolding run
  run-Inv {s0} [] q q' inv e = subst (Inv s0) (of_some e) inv
  run-Inv (ev ∷ es) q q' inv e =
      let (q1, first, rest) = (Option.bind-eq-some_iff _ _).0 e in
      run-Inv es q1 q' (step-Inv ev q q1 inv first) rest
