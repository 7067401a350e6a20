-- ===== src/Dispatch/Fifo.antt =====
-- Who may run when: mutual exclusion, first come first served, and that the lock is never stuck
-- (deploy/worker/wasm_dispatch.mjs).
use mathlib.Core.Option
use native.Mathlib.Decide.{dec_lt}
use akamata.Prelude.{
  ℕ, zero, suc, ◌<◌, ◌≡◌, ◌≢◌, ◌⊎◌, inl, inr, refl, subst, true, false, some, List, [], ◌∷◌, arith,
  Bool-cases, sym, get_elem?,
}
use akamata.Dispatch.{
  Dispatch, Phase, waiting, running, settled, Job, Queue, Event, resume, advance, init, run, step,
  set, wake, advance_dispatch,
}
use akamata.Dispatch.Order.{is_settled, flags, AllWaiting, Serial, SerialAt, AllWaiting-waiting}
use akamata.Dispatch.Promises.{Numbered-at}
use akamata.Dispatch.Invariant.{Inv-init, run-Inv}

module _ {S R : Type 0} where
  -- A job that has begun has only settled jobs before it.
  begun_after :
      (js : List (Job S R)) (s0 s : S) (i k : ℕ) (a b : Job S R)
      → Serial s0 js s
      → get_elem? js i ≡ some a
      → get_elem? js k ≡ some b
      → i < k
      → b.phase ≢ waiting
      → is_settled a.phase ≡ true
  begun_after [] s0 s i k a b h p q lt n = cc
  begun_after (j ∷ js) s0 s i zero a b h p q lt n = absurd (omega arith)
  begun_after (j ∷ js) s0 s zero (suc k) a b h p q lt n = begun_head j.phase refl h
    where
      begun_head :
          (ph : Phase S R)
          → j.phase ≡ ph
          → SerialAt ph s0 j.dispatch (λ s1. Serial s1 js s) (AllWaiting js) s
          → is_settled a.phase ≡ true
      begun_head waiting e g = absurd (n (AllWaiting-waiting js k b g.1 q))
      begun_head (running r) e g = absurd (n (AllWaiting-waiting js k b g.1 q))
      begun_head (settled o) e g = ground arith
  begun_after (j ∷ js) s0 s (suc i) (suc k) a b h p q lt n =
      begun_tail j.phase h (λ s1 g. begun_after js s1 s i k a b g p q (omega arith) n)
    where
      begun_tail :
          (ph : Phase S R)
          → SerialAt ph s0 j.dispatch (λ s1. Serial s1 js s) (AllWaiting js) s
          → ((s1 : S) → Serial s1 js s → is_settled a.phase ≡ true)
          → is_settled a.phase ≡ true
      begun_tail waiting g rest = absurd (n (AllWaiting-waiting js k b g.1 q))
      begun_tail (running r) g rest = absurd (n (AllWaiting-waiting js k b g.1 q))
      begun_tail (settled o) g rest = rest _ g.1

-- At every point of every interleaving: once a call's dispatch has begun, every earlier call has
-- settled.
pub served_in_order :
    {S R : Type 0} (s0 : S) (es : List (Event S R)) (q : Queue S R) (i k : ℕ) (a b : Job S R)
    → run es (init s0) ≡ some q
    → get_elem? q.jobs i ≡ some a
    → get_elem? q.jobs k ≡ some b
    → i < k
    → b.phase ≢ waiting
    → is_settled a.phase ≡ true
served_in_order s0 es q i k a b e p r lt n =
    begun_after q.jobs s0 q.shared i k a b (run-Inv es (init s0) q (Inv-init s0) e).serial p r lt n

-- At every point of every interleaving at most one call holds the instance.
pub mutual_exclusion :
    {S R : Type 0} (s0 : S) (es : List (Event S R)) (q : Queue S R) (i k : ℕ) (a b : Job S R)
    (d d' : Dispatch S R)
    → run es (init s0) ≡ some q
    → get_elem? q.jobs i ≡ some a
    → get_elem? q.jobs k ≡ some b
    → a.phase ≡ running d
    → b.phase ≡ running d'
    → i ≡ k
mutual_exclusion s0 es q i k a b d d' e p r ra rb = elim (dec_lt i k) [
  | yes lt ↦ cc (ra, served_in_order s0 es q i k a b e p r lt (λ w. cc))
  | no ge ↦ elim (dec_lt k i) [
    | yes gt ↦ cc (rb, served_in_order s0 es q k i b a e r p gt (λ w. cc))
    | no le ↦ omega arith
  ]
]

module _ {S R : Type 0} where
  abbrev pub AllSettled : List (Job S R) → Type 0
  AllSettled [] = Unit
  AllSettled (j ∷ js) = (is_settled j.phase ≡ true) × AllSettled js

  -- The first job that is not settled: the promise that it awaits is resolved.
  record Front (js : List (Job S R)) : Type 0 where
    place : ℕ
    job : Job S R
    at : get_elem? js place ≡ some job
    due : get_elem? (true ∷ flags js) place ≡ some true
    open_job : is_settled job.phase ≡ false

  front : (js : List (Job S R)) → AllSettled js ⊎ Front js
  front [] = inl tt
  front (j ∷ js) = elim (Bool-cases (is_settled j.phase)) [
    | inr off ↦ inr (record { place = 0; job = j; at = refl; due = refl; open_job = off })
    | inl on ↦ elim (front js) [
      | inl all ↦ inl (on, all)
      | inr f ↦ inr (record {
        place = suc f.place;
        job = f.job;
        at = f.at;
        due = subst (λ b. get_elem? (b ∷ flags js) f.place ≡ some true) (sym on) f.due;
        open_job = f.open_job;
      })
    ]
  ]

  abbrev pub CanGoOn : Queue S R → ℕ → Type 0
  CanGoOn q i = (q' : Queue S R) × ((step (resume i) q ≡ some q') ⊎ (step (advance i) q ≡ some q'))

  resume-some :
      (q : Queue S R) (i : ℕ) (j : Job S R)
      → get_elem? q.jobs i ≡ some j
      → j.phase ≡ waiting
      → get_elem? q.promises j.previous ≡ some true
      → (q' : Queue S R) × (step (resume i) q ≡ some q')
  unfolding step wake Option.bind
  resume-some q i j at w due =
      (record q { jobs = set q.jobs i (record j { phase = running j.dispatch }) }, ground arith)

  advance-some :
      (q : Queue S R) (i : ℕ) (j : Job S R) (d : Dispatch S R)
      → get_elem? q.jobs i ≡ some j
      → j.phase ≡ running d
      → (q' : Queue S R) × (step (advance i) q ≡ some q')
  unfolding step Option.bind
  advance-some q i j d at r = (advance_dispatch d i j q, ground arith)

  Front-goes_on :
      (q : Queue S R) (f : Front q.jobs) (ph : Phase S R)
      → q.promises ≡ true ∷ flags q.jobs
      → f.job.previous ≡ f.place
      → f.job.phase ≡ ph
      → CanGoOn q f.place
  Front-goes_on q f waiting p n e =
      let (q', done) = resume-some q f.place f.job f.at e (
        subst (λ ps. get_elem? ps f.job.previous ≡ some true) (sym p)
          (subst (λ m. get_elem? (true ∷ flags q.jobs) m ≡ some true) (sym n) f.due)) in
      (q', inl done)
  Front-goes_on q f (running d) p n e =
      let (q', done) = advance-some q f.place f.job d f.at e in (q', inr done)
  Front-goes_on q f (settled o) p n e = cc (f.open_job)

-- At every point of every interleaving either all calls have settled, or some call can go on,
-- resumed or by its next chunk.
pub never_stuck :
    {S R : Type 0} (s0 : S) (es : List (Event S R)) (q : Queue S R)
    → run es (init s0) ≡ some q
    → AllSettled q.jobs ⊎ ((i : ℕ) × CanGoOn q i)
never_stuck s0 es q e =
    let inv = run-Inv es (init s0) q (Inv-init s0) e in
    elim (front q.jobs) [
      | inl all ↦ inl all
      | inr f ↦ inr (
        f.place,
        Front-goes_on q f f.job.phase inv.promises
            (omega (arith, Numbered-at 0 q.jobs f.place f.job inv.numbered f.at)) refl,
      )
    ]
