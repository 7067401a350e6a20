-- ===== src/Dispatch/Order.antt =====
-- The jobs in the order of their calls (deploy/worker/wasm_dispatch.mjs): how far each has come, and
-- what the shared state is then.
use akamata.Prelude.{
  ℕ, zero, suc, ◌≡◌, ◌≢◌, refl, ap, subst, Bool, true, false, some, List, [], ◌∷◌, ◌++◌, arith,
  get_elem?,
}
use akamata.Dispatch.{Outcome, Dispatch, finish, chunk, Phase, waiting, running, settled, Job, set}

module _ {S R : Type 0} where
  -- A dispatch run from its start to its end with nothing between.
  unfoldable pub exec : Dispatch S R → S → S × Outcome R
  exec (finish o) s = (s, o)
  exec (chunk f next) s = exec (next s) (f s)

  abbrev pub is_settled : Phase S R → Bool
  is_settled (settled o) = true
  is_settled _ = false

  abbrev pub flags : List (Job S R) → List Bool
  flags [] = []
  flags (j ∷ js) = is_settled j.phase ∷ flags js

  abbrev pub AllWaiting : List (Job S R) → Type 0
  AllWaiting [] = Unit
  AllWaiting (j ∷ js) = (j.phase ≡ waiting) × AllWaiting js

  abbrev pub SerialAt : Phase S R → S → Dispatch S R → (S → Type 0) → Type 0 → S → Type 0
  SerialAt waiting s0 d after quiet s = (s0 ≡ s) × quiet
  SerialAt (running r) s0 d after quiet s = (exec r s ≡ exec d s0) × quiet
  SerialAt (settled o) s0 d after quiet s = (o ≡ (exec d s0).1) × after (exec d s0).0

  -- The jobs in the order of their calls: those that are settled ran one after the other from `s0`,
  -- at most the next one is running, and all after it wait.
  abbrev pub Serial : S → List (Job S R) → S → Type 0
  Serial s0 [] s = s0 ≡ s
  Serial s0 (j ∷ js) s = SerialAt j.phase s0 j.dispatch (λ s1. Serial s1 js s) (AllWaiting js) s

  -- Job `k` of the list awaits promise `n + k` and resolves promise `n + k + 1`.
  abbrev pub Numbered : ℕ → List (Job S R) → Type 0
  Numbered n [] = Unit
  Numbered n (j ∷ js) = (j.previous ≡ n) × (j.own ≡ suc n) × Numbered (suc n) js

  Serial-AllWaiting : (s : S) (js : List (Job S R)) → AllWaiting js → Serial s js s
  Serial-AllWaiting s [] h = refl
  Serial-AllWaiting s (j ∷ js) h = rw (h.0) (refl, h.1)

  pub flags_off :
      (js : List (Job S R)) (i : ℕ) → AllWaiting js → get_elem? (false ∷ flags js) i ≢ some true
  flags_off js zero h e = cc
  flags_off [] (suc i) h e = cc
  flags_off (j ∷ js) (suc i) h e = flags_off js i h.1 (rw (← ap is_settled h.0) e)

  pub AllWaiting-waiting :
      (js : List (Job S R)) (i : ℕ) (j : Job S R)
      → AllWaiting js
      → get_elem? js i ≡ some j
      → j.phase ≡ waiting
  AllWaiting-waiting [] i j h e = cc
  AllWaiting-waiting (k ∷ js) zero j h e = ground arith
  AllWaiting-waiting (k ∷ js) (suc i) j h e = AllWaiting-waiting js i j h.1 e

  -- A change behind the job `ph` is seen only if that job is settled.
  SerialAt-map :
      (ph : Phase S R) (s0 : S) (d : Dispatch S R) (js : List (Job S R)) (quiet' : Type 0)
      (after after' : S → Type 0) (s s' : S)
      → (is_settled ph ≡ false → AllWaiting js → ⊥)
      → (is_settled ph ≡ true → (s1 : S) → after s1 → after' s1)
      → SerialAt ph s0 d after (AllWaiting js) s
      → SerialAt ph s0 d after' quiet' s'
  SerialAt-map waiting s0 d js quiet' after after' s s' off f h = absurd (off refl h.1)
  SerialAt-map (running r) s0 d js quiet' after after' s s' off f h = absurd (off refl h.1)
  SerialAt-map (settled o) s0 d js quiet' after after' s s' off f h = (h.0, f refl _ h.1)

  flags_off_behind :
      (b : Bool) (js : List (Job S R)) (i : ℕ)
      → get_elem? (b ∷ flags js) i ≡ some true
      → b ≡ false
      → AllWaiting js
      → ⊥
  flags_off_behind b js i p off h = flags_off js i h (rw (← off) p)

  flags_on_behind :
      (b : Bool) (js : List (Job S R)) (i : ℕ)
      → get_elem? (b ∷ flags js) i ≡ some true
      → b ≡ true
      → get_elem? (true ∷ flags js) i ≡ some true
  flags_on_behind b js i p on = subst (λ c. get_elem? (c ∷ flags js) i ≡ some true) on p

  pub resume-Serial :
      (js : List (Job S R)) (i : ℕ) (j : Job S R) (s0 s : S)
      → get_elem? js i ≡ some j
      → j.phase ≡ waiting
      → get_elem? (true ∷ flags js) i ≡ some true
      → Serial s0 js s
      → Serial s0 (set js i (record j { phase = running j.dispatch })) s
  resume-Serial [] i j s0 s e w p h = cc
  resume-Serial (k ∷ js) zero j s0 s e w p h = ground arith
  resume-Serial (k ∷ js) (suc i) j s0 s e w p h =
      SerialAt-map k.phase s0 k.dispatch js _ _ _ s s (flags_off_behind _ js i p)
        (λ on s1 a. resume-Serial js i j s1 s e w (flags_on_behind _ js i p on) a) h

  running_off :
      (js : List (Job S R)) (i : ℕ) (j : Job S R) (d : Dispatch S R)
      → get_elem? js i ≡ some j
      → j.phase ≡ running d
      → AllWaiting js
      → ⊥
  running_off js i j d e r h = cc (AllWaiting-waiting js i j h e)

  pub chunk-Serial :
      (js : List (Job S R)) (i : ℕ) (j : Job S R) (f : S → S) (next : S → Dispatch S R) (s0 s : S)
      → get_elem? js i ≡ some j
      → j.phase ≡ running (chunk f next)
      → Serial s0 js s
      → Serial s0 (set js i (record j { phase = running (next s) })) (f s)
  unfolding exec
  chunk-Serial [] i j f next s0 s e r h = cc
  chunk-Serial (k ∷ js) zero j f next s0 s e r h = ground arith
  chunk-Serial (k ∷ js) (suc i) j f next s0 s e r h =
      SerialAt-map k.phase s0 k.dispatch js _ _ _ s (f s) (λ _. running_off js i j _ e r)
        (λ _ s1 a. chunk-Serial js i j f next s1 s e r a) h

  finish-Serial_head :
      (js : List (Job S R)) (d : Dispatch S R) (o : Outcome R) (s0 s : S)
      → (exec (finish o) s ≡ exec d s0) × AllWaiting js
      → (o ≡ (exec d s0).1) × Serial (exec d s0).0 js s
  unfolding exec
  finish-Serial_head js d o s0 s h = (
    ap (λ (r : S × Outcome R). r.1) h.0,
    subst (λ s1. Serial s1 js s) (ap (λ (r : S × Outcome R). r.0) h.0) (Serial-AllWaiting s js h.1),
  )

  pub finish-Serial :
      (js : List (Job S R)) (i : ℕ) (j : Job S R) (o : Outcome R) (s0 s : S)
      → get_elem? js i ≡ some j
      → j.phase ≡ running (finish o)
      → Serial s0 js s
      → Serial s0 (set js i (record j { phase = settled o })) s
  finish-Serial [] i j o s0 s e r h = cc
  finish-Serial (k ∷ js) zero j o s0 s e r h =
      finish-Serial_head js j.dispatch o s0 s (ground arith)
  finish-Serial (k ∷ js) (suc i) j o s0 s e r h =
      SerialAt-map k.phase s0 k.dispatch js _ _ _ s s (λ _. running_off js i j _ e r)
        (λ _ s1 a. finish-Serial js i j o s1 s e r a) h

  AllWaiting-append :
      (js : List (Job S R)) (j : Job S R)
      → j.phase ≡ waiting
      → AllWaiting js
      → AllWaiting (js ++ j ∷ [])
  AllWaiting-append [] j w h = (w, tt)
  AllWaiting-append (k ∷ js) j w h = (h.0, AllWaiting-append js j w h.1)

  SerialAt-append :
      (ph : Phase S R) (s0 : S) (d : Dispatch S R) (quiet quiet' : Type 0)
      (after after' : S → Type 0) (s : S)
      → (quiet → quiet')
      → ((s1 : S) → after s1 → after' s1)
      → SerialAt ph s0 d after quiet s
      → SerialAt ph s0 d after' quiet' s
  SerialAt-append waiting s0 d quiet quiet' after after' s f g h = (h.0, f h.1)
  SerialAt-append (running r) s0 d quiet quiet' after after' s f g h = (h.0, f h.1)
  SerialAt-append (settled o) s0 d quiet quiet' after after' s f g h = (h.0, g _ h.1)

  pub call-Serial :
      (js : List (Job S R)) (j : Job S R) (s0 s : S)
      → j.phase ≡ waiting
      → Serial s0 js s
      → Serial s0 (js ++ j ∷ []) s
  call-Serial [] j s0 s w h = ground arith
  call-Serial (k ∷ js) j s0 s w h =
      SerialAt-append k.phase s0 k.dispatch _ _ _ _ s (AllWaiting-append js j w)
        (λ s1 a. call-Serial js j s1 s w a) h
