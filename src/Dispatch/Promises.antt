-- ===== src/Dispatch/Promises.antt =====
-- The promises of the lock (deploy/worker/wasm_dispatch.mjs) and the jobs that resolve them.
use akamata.Prelude.{
  ℕ, zero, suc, ◌+◌, ◌≡◌, refl, ap, true, false, some, List, [], ◌∷◌, ◌++◌, arith, length,
  get_elem?,
}
use akamata.Dispatch.{waiting, Job, set}
use akamata.Dispatch.Order.{is_settled, flags, Numbered}

module _ {S R : Type 0} where
  pub flags-set_same :
      (js : List (Job S R)) (i : ℕ) (j j' : Job S R)
      → get_elem? js i ≡ some j
      → is_settled j'.phase ≡ is_settled j.phase
      → flags (set js i j') ≡ flags js
  flags-set_same [] i j j' e h = cc
  flags-set_same (k ∷ js) zero j j' e h = ground arith
  flags-set_same (k ∷ js) (suc i) j j' e h =
      ap (λ fs. is_settled k.phase ∷ fs) (flags-set_same js i j j' e h)

  pub flags-set_settled :
      (js : List (Job S R)) (i : ℕ) (j' : Job S R)
      → is_settled j'.phase ≡ true
      → flags (set js i j') ≡ set (flags js) i true
  flags-set_settled [] i j' h = refl
  flags-set_settled (k ∷ js) zero j' h = rw h
  flags-set_settled (k ∷ js) (suc i) j' h =
      ap (λ fs. is_settled k.phase ∷ fs) (flags-set_settled js i j' h)

  pub flags-append :
      (js : List (Job S R)) (j : Job S R)
      → j.phase ≡ waiting
      → flags (js ++ j ∷ []) ≡ flags js ++ false ∷ []
  flags-append [] j w = rw w
  flags-append (k ∷ js) j w = ap (λ fs. is_settled k.phase ∷ fs) (flags-append js j w)

  pub length-flags : (js : List (Job S R)) → length (flags js) ≡ length js
  length-flags [] = refl
  length-flags (j ∷ js) = ap suc (length-flags js)

  pub length-set : (js : List (Job S R)) (i : ℕ) (j : Job S R) → length (set js i j) ≡ length js
  length-set [] i j = refl
  length-set (k ∷ js) zero j = refl
  length-set (k ∷ js) (suc i) j = ap suc (length-set js i j)

  pub Numbered-at :
      (n : ℕ) (js : List (Job S R)) (i : ℕ) (j : Job S R)
      → Numbered n js
      → get_elem? js i ≡ some j
      → (j.previous ≡ n + i) × (j.own ≡ suc (n + i))
  Numbered-at n [] i j h e = cc
  Numbered-at n (k ∷ js) zero j h e = ground arith
  Numbered-at n (k ∷ js) (suc i) j h e = omega (arith, Numbered-at (suc n) js i j h.2 e)

  pub Numbered-set :
      (n : ℕ) (js : List (Job S R)) (i : ℕ) (j j' : Job S R)
      → Numbered n js
      → get_elem? js i ≡ some j
      → j'.previous ≡ j.previous
      → j'.own ≡ j.own
      → Numbered n (set js i j')
  Numbered-set n [] i j j' h e p q = tt
  Numbered-set n (k ∷ js) zero j j' h e p q = ground arith
  Numbered-set n (k ∷ js) (suc i) j j' h e p q =
      (h.0, h.1, Numbered-set (suc n) js i j j' h.2 e p q)

  pub Numbered-append :
      (n : ℕ) (js : List (Job S R)) (j : Job S R)
      → Numbered n js
      → j.previous ≡ n + length js
      → j.own ≡ suc (n + length js)
      → Numbered n (js ++ j ∷ [])
  Numbered-append n [] j h p q = omega arith
  Numbered-append n (k ∷ js) j h p q =
      (h.0, h.1, Numbered-append (suc n) js j h.2 (omega arith) (omega arith))
