-- ===== src/D1/Statements/Effect.antt =====
-- What one bridge call does to the registry (deploy/worker/index.mjs), seen from any handle.
use akamata.Prelude.{ℕ, ◌+◌, ◌<◌, ◌≤◌, ◌≡◌, refl, Option, none, some, arith, inl, inr, Option-cases}
use akamata.D1.Registry.{Statement, Registry, get, with_entry}
use akamata.D1.Registry.Laws.{
  get-put, get-remove, KeysBelow, KeysBelow-put, KeysBelow-remove, KeysBelow-weaken, get-below,
}
use akamata.D1.Statements.{fresh, prepare_on, d1_finalize}

abbrev pub IsWellFormed : {Base Num : Type 0} → Registry Base Num → Type 0
IsWellFormed r = KeysBelow r.next_id r.stmts

-- What one call does to the registry `r`, seen from handle `k`: handles are only added at
-- `next_id`, and the entry of `k` is left alone unless the call names `k`.
pub record Effect {Base Num : Type 0} (named : ℕ → Type 0) (r r' : Registry Base Num) : Type 0 where
  pub formed : IsWellFormed r → IsWellFormed r'
  pub grows : r.next_id ≤ r'.next_id
  pub keeps : (k : ℕ) → k < r.next_id → ¬ named k → get k r'.stmts ≡ get k r.stmts
  pub retired : (k : ℕ) → k < r.next_id → get k r.stmts ≡ none → get k r'.stmts ≡ none

module _ {Base Num : Type 0} where
  pub Effect-refl : (named : ℕ → Type 0) (r : Registry Base Num) → Effect named r r
  Effect-refl named r = record {
    formed = λ f. f;
    grows = omega arith;
    keeps = λ k lt n. refl;
    retired = λ k lt e. e;
  }

  pub with_entry-Effect :
      {A : Type 0} (h : ℕ) (absent : A) (f : Statement Base Num → A × Statement Base Num)
      (r : Registry Base Num)
      → Effect (λ k. h ≡ k) r (with_entry h absent f r).1
  unfolding with_entry
  with_entry-Effect h absent f r = elim (Option-cases (get h r.stmts)) [
    | inl e ↦ rw (e, with_entry) (Effect-refl (λ k. h ≡ k) r)
    | inr (s, e) ↦
        rw (e, with_entry)
          (record {
            formed = λ w.
                KeysBelow-put r.next_id h (f s).1 r.stmts (get-below r.next_id h r.stmts s w e) w;
            grows = omega arith;
            keeps = λ k lt n. ground (arith, get-put h k (f s).1 r.stmts);
            retired = λ k lt g. ground (arith, get-put h k (f s).1 r.stmts);
          })
  ]

  pub prepare_on-Effect :
      (b : Option Base) (r : Registry Base Num) → Effect (λ k. ⊥) r (prepare_on b r).1
  unfolding prepare_on
  prepare_on-Effect none r = Effect-refl _ r
  prepare_on-Effect (some b) r = record {
    formed = λ w.
        KeysBelow-put (r.next_id + 1) r.next_id (fresh b) r.stmts (omega arith)
          (KeysBelow-weaken r.next_id (r.next_id + 1) r.stmts (omega arith) w);
    grows = omega arith;
    keeps = λ k lt n. ground (arith, get-put r.next_id k (fresh b) r.stmts);
    retired = λ k lt g. ground (arith, get-put r.next_id k (fresh b) r.stmts);
  }

  pub finalize-Effect : (h : ℕ) (r : Registry Base Num) → Effect (λ k. h ≡ k) r (d1_finalize h r)
  unfolding d1_finalize
  finalize-Effect h r = record {
    formed = λ w. KeysBelow-remove r.next_id h r.stmts w;
    grows = omega arith;
    keeps = λ k lt n. ground (arith, get-remove h k r.stmts);
    retired = λ k lt g. ground (arith, get-remove h k r.stmts);
  }
