-- ===== src/Guestbook/Entries.antt =====
-- What a call of the guestbook's bridge to D1 (deploy/guestbook/worker/index.mjs) does to an entry, beside what the bridge of
-- deploy/worker/index.mjs does.
use akamata.Prelude.{
  ℕ, zero, suc, ◌+◌, ◌≡◌, refl, ap, fun_ext, ◌∙◌, Option, none, some, List, [], ◌∷◌, arith,
  Option-cases, inl, inr, leb, if◌then◌else◌, length, get_elem?,
}
use akamata.Prelude.Numbers.{ℤ, pos, minus}
use akamata.D1.Values.{Value, RawResult, rejected, not_array, array, Bound}
use akamata.D1.Registry.{Row, Statement, Registry, get, stmt_registry_alloc, with_entry, read_entry}
use akamata.D1.Statements.{
  Reply, reply, trap, exec_on, prepare_on, suspending, reset_entry, set_arg, bound, materialise,
  step_entry,
}
use akamata.D1.Statements as Main
use akamata.Guestbook.Statements.{
  Table, change, look, prepare_with, store, bind_arg, query, keep_rows, asked, advance_in, advance,
}

-- the statements of a registry
abbrev pub table_of : {Base Num : Type 0} → Registry Base Num → Table Base Num
table_of r = record { stmts = r.stmts; next_id = r.next_id }

abbrev pub forget : {Base Num A : Type 0} → A × Registry Base Num → A × Table Base Num
forget (a, r) = (a, table_of r)

module _ {Base Num : Type 0} where
  pub change-with_entry :
      {A : Type 0} (h : ℕ) (absent : A) (f : Statement Base Num → A × Statement Base Num)
      (r : Registry Base Num)
      → change h absent f (table_of r) ≡ forget (with_entry h absent f r)
  unfolding change with_entry
  change-with_entry h absent f r = elim (Option-cases (get h r.stmts)) [
    | inl e ↦ ground arith
    | inr (s, e) ↦ ground arith
  ]

  -- two changes of an entry that do the same, and two readings that give the same
  pub change-same :
      {A : Type 0} (h : ℕ) (absent : A) (f g : Statement Base Num → A × Statement Base Num)
      (r : Registry Base Num)
      → ((e : Statement Base Num) → f e ≡ g e)
      → change h absent f (table_of r) ≡ forget (with_entry h absent g r)
  change-same h absent f g r q =
      ap (λ k. change h absent k (table_of r)) (fun_ext q) ∙ change-with_entry h absent g r

  pub look-same :
      {A : Type 0} (h : ℕ) (absent : A) (f g : Statement Base Num → A) (r : Registry Base Num)
      → ((e : Statement Base Num) → f e ≡ g e)
      → look h absent f (table_of r) ≡ read_entry h absent g r
  unfolding look read_entry
  look-same h absent f g r q = ap (λ k. look h absent k (table_of r)) (fun_ext q)

  store-set_arg : (i : ℕ) (v : Value Num) (e : Statement Base Num) → store i v e ≡ set_arg i v e
  unfolding store set_arg
  store-set_arg zero v e = refl
  store-set_arg (suc i) v e = ground arith

  pub bind-same :
      (h i : ℕ) (o : Option (Value Num)) (r : Registry Base Num)
      → bind_arg h i o (table_of r) ≡ forget (Main.bind_value h i o r)
  bind-same h i none r = change-with_entry h _ _ r
  bind-same h i (some v) r =
      change-same h _ _ _ r
        (λ e. ap (λ (e' : Statement Base Num). (reply (pos 0), e')) (store-set_arg i v e))

  bound-same : (base : Base) (args : List (Value Num)) → query base args ≡ bound base args
  unfolding bound
  bound-same base [] = refl
  bound-same base (a ∷ args) = ground arith

  kept-same : (out : RawResult Num) (e : Statement Base Num) → keep_rows out e ≡ materialise out e
  unfolding keep_rows materialise
  kept-same rejected e = refl
  kept-same not_array e = refl
  kept-same (array []) e = refl
  kept-same (array (names ∷ rows)) e = refl

  pub run-same :
      (raw : Bound Base Num → RawResult Num) (e : Statement Base Num)
      → keep_rows (raw (asked e)) e ≡ materialise (raw (bound e.base e.bind_args)) e
  unfolding asked
  run-same raw e =
      ap (λ b. keep_rows (raw b) e) (bound-same e.base e.bind_args)
      ∙ kept-same (raw (bound e.base e.bind_args)) e

  abbrev steps_in : List (Row Num) → Statement Base Num → ℤ × Statement Base Num
  steps_in rows e =
      if leb (length rows) e.cursor
      then (pos 0, record e { current_row = none })
      else (pos 1, record e { current_row = get_elem? rows e.cursor; cursor = e.cursor + 1 })

  abbrev steps : Option (List (Row Num)) → Statement Base Num → ℤ × Statement Base Num
  steps o e = elim o [ none ↦ (minus 1, e) | some rows ↦ steps_in rows e ]

  abbrev advances : Option (List (Row Num)) → Statement Base Num → ℤ × Statement Base Num
  advances o e = elim o [ none ↦ (minus 1, e) | some rows ↦ advance_in rows e ]

  advanced : (o : Option (List (Row Num))) (e : Statement Base Num) → advances o e ≡ steps o e
  advanced none e = refl
  advanced (some rows) e = ground arith

  pub step-same : (e : Statement Base Num) → advance e ≡ step_entry e
  unfolding advance step_entry
  step-same e = advanced e.rows e

  pub prepare-same :
      (o : Option Base) (r : Registry Base Num)
      → prepare_with o (table_of r) ≡ forget (prepare_on o r)
  unfolding prepare_with prepare_on stmt_registry_alloc
  prepare-same none r = refl
  prepare-same (some b) r = refl
