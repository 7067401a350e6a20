-- ===== src/D1/Statements/Handles.antt =====
-- The life of a statement handle (deploy/worker/index.mjs): fresh when it is made, untouched by calls
-- on other handles, and never used again after `d1_finalize`.
use mathlib.Core.Option
use akamata.Prelude.{
  ℕ, ◌<◌, ◌≡◌, ◌≢◌, refl, ap, ◌∙◌, Bool, true, false, Option, none, some, List, [], ◌∷◌, arith,
}
use akamata.Prelude.Numbers.{ℤ, pos}
use akamata.Memory.{Memory, read_string}
use akamata.D1.Values.{Platform, RawResult, Bound, RunMeta, Database}
use akamata.D1.Registry.{Statement, Registry, get, put}
use akamata.D1.Registry.Laws.{get-put, get-remove, get-above, get-below}
use akamata.D1.Statements.{
  fresh, prepare_on, d1_prepare, d1_bind_int64, d1_bind_double, d1_bind_text, d1_bind_blob,
  d1_bind_null, d1_run, d1_step, d1_reset, d1_finalize, exec_on, d1_exec,
}
use akamata.D1.Statements.Effect.{
  IsWellFormed, Effect, Effect-refl, with_entry-Effect, prepare_on-Effect, finalize-Effect,
}

-- One call of the bridge that may change the registry, with what the platform answers.
pub data Call (p : Platform) : Type 0 where
  prepare : Option (Database p.Base p.Num) → Memory → ℕ → ℕ → Call p
  bind_int64 : ℕ → ℕ → ℤ → Call p
  bind_double : ℕ → ℕ → p.Num → Call p
  bind_text bind_blob : Memory → ℕ → ℕ → ℕ → ℕ → Call p
  bind_null : ℕ → ℕ → Call p
  run : Bool → (Bound p.Base p.Num → RawResult p.Num) → ℕ → Call p
  step reset finalize : ℕ → Call p
  exec : Bool → Option (Database p.Base p.Num) → Memory → ℕ → ℕ → Call p

module _ (p : Platform) where
  unfoldable pub perform : Call p → Registry p.Base p.Num → Registry p.Base p.Num
  perform (prepare db m ptr len) r = (d1_prepare db m ptr len r).1
  perform (bind_int64 h idx v) r = (d1_bind_int64 p.number_of h idx v r).1
  perform (bind_double h idx v) r = (d1_bind_double h idx v r).1
  perform (bind_text m h idx ptr len) r = (d1_bind_text m h idx ptr len r).1
  perform (bind_blob m h idx ptr len) r = (d1_bind_blob m h idx ptr len r).1
  perform (bind_null h idx) r = (d1_bind_null h idx r).1
  perform (run jspi raw h) r = (d1_run jspi raw h r).1
  perform (step h) r = (d1_step h r).1
  perform (reset h) r = d1_reset h r
  perform (finalize h) r = d1_finalize h r
  perform (exec jspi db m ptr len) r = (d1_exec p.to_number p.number_of jspi db m ptr len r).1

  unfoldable pub perform_all : List (Call p) → Registry p.Base p.Num → Registry p.Base p.Num
  perform_all [] r = r
  perform_all (c ∷ cs) r = perform_all cs (perform c r)

  -- the handle that the call names
  abbrev pub Names : Call p → ℕ → Type 0
  Names (prepare db m ptr len) k = ⊥
  Names (bind_int64 h idx v) k = h ≡ k
  Names (bind_double h idx v) k = h ≡ k
  Names (bind_text m h idx ptr len) k = h ≡ k
  Names (bind_blob m h idx ptr len) k = h ≡ k
  Names (bind_null h idx) k = h ≡ k
  Names (run jspi raw h) k = h ≡ k
  Names (step h) k = h ≡ k
  Names (reset h) k = h ≡ k
  Names (finalize h) k = h ≡ k
  Names (exec jspi db m ptr len) k = ⊥

module _ (p : Platform) where
  exec-Effect :
      (jspi : Bool) (db : Option (Database p.Base p.Num)) (m : Memory) (ptr len : ℕ)
      (r : Registry p.Base p.Num)
      → Effect (λ k. ⊥) r (d1_exec p.to_number p.number_of jspi db m ptr len r).1
  unfolding d1_exec
  exec-Effect jspi none m ptr len r = Effect-refl _ r
  exec-Effect false (some db) m ptr len r = Effect-refl _ r
  exec-Effect true (some db) m ptr len r =
      exec_on-Effect (Option.bind (Option.bind (read_string m ptr len) db.prepare) db.run)
    where
      exec_on-Effect :
          (o : Option (RunMeta p.Num)) → Effect (λ k. ⊥) r (exec_on p.to_number p.number_of o r).1
      exec_on-Effect none = Effect-refl _ r
      exec_on-Effect (some x) = record {
        formed = λ f. f;
        grows = omega arith;
        keeps = λ k lt n. refl;
        retired = λ k lt e. e;
      }

  pub perform-Effect :
      (c : Call p) (r : Registry p.Base p.Num) → Effect (Names p c) r (perform p c r)
  unfolding perform d1_prepare d1_bind_int64 d1_bind_double d1_bind_text d1_bind_blob d1_bind_null
      d1_run d1_step d1_reset
  perform-Effect (prepare none m ptr len) r = Effect-refl _ r
  perform-Effect (prepare (some db) m ptr len) r =
      prepare_on-Effect (Option.bind (read_string m ptr len) db.prepare) r
  perform-Effect (bind_int64 h idx v) r = with_entry-Effect h _ _ r
  perform-Effect (bind_double h idx v) r = with_entry-Effect h _ _ r
  perform-Effect (bind_text m h idx ptr len) r = with_entry-Effect h _ _ r
  perform-Effect (bind_blob m h idx ptr len) r = with_entry-Effect h _ _ r
  perform-Effect (bind_null h idx) r = with_entry-Effect h _ _ r
  perform-Effect (run false raw h) r = Effect-refl _ r
  perform-Effect (run true raw h) r = with_entry-Effect h _ _ r
  perform-Effect (step h) r = with_entry-Effect h _ _ r
  perform-Effect (reset h) r = with_entry-Effect h _ _ r
  perform-Effect (finalize h) r = finalize-Effect h r
  perform-Effect (exec jspi db m ptr len) r = exec-Effect jspi db m ptr len r

-- In a registry whose keys are below `next_id`, a bridge call leaves the entry of every handle
-- that it does not name as it was, on every branch.
pub perform_frame :
    (p : Platform) (c : Call p) (r : Registry p.Base p.Num) (k : ℕ) (e : Statement p.Base p.Num)
    → IsWellFormed r
    → get k r.stmts ≡ some e
    → ¬ Names p c k
    → get k (perform p c r).stmts ≡ some e
perform_frame p c r k e w g n =
    (perform-Effect p c r).keeps k (get-below r.next_id k r.stmts e w g) n ∙ g

-- If each key of the registry is below `next_id`, this stays so, whatever is called.
pub perform_all-IsWellFormed :
    (p : Platform) (cs : List (Call p)) (r : Registry p.Base p.Num)
    → IsWellFormed r
    → IsWellFormed (perform_all p cs r)
unfolding perform_all
perform_all-IsWellFormed p [] r w = w
perform_all-IsWellFormed p (c ∷ cs) r w =
    perform_all-IsWellFormed p cs (perform p c r) ((perform-Effect p c r).formed w)

stays_retired :
    (p : Platform) (cs : List (Call p)) (r : Registry p.Base p.Num) (k : ℕ)
    → k < r.next_id
    → get k r.stmts ≡ none
    → get k (perform_all p cs r).stmts ≡ none
unfolding perform_all
stays_retired p [] r k lt g = g
stays_retired p (c ∷ cs) r k lt g =
    let x = perform-Effect p c r in
    stays_retired p cs (perform p c r) k (omega (arith, x.grows)) (x.retired k lt g)

-- A handle below `next_id`, as every handle is that was given out, has no entry after it is
-- finalized, whatever calls follow, the `d1_prepare` calls among them included.
pub finalized_for_good :
    (p : Platform) (cs : List (Call p)) (r : Registry p.Base p.Num) (h : ℕ)
    → h < r.next_id
    → get h (perform_all p cs (d1_finalize h r)).stmts ≡ none
unfolding d1_finalize
finalized_for_good p cs r h lt =
    stays_retired p cs (d1_finalize h r) h lt (ground (arith, get-remove h h r.stmts))

-- What a successful preparation means for the registry.
abbrev pub IsFresh : {Base Num : Type 0} → ℕ → Registry Base Num → Registry Base Num → Type 0
IsFresh {Base} id r r' =
    (get id r.stmts ≡ none)
    × ((b : Base) × (get id r'.stmts ≡ some (fresh b)))
    × ((k : ℕ) → k ≢ id → get k r'.stmts ≡ get k r.stmts)

prepare_on-IsFresh :
    {Base Num : Type 0} (o : Option Base) (id : ℕ) (r r' : Registry Base Num)
    → IsWellFormed r
    → prepare_on o r ≡ (pos id, r')
    → IsFresh id r r'
unfolding prepare_on
prepare_on-IsFresh none id r r' w e = cc
prepare_on-IsFresh (some b) id r r' w e =
    let same : r.next_id ≡ id = ground arith in
    let after : put r.next_id (fresh b) r.stmts ≡ r'.stmts =
      cc (ap (λ (x : ℤ × Registry _ _). x.1.stmts) e) in
    (
      get-above r.next_id id r.stmts w (omega arith),
      (b, ground (arith, get-put r.next_id id (fresh b) r.stmts)),
      λ k n. ground (arith, get-put r.next_id k (fresh b) r.stmts),
    )

-- In a registry whose keys are below `next_id`, a statement that `d1_prepare` makes gets a handle
-- with no entry before, its entry is that of a new statement, and every other handle has the entry
-- that it had.
pub d1_prepare-IsFresh :
    {Base Num : Type 0} (db : Option (Database Base Num)) (m : Memory) (ptr len id : ℕ)
    (r r' : Registry Base Num)
    → IsWellFormed r
    → d1_prepare db m ptr len r ≡ (pos id, r')
    → IsFresh id r r'
unfolding d1_prepare
d1_prepare-IsFresh none m ptr len id r r' w e = cc
d1_prepare-IsFresh (some db) m ptr len id r r' w e =
    prepare_on-IsFresh (Option.bind (read_string m ptr len) db.prepare) id r r' w e
