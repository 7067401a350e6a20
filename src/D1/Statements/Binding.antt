-- ===== src/D1/Statements/Binding.antt =====
-- Binding arguments to a statement (deploy/worker/index.mjs), and what the database is then asked.
use mathlib.Core.Option
use akamata.Prelude.{
  ℕ, zero, suc, ◌≡◌, refl, sym, ap, ◌∙◌, true, Option, none, some, List, [], ◌∷◌, ◌++◌, map,
  append_assoc, append-nil, arith, length, get_elem?, length-append, get_elem?-past, ltb,
  if◌then◌else◌, ◌==◌,
}
use akamata.Prelude.Numbers.{ℤ, pos, minus}
use akamata.Memory.{Memory, read_bytes, read_string}
use akamata.D1.Values.{
  Value, missing, null, number, string, bytes, Platform, RawResult, rejected, not_array, array,
  Bound, plain, with_args,
}
use akamata.D1.Registry.{Row, Statement, Registry, get, put}
use akamata.D1.Registry.Laws.{get-put, with_entry-some}
use akamata.D1.Statements.{
  Reply, reply, write_arg, set_arg, bind_value, d1_bind_int64, d1_bind_double, d1_bind_text,
  d1_bind_blob, d1_bind_null, bound, materialise, d1_run, d1_reset, d1_step, reset_entry,
  step_entry,
}
use akamata.D1.Statements.Cursor.{drain, run-drain}

-- One bind call, without its handle and index.
pub data Arg (Num : Type 0) : Type 0 where
  int64 : ℤ → Arg Num
  double : Num → Arg Num
  text blob : ℕ → ℕ → Arg Num
  null_arg : Arg Num

module _ {Num : Type 0} where
  -- A write leaves the other positions alone; a position that is skipped is a hole.
  pub get_elem?-write_arg :
      (args : List (Value Num)) (i j : ℕ) (v : Value Num)
      → get_elem? (write_arg args i v) j ≡ (
          if i == j
          then some v
          else if ltb j (length args)
          then get_elem? args j
          else if ltb j i
          then some missing
          else none)
  unfolding write_arg
  get_elem?-write_arg [] zero zero v = ground arith
  get_elem?-write_arg [] zero (suc j) v = ground arith
  get_elem?-write_arg [] (suc i) zero v = ground arith
  get_elem?-write_arg [] (suc i) (suc j) v = ground (arith, get_elem?-write_arg [] i j v)
  get_elem?-write_arg (a ∷ args) zero zero v = ground arith
  get_elem?-write_arg (a ∷ args) zero (suc j) v = ground (arith, get_elem?-past args j)
  get_elem?-write_arg (a ∷ args) (suc i) zero v = ground arith
  get_elem?-write_arg (a ∷ args) (suc i) (suc j) v = ground (arith, get_elem?-write_arg args i j v)

  write_arg-end :
      (args : List (Value Num)) (v : Value Num) → write_arg args (length args) v ≡ args ++ v ∷ []
  unfolding write_arg
  write_arg-end [] v = refl
  write_arg-end (a ∷ args) v = ap (λ rest. a ∷ rest) (write_arg-end args v)

module _ (p : Platform) (m : Memory) where
  unfoldable pub bind_one :
      ℕ → ℕ → Arg p.Num → Registry p.Base p.Num → Reply ℤ × Registry p.Base p.Num
  unfolding d1_bind_int64 d1_bind_double d1_bind_text d1_bind_blob d1_bind_null
  bind_one h idx (int64 v) r = d1_bind_int64 p.number_of h idx v r
  bind_one h idx (double v) r = d1_bind_double h idx v r
  bind_one h idx (text ptr len) r = d1_bind_text m h idx ptr len r
  bind_one h idx (blob ptr len) r = d1_bind_blob m h idx ptr len r
  bind_one h idx null_arg r = d1_bind_null h idx r

  -- the value that an argument stands for; `none` where its bytes are out of bounds
  abbrev pub value_of : Arg p.Num → Option (Value p.Num)
  value_of (int64 v) = some (number (p.number_of v))
  value_of (double v) = some (number v)
  value_of (text ptr len) = Option.map string (read_string m ptr len)
  value_of (blob ptr len) = Option.map bytes (read_bytes m ptr len)
  value_of null_arg = some null

  -- Positions `idx`, `idx + 1`, … in their order, as the Zig side binds them.
  unfoldable pub bind_all : ℕ → ℕ → List (Arg p.Num) → Registry p.Base p.Num → Registry p.Base p.Num
  bind_all h idx [] r = r
  bind_all h idx (a ∷ args) r = bind_all h (suc idx) args (bind_one h idx a r).1

  bind_value-eq :
      (h idx : ℕ) (read : Option (Value p.Num)) (v : Value p.Num) (e : Statement p.Base p.Num)
      (r : Registry p.Base p.Num)
      → get h r.stmts ≡ some e
      → read ≡ some v
      → bind_value h idx read r
        ≡ (reply (pos 0), record r { stmts = put h (set_arg idx v e) r.stmts })
  bind_value-eq h idx read v e r g q =
      rw q (with_entry-some h (reply (minus 1)) r (λ e'. (reply (pos 0), set_arg idx v e')) e g)

  pub bind_one-eq :
      (h idx : ℕ) (a : Arg p.Num) (v : Value p.Num) (e : Statement p.Base p.Num)
      (r : Registry p.Base p.Num)
      → get h r.stmts ≡ some e
      → value_of a ≡ some v
      → bind_one h idx a r ≡ (reply (pos 0), record r { stmts = put h (set_arg idx v e) r.stmts })
  unfolding bind_one
  bind_one-eq h idx (int64 x) v e r g q = bind_value-eq h idx _ v e r g q
  bind_one-eq h idx (double x) v e r g q = bind_value-eq h idx _ v e r g q
  bind_one-eq h idx (text ptr len) v e r g q = bind_value-eq h idx _ v e r g q
  bind_one-eq h idx (blob ptr len) v e r g q = bind_value-eq h idx _ v e r g q
  bind_one-eq h idx null_arg v e r g q = bind_value-eq h idx _ v e r g q

  -- the values of arguments that can all be read
  abbrev pub HasValues : List (Arg p.Num) → List (Value p.Num) → Type 0
  HasValues [] [] = Unit
  HasValues (a ∷ args) (v ∷ vs) = (value_of a ≡ some v) × HasValues args vs
  HasValues _ _ = ⊥

  abbrev pub with_args_of : Statement p.Base p.Num → List (Value p.Num) → Statement p.Base p.Num
  with_args_of e vs = record e { bind_args = vs }

  -- the entry with one more argument at the end
  abbrev grown : Statement p.Base p.Num → Value p.Num → Statement p.Base p.Num
  grown e v = with_args_of e (e.bind_args ++ v ∷ [])

  bind_one-end :
      (h : ℕ) (a : Arg p.Num) (v : Value p.Num) (e : Statement p.Base p.Num)
      (r : Registry p.Base p.Num)
      → get h r.stmts ≡ some e
      → value_of a ≡ some v
      → bind_one h (suc (length e.bind_args)) a r
        ≡ (reply (pos 0), record r { stmts = put h (grown e v) r.stmts })
  unfolding set_arg
  bind_one-end h a v e r g q =
      bind_one-eq h (suc (length e.bind_args)) a v e r g q
      ∙ ap (λ ws. (reply (pos 0), record r { stmts = put h (with_args_of e ws) r.stmts }))
          (write_arg-end e.bind_args v)

  bind_all-eq :
      (h : ℕ) (args : List (Arg p.Num)) (vs : List (Value p.Num)) (e : Statement p.Base p.Num)
      (r : Registry p.Base p.Num)
      → get h r.stmts ≡ some e
      → HasValues args vs
      → get h (bind_all h (suc (length e.bind_args)) args r).stmts
        ≡ some (with_args_of e (e.bind_args ++ vs))
  unfolding bind_all
  bind_all-eq h [] [] e r g q =
      g ∙ ap (λ ws. some (with_args_of e ws)) (sym (append-nil e.bind_args))
  bind_all-eq h [] (v ∷ vs) e r g q = absurd q
  bind_all-eq h (a ∷ args) [] e r g q = absurd q
  bind_all-eq h (a ∷ args) (v ∷ vs) e r g q =
      ap (λ n. get h (bind_all h (suc n) args (bind_one h (suc (length e.bind_args)) a r).1).stmts)
        (omega (arith, length-append {0} e.bind_args (v ∷ [])))
      ∙ ap
          (λ (x : Reply ℤ × Registry p.Base p.Num).
            get h (bind_all h (suc (length (grown e v).bind_args)) args x.1).stmts)
          (bind_one-end h a v e r g q.0)
      ∙ bind_all-eq h args vs (grown e v) (record r { stmts = put h (grown e v) r.stmts })
          (ground (arith, get-put h h (grown e v) r.stmts)) q.1
      ∙ ap (λ ws. some (with_args_of e ws)) (append_assoc e.bind_args (v ∷ []) vs)

-- What the database is asked: the statement as it was prepared, if there is nothing to bind, and else the statement with the
-- values.
abbrev pub IsAsked : {Base Num : Type 0} → Base → List (Value Num) → Bound Base Num → Type 0
IsAsked base [] asked = asked ≡ plain base
IsAsked base (v ∷ vs) asked = asked ≡ with_args base (v ∷ vs)

bound-IsAsked :
    {Base Num : Type 0} (base : Base) (vs : List (Value Num)) → IsAsked base vs (bound base vs)
unfolding bound
bound-IsAsked base [] = refl
bound-IsAsked base (v ∷ vs) = refl

-- What the instance is told of the answer: the number of the rows behind the row of names
abbrev pub told : {Num : Type 0} → RawResult Num → ℤ
told rejected = minus 4
told (array (names ∷ rows)) = pos (length rows)
told _ = pos 0

materialise-told :
    {Base Num : Type 0} (x : RawResult Num) (e : Statement Base Num) → (materialise x e).0 ≡ told x
unfolding materialise
materialise-told rejected e = refl
materialise-told not_array e = refl
materialise-told (array []) e = refl
materialise-told (array (names ∷ rows)) e = refl

-- Binding arguments at 1, 2, … to a statement without arguments and then running it asks the
-- database for the statement with exactly these values in this order, if their bytes can be read.
-- Without arguments the statement is run as it was prepared. The code is -4 if the database rejects, and else the number
-- of the rows in its answer.
pub bind_all-run :
    (p : Platform) (m : Memory) (raw : Bound p.Base p.Num → RawResult p.Num) (h : ℕ)
    (args : List (Arg p.Num)) (vs : List (Value p.Num)) (e : Statement p.Base p.Num)
    (r : Registry p.Base p.Num)
    → get h r.stmts ≡ some e
    → e.bind_args ≡ []
    → HasValues p m args vs
    → (asked : Bound p.Base p.Num) × IsAsked e.base vs asked
      × ((d1_run true raw h (bind_all p m h 1 args r)).0 ≡ told (raw asked))
unfolding d1_run
bind_all-run p m raw h args vs e r g z q =
    let found : get h (bind_all p m h 1 args r).stmts ≡ some (with_args_of p m e vs) =
      ap (λ ws. get h (bind_all p m h (suc (length ws)) args r).stmts) (sym z)
      ∙ bind_all-eq p m h args vs e r g q
      ∙ ap (λ ws. some (with_args_of p m e (ws ++ vs))) z in
    (
      bound e.base vs,
      bound-IsAsked e.base vs,
      ap (λ (x : ℤ × Registry p.Base p.Num). x.0)
            (with_entry-some h (minus 1) (bind_all p m h 1 args r)
              (λ e'. materialise (raw (bound e'.base e'.bind_args)) e') (with_args_of p m e vs)
              found)
          ∙ materialise-told (raw (bound e.base vs)) (with_args_of p m e vs),
    )

module _ {Base Num : Type 0} (h : ℕ) (e : Statement Base Num) (r : Registry Base Num)
    (g : get h r.stmts ≡ some e) where
  reset-eq : d1_reset h r ≡ record r { stmts = put h (reset_entry e) r.stmts }
  unfolding d1_reset
  reset-eq =
      ap (λ (x : Unit {0} × Registry Base Num). x.1)
        (with_entry-some h tt r (λ e'. (tt, reset_entry e')) e g)

  found-reset : get h (d1_reset h r).stmts ≡ some (reset_entry e)
  found-reset = rw reset-eq (ground (arith, get-put h h (reset_entry e) r.stmts))

  step-reset : (d1_step h (d1_reset h r)).0 ≡ minus 1
  unfolding d1_step step_entry
  step-reset =
      ap (λ (x : ℤ × Registry Base Num). x.0)
        (with_entry-some h (minus 1) (d1_reset h r) step_entry (reset_entry e) found-reset)

-- After `d1_reset`, wherever the cursor was, stepping is refused until the statement is run again;
-- the run asks the database with the arguments bound before, and all rows are given again.
pub reset-run-drain :
    {Base Num : Type 0} (raw : Bound Base Num → RawResult Num) (h : ℕ) (names : Row Num)
    (rows : List (Row Num)) (e : Statement Base Num) (r : Registry Base Num)
    → get h r.stmts ≡ some e
    → raw (bound e.base e.bind_args) ≡ array (names ∷ rows)
    → ((d1_step h (d1_reset h r)).0 ≡ minus 1)
      × (drain (suc (length rows)) h (d1_run true raw h (d1_reset h r)).1 ≡ map some rows)
reset-run-drain raw h names rows e r g a = (
  step-reset h e r g,
  (run-drain raw h names rows (reset_entry e) (d1_reset h r) (found-reset h e r g) a).1,
)
