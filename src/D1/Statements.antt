-- ===== src/D1/Statements.antt =====
-- deploy/worker/index.mjs: `d1_prepare`, the binds, `d1_run`, `d1_step`, `d1_reset`, `d1_finalize`,
-- `d1_exec` and its results. The registry is passed on explicitly. Each bridge call is one step: the
-- lock of Dispatch keeps other dispatches away while `d1_run` or `d1_exec` awaits the database.
pub mod Effect
pub mod Handles
pub mod Cursor
pub mod Binding
use mathlib.Core.Option
use akamata.Prelude.{
  ℕ, zero, suc, ◌+◌, Bool, Option, none, some, List, [], ◌∷◌, leb, if◌then◌else◌, length, get_elem?,
}
use akamata.Prelude.Numbers.{ℤ, pos, minus}
use akamata.Memory.{Memory, read_bytes, read_string}
use akamata.D1.Values.{
  Value, missing, null, number, string, bytes, Platform, RawResult, rejected, not_array, array,
  Bound, plain, with_args, RunMeta, Database,
}
use akamata.D1.Registry.{
  Row, Statement, Meta, Registry, get, put, remove, stmt_registry_alloc, with_entry, read_entry,
}

-- A bridge call returns, or throws into the wasm instance.
pub data Reply (A : Type 0) : Type 0 where
  reply : A → Reply A
  trap : Reply A

-- `suspending(fn)`: without JSPI every such import is the sentinel -2.
unfoldable pub suspending : {S : Type 0} → Bool → (S → ℤ × S) → S → ℤ × S
suspending jspi fn s = if jspi then fn s else (minus 2, s)

module _ {Num : Type 0} where
  -- `args[i] = v` on an array: what is skipped is a hole
  unfoldable pub write_arg : List (Value Num) → ℕ → Value Num → List (Value Num)
  write_arg [] zero v = v ∷ []
  write_arg [] (suc i) v = missing ∷ write_arg [] i v
  write_arg (a ∷ args) zero v = v ∷ args
  write_arg (a ∷ args) (suc i) v = a ∷ write_arg args i v

  -- `a ?? b`
  abbrev pub coalesce : Value Num → Value Num → Value Num
  coalesce missing b = b
  coalesce null b = b
  coalesce a b = a

  module _ (p_number : Value Num → Num) (number_of : ℤ → Num) where
    abbrev pub meta_of : RunMeta Num → Meta Num
    meta_of x = record {
      changes =
          p_number (coalesce (coalesce x.changes x.rows_written) (number (number_of (pos 0))));
      last_row_id = p_number (coalesce x.last_row_id (number (number_of (minus 1))));
    }

-- `BigInt` of a number throws on what is no integer.
abbrev pub or_trap : Option ℤ → Reply ℤ
or_trap none = trap
or_trap (some n) = reply n

module _ {Base Num : Type 0} where
  abbrev pub fresh : Base → Statement Base Num
  fresh b = record {
    base = b;
    bind_args = [];
    rows = none;
    cursor = 0;
    current_row = none;
    column_names = none;
  }

  unfoldable pub prepare_on : Option Base → Registry Base Num → ℤ × Registry Base Num
  unfolding stmt_registry_alloc
  prepare_on none r = (minus 3, r)
  prepare_on (some b) r =
      (pos (stmt_registry_alloc (fresh b) r).0, (stmt_registry_alloc (fresh b) r).1)

  unfoldable pub d1_prepare :
      Option (Database Base Num) → Memory → ℕ → ℕ → Registry Base Num → ℤ × Registry Base Num
  unfolding prepare_on
  d1_prepare none m sql_ptr sql_len r = (minus 2, r)
  d1_prepare (some db) m sql_ptr sql_len r =
      prepare_on (Option.bind (read_string m sql_ptr sql_len) db.prepare) r

  -- `e.bindArgs[idx - 1] = v`: at index 0 this makes a property "-1" that `...` does not spread
  unfoldable pub set_arg : ℕ → Value Num → Statement Base Num → Statement Base Num
  unfolding write_arg
  set_arg zero v e = e
  set_arg (suc i) v e = record e { bind_args = write_arg e.bind_args i v }

  abbrev pub bind_value :
      ℕ → ℕ → Option (Value Num) → Registry Base Num → Reply ℤ × Registry Base Num
  bind_value h idx read r =
      with_entry h (reply (minus 1))
        (λ e. elim read [ none ↦ (trap, e) | some v ↦ (reply (pos 0), set_arg idx v e) ]) r

  unfoldable pub d1_bind_int64 :
      (ℤ → Num) → ℕ → ℕ → ℤ → Registry Base Num → Reply ℤ × Registry Base Num
  unfolding with_entry set_arg
  d1_bind_int64 number_of h idx val r = bind_value h idx (some (number (number_of val))) r

  unfoldable pub d1_bind_double : ℕ → ℕ → Num → Registry Base Num → Reply ℤ × Registry Base Num
  unfolding with_entry set_arg
  d1_bind_double h idx val r = bind_value h idx (some (number val)) r

  unfoldable pub d1_bind_text :
      Memory → ℕ → ℕ → ℕ → ℕ → Registry Base Num → Reply ℤ × Registry Base Num
  unfolding with_entry set_arg
  d1_bind_text m h idx ptr len r = bind_value h idx (Option.map string (read_string m ptr len)) r

  unfoldable pub d1_bind_blob :
      Memory → ℕ → ℕ → ℕ → ℕ → Registry Base Num → Reply ℤ × Registry Base Num
  unfolding with_entry set_arg
  d1_bind_blob m h idx ptr len r = bind_value h idx (Option.map bytes (read_bytes m ptr len)) r

  unfoldable pub d1_bind_null : ℕ → ℕ → Registry Base Num → Reply ℤ × Registry Base Num
  unfolding with_entry set_arg
  d1_bind_null h idx r = bind_value h idx (some null) r

  unfoldable pub bound : Base → List (Value Num) → Bound Base Num
  bound b [] = plain b
  bound b (a ∷ args) = with_args b (a ∷ args)

  -- The rows of the answer replace those of the entry; a failed query leaves the entry alone.
  unfoldable pub materialise : RawResult Num → Statement Base Num → ℤ × Statement Base Num
  materialise rejected e = (minus 4, e)
  materialise (array (names ∷ rows)) e =
      (pos (length rows), record e { column_names = some names; rows = some rows; cursor = 0 })
  materialise _ e = (pos 0, record e { column_names = some []; rows = some []; cursor = 0 })

  unfoldable pub d1_run :
      Bool → (Bound Base Num → RawResult Num) → ℕ → Registry Base Num → ℤ × Registry Base Num
  unfolding suspending with_entry materialise bound
  d1_run jspi raw h r =
      suspending jspi (with_entry h (minus 1) (λ e. materialise (raw (bound e.base e.bind_args)) e))
        r

  unfoldable pub step_entry : Statement Base Num → ℤ × Statement Base Num
  step_entry e = elim e.rows [
    | none ↦ (minus 1, e)
    | some rows ↦
        if leb (length rows) e.cursor
        then (pos 0, record e { current_row = none })
        else (pos 1, record e { current_row = get_elem? rows e.cursor; cursor = e.cursor + 1 })
  ]

  unfoldable pub d1_step : ℕ → Registry Base Num → ℤ × Registry Base Num
  unfolding with_entry step_entry
  d1_step h r = with_entry h (minus 1) step_entry r

  abbrev pub reset_entry : Statement Base Num → Statement Base Num
  reset_entry e = record e { rows = none; cursor = 0; current_row = none }

  unfoldable pub d1_reset : ℕ → Registry Base Num → Registry Base Num
  unfolding with_entry
  d1_reset h r = (with_entry h tt (λ e. (tt, reset_entry e)) r).1

  unfoldable pub d1_finalize : ℕ → Registry Base Num → Registry Base Num
  unfolding remove
  d1_finalize h r = record r { stmts = remove h r.stmts }

  module _ (p_number : Value Num → Num) (number_of : ℤ → Num) where
    unfoldable pub exec_on : Option (RunMeta Num) → Registry Base Num → ℤ × Registry Base Num
    exec_on none r = (minus 3, r)
    exec_on (some x) r = (pos 0, record r { last_meta = meta_of p_number number_of x })

    unfoldable pub d1_exec :
        Bool
        → Option (Database Base Num)
        → Memory
        → ℕ
        → ℕ
        → Registry Base Num
        → ℤ × Registry Base Num
    unfolding suspending exec_on
    d1_exec jspi d1 m sql_ptr sql_len r = elim d1 [
      | none ↦ (minus 2, r)
      | some db ↦
          suspending jspi
            (exec_on (Option.bind (Option.bind (read_string m sql_ptr sql_len) db.prepare) db.run))
            r
    ]

  unfoldable pub d1_affected_rows : (Num → Option ℤ) → Registry Base Num → Reply ℤ
  d1_affected_rows to_bigint r = or_trap (to_bigint r.last_meta.changes)

  unfoldable pub d1_last_insert_id : (Num → Option ℤ) → Registry Base Num → Reply ℤ
  d1_last_insert_id to_bigint r = or_trap (to_bigint r.last_meta.last_row_id)
