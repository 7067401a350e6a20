-- ===== src/Guestbook/Statements.antt =====
-- The D1 bridge of deploy/guestbook/worker/index.mjs. It keeps the statements, but nothing of what `run()` reports.
use mathlib.Core.Option
use akamata.Prelude.{
  ℕ, ◌+◌, ◌-◌, Bool, Option, none, some, List, [], ◌∷◌, ◌==◌, ltb, if◌then◌else◌, length, get_elem?,
  take, min,
}
use akamata.Prelude.Numbers.{ℤ, pos, minus}
use akamata.Text.Utf8.{encode}
use akamata.Text.Bigint.{parse_bigint}
use akamata.Memory.{Memory, read_bytes, read_string, write_bytes}
use akamata.D1.Values.{
  Value, missing, null, bigint, number, string, bytes, buffer, Platform, RawResult, rejected, array,
  Bound, plain, with_args, RunMeta, Database,
}
use akamata.D1.Registry.{Statement, get, put, remove}
use akamata.D1.Statements.{Reply, reply, trap, suspending, write_arg}

-- `d1stmts` and `nextStmtId`
pub record Table (Base Num : Type 0) : Type 0 where
  pub stmts : List (ℕ × Statement Base Num)
  pub next_id : ℕ

-- `out[0]` and `out.slice(1)`, where `out` is an array that is not empty
abbrev pub names_of : {Num : Type 0} → RawResult Num → List (Value Num)
names_of (array (names ∷ rows)) = names
names_of _ = []

abbrev pub rows_of : {Num : Type 0} → RawResult Num → List (List (Value Num))
rows_of (array (names ∷ rows)) = rows
rows_of _ = []

module _ {Base Num : Type 0} where
  -- `const e = d1stmts.get(h); if (!e) return …`, and else a change of that entry in place
  unfoldable pub change :
      {A : Type 0}
      → ℕ
      → A
      → (Statement Base Num → A × Statement Base Num)
      → Table Base Num
      → A × Table Base Num
  unfolding get put
  change h absent f t = elim (get h t.stmts) [
    | none ↦ (absent, t)
    | some e ↦ ((f e).0, record t { stmts = put h (f e).1 t.stmts })
  ]

  unfoldable pub look : {A : Type 0} → ℕ → A → (Statement Base Num → A) → Table Base Num → A
  unfolding get
  look h absent f t = elim (get h t.stmts) [ none ↦ absent | some e ↦ f e ]

  -- the object literal of `d1_prepare`
  abbrev pub unrun : Base → Statement Base Num
  unrun b = record {
    base = b;
    bind_args = [];
    rows = none;
    cursor = 0;
    current_row = none;
    column_names = none;
  }

  unfoldable pub prepare_with : Option Base → Table Base Num → ℤ × Table Base Num
  unfolding put
  prepare_with none t = (minus 3, t)
  prepare_with (some b) t =
      (pos t.next_id, record { stmts = put t.next_id (unrun b) t.stmts; next_id = t.next_id + 1 })

  unfoldable pub d1_prepare :
      Option (Database Base Num) → Memory → ℕ → ℕ → Table Base Num → ℤ × Table Base Num
  unfolding prepare_with
  d1_prepare none m sql_ptr sql_len t = (minus 2, t)
  d1_prepare (some db) m sql_ptr sql_len t =
      prepare_with (Option.bind (read_string m sql_ptr sql_len) db.prepare) t

  -- `e.bindArgs[i-1] = v`; at 0 the array is given a property "-1", which is no argument
  unfoldable pub store : ℕ → Value Num → Statement Base Num → Statement Base Num
  unfolding write_arg
  store i v e = if i == 0 then e else record e { bind_args = write_arg e.bind_args (i - 1) v }

  abbrev pub bind_arg : ℕ → ℕ → Option (Value Num) → Table Base Num → Reply ℤ × Table Base Num
  bind_arg h i read t =
      change h (reply (minus 1))
        (λ e. elim read [ none ↦ (trap, e) | some v ↦ (reply (pos 0), store i v e) ]) t

  unfoldable pub d1_bind_int64 : (ℤ → Num) → ℕ → ℕ → ℤ → Table Base Num → Reply ℤ × Table Base Num
  unfolding change store
  d1_bind_int64 number_of h i v t = bind_arg h i (some (number (number_of v))) t

  unfoldable pub d1_bind_double : ℕ → ℕ → Num → Table Base Num → Reply ℤ × Table Base Num
  unfolding change store
  d1_bind_double h i v t = bind_arg h i (some (number v)) t

  unfoldable pub d1_bind_text : Memory → ℕ → ℕ → ℕ → ℕ → Table Base Num → Reply ℤ × Table Base Num
  unfolding change store
  d1_bind_text m h i ptr len t = bind_arg h i (Option.map string (read_string m ptr len)) t

  unfoldable pub d1_bind_blob : Memory → ℕ → ℕ → ℕ → ℕ → Table Base Num → Reply ℤ × Table Base Num
  unfolding change store
  d1_bind_blob m h i ptr len t = bind_arg h i (Option.map bytes (read_bytes m ptr len)) t

  unfoldable pub d1_bind_null : ℕ → ℕ → Table Base Num → Reply ℤ × Table Base Num
  unfolding change store
  d1_bind_null h i t = bind_arg h i (some null) t

  -- `e.bindArgs.length > 0 ? e.base.bind(...e.bindArgs) : e.base`
  abbrev pub query : Base → List (Value Num) → Bound Base Num
  query base args = if ltb 0 (length args) then with_args base args else plain base

  unfoldable pub asked : Statement Base Num → Bound Base Num
  asked e = query e.base e.bind_args

  abbrev pub filled : RawResult Num → Statement Base Num → Statement Base Num
  filled out e = record e {
    column_names = some (names_of out);
    rows = some (rows_of out);
    cursor = 0;
  }

  unfoldable pub keep_rows : RawResult Num → Statement Base Num → ℤ × Statement Base Num
  keep_rows rejected e = (minus 4, e)
  keep_rows out e = (pos (length (rows_of out)), filled out e)

  unfoldable pub d1_run :
      Bool → (Bound Base Num → RawResult Num) → ℕ → Table Base Num → ℤ × Table Base Num
  unfolding suspending change keep_rows asked
  d1_run jspi raw h t = suspending jspi (change h (minus 1) (λ e. keep_rows (raw (asked e)) e)) t

  abbrev pub advance_in : List (List (Value Num)) → Statement Base Num → ℤ × Statement Base Num
  advance_in rows e =
      if ltb e.cursor (length rows)
      then (pos 1, record e { current_row = get_elem? rows e.cursor; cursor = e.cursor + 1 })
      else (pos 0, record e { current_row = none })

  unfoldable pub advance : Statement Base Num → ℤ × Statement Base Num
  advance e = elim e.rows [ none ↦ (minus 1, e) | some rows ↦ advance_in rows e ]

  unfoldable pub d1_step : ℕ → Table Base Num → ℤ × Table Base Num
  unfolding change advance
  d1_step h t = change h (minus 1) advance t

  unfoldable pub d1_reset : ℕ → Table Base Num → Table Base Num
  unfolding change
  d1_reset h t =
      (change h tt (λ e. (tt, record e { rows = none; cursor = 0; current_row = none })) t).1

  unfoldable pub d1_finalize : ℕ → Table Base Num → Table Base Num
  unfolding remove
  d1_finalize h t = record t { stmts = remove h t.stmts }

  unfoldable pub ran : Option (RunMeta Num) → Table Base Num → ℤ × Table Base Num
  ran none t = (minus 3, t)
  ran (some x) t = (pos 0, t)

  unfoldable pub d1_exec :
      Bool → Option (Database Base Num) → Memory → ℕ → ℕ → Table Base Num → ℤ × Table Base Num
  unfolding suspending ran
  d1_exec jspi d1 m sql_ptr sql_len t = elim d1 [
    | none ↦ (minus 2, t)
    | some db ↦
        suspending jspi
          (ran (Option.bind (Option.bind (read_string m sql_ptr sql_len) db.prepare) db.run)) t
  ]

  unfoldable pub d1_column_count : ℕ → Table Base Num → ℕ
  unfolding look
  d1_column_count h t =
      look h 0
        (λ e. elim e.column_names [
          | some names ↦ length names
          | none ↦ elim e.current_row [ some row ↦ length row | none ↦ 0 ]
        ])
        t

-- `e.currentRow[i]`, if there is a row; what the row does not have is undefined
abbrev pub value_at : {Num : Type 0} → ℕ → Option (List (Value Num)) → Option (Value Num)
value_at i none = none
value_at i (some row) = some (Option.get_or (get_elem? row i) missing)

module _ (p : Platform) where
  open p use {Num, Base}

  abbrev pub to_int : Option ℤ → Reply ℤ → Reply ℤ
  to_int none absent = absent
  to_int (some n) absent = reply n

  unfoldable pub integer_of : Option (Value Num) → Reply ℤ
  integer_of none = reply (pos 0)
  integer_of (some missing) = reply (pos 0)
  integer_of (some null) = reply (pos 0)
  integer_of (some (bigint v)) = reply v
  integer_of (some (number v)) = to_int (p.trunc v) trap
  integer_of (some (string s)) = to_int (parse_bigint s) (reply (pos 0))
  integer_of (some _) = reply (pos 0)

  unfoldable pub d1_column_int64 : ℕ → ℕ → Table Base Num → Reply ℤ
  unfolding look integer_of
  d1_column_int64 h i t = look h (reply (pos 0)) (λ e. integer_of (value_at i e.current_row)) t

  unfoldable pub float_of : Option (Value Num) → Num
  float_of none = p.number_of (pos 0)
  float_of (some missing) = p.number_of (pos 0)
  float_of (some null) = p.number_of (pos 0)
  float_of (some v) = p.to_number v

  unfoldable pub d1_column_double : ℕ → ℕ → Table Base Num → Num
  unfolding look float_of
  d1_column_double h i t = look h (p.number_of (pos 0)) (λ e. float_of (value_at i e.current_row)) t

  unfoldable pub byte_length_of : Option (Value Num) → ℕ
  byte_length_of none = 0
  byte_length_of (some missing) = 0
  byte_length_of (some null) = 0
  byte_length_of (some (bytes bs)) = length bs
  byte_length_of (some (buffer bs)) = length bs
  byte_length_of (some v) = length (encode (p.to_string v))

  unfoldable pub d1_column_text_len : ℕ → ℕ → Table Base Num → ℕ
  unfolding look byte_length_of
  d1_column_text_len h i t = look h 0 (λ e. byte_length_of (value_at i e.current_row)) t

  -- `writeBytes(op, bytes.subarray(0, n))` with the smaller of the two lengths
  abbrev pub copy_to : Memory → ℕ → ℕ → List ℕ → Reply ℕ × Memory
  copy_to m out_ptr out_len bs = elim (write_bytes m out_ptr (take (min (length bs) out_len) bs)) [
    | none ↦ (trap, m)
    | some m' ↦ (reply (min (length bs) out_len), m')
  ]

  unfoldable pub copy_value : Memory → ℕ → ℕ → Option (Value Num) → Reply ℕ × Memory
  unfolding write_bytes
  copy_value m out_ptr out_len none = (reply 0, m)
  copy_value m out_ptr out_len (some missing) = (reply 0, m)
  copy_value m out_ptr out_len (some null) = (reply 0, m)
  copy_value m out_ptr out_len (some (bytes bs)) = copy_to m out_ptr out_len bs
  copy_value m out_ptr out_len (some (buffer bs)) = copy_to m out_ptr out_len bs
  copy_value m out_ptr out_len (some v) = copy_to m out_ptr out_len (encode (p.to_string v))

  unfoldable pub d1_column_text_copy : Memory → ℕ → ℕ → ℕ → ℕ → Table Base Num → Reply ℕ × Memory
  unfolding look copy_value
  d1_column_text_copy m h i out_ptr out_len t =
      look h (reply 0, m) (λ e. copy_value m out_ptr out_len (value_at i e.current_row)) t

  unfoldable pub null_flag : Option (Value Num) → ℕ
  null_flag (some missing) = 1
  null_flag (some null) = 1
  null_flag (some v) = 0
  null_flag none = 1

  unfoldable pub d1_column_is_null : ℕ → ℕ → Table Base Num → ℕ
  unfolding look null_flag
  d1_column_is_null h idx t = look h 1 (λ e. null_flag (value_at idx e.current_row)) t
