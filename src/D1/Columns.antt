-- ===== src/D1/Columns.antt =====
-- deploy/worker/index.mjs: reading a column of the row under the cursor.
pub mod Copy
use mathlib.Core.Option
use akamata.Prelude.{
  ℕ, Option, none, some, List, [], ◌∷◌, Bool, true, false, length, get_elem?, take, min,
}
use akamata.Prelude.Numbers.{ℤ, pos, minus}
use akamata.Text.Utf8.{encode}
use akamata.Text.Bigint.{parse_bigint}
use akamata.Memory.{Memory, write_bytes}
use akamata.D1.Values.{
  Value, missing, null, boolean, bigint, number, string, bytes, buffer, other, Platform,
}
use akamata.D1.Registry.{Row, Statement, Registry, get, read_entry}
use akamata.D1.Statements.{Reply, reply, trap}

-- `e.currentRow[idx]`; `none` if there is no row, and a column past the end is undefined
abbrev pub cell : {Base Num : Type 0} → ℕ → Statement Base Num → Option (Value Num)
cell idx e = Option.map (λ row. Option.get_or (get_elem? row idx) missing) e.current_row

-- the first bytes, as many as the buffer takes
unfoldable pub copy_out : Memory → ℕ → ℕ → List ℕ → Reply ℕ × Memory
copy_out m out_ptr out_len bs =
    let n = min (length bs) out_len in
    elim (write_bytes m out_ptr (take n bs)) [ none ↦ (trap, m) | some m' ↦ (reply n, m') ]

module _ (p : Platform) where
  open p use {Num, Base, number_of, to_number, trunc, to_string}

  unfoldable pub int64_of : Value Num → Reply ℤ
  int64_of (bigint v) = reply v
  int64_of (number v) = elim (trunc v) [ none ↦ trap | some n ↦ reply n ]
  int64_of (string s) = elim (parse_bigint s) [ none ↦ reply (pos 0) | some n ↦ reply n ]
  int64_of _ = reply (pos 0)

  unfoldable pub d1_column_int64 : ℕ → ℕ → Registry Base Num → Reply ℤ
  unfolding read_entry int64_of
  d1_column_int64 h idx r =
      read_entry h (reply (pos 0))
        (λ e. elim (cell idx e) [ none ↦ reply (pos 0) | some v ↦ int64_of v ]) r

  abbrev pub zero_number : Num
  zero_number = number_of (pos 0)

  unfoldable pub double_of : Value Num → Num
  double_of missing = zero_number
  double_of null = zero_number
  double_of v = to_number v

  unfoldable pub d1_column_double : ℕ → ℕ → Registry Base Num → Num
  unfolding read_entry double_of
  d1_column_double h idx r =
      read_entry h zero_number
        (λ e. elim (cell idx e) [ none ↦ zero_number | some v ↦ double_of v ]) r

  -- the bytes of a value as the wasm side sees them; `none` is null
  unfoldable pub text_bytes : Value Num → Option (List ℕ)
  text_bytes missing = none
  text_bytes null = none
  text_bytes (bytes bs) = some bs
  text_bytes (buffer bs) = some bs
  text_bytes v = some (encode (to_string v))

  unfoldable pub d1_column_text_len : ℕ → ℕ → Registry Base Num → ℕ
  unfolding read_entry text_bytes
  d1_column_text_len h idx r =
      read_entry h 0
        (λ e. elim (Option.bind (cell idx e) text_bytes) [ none ↦ 0 | some bs ↦ length bs ]) r

  unfoldable pub d1_column_text_copy : Memory → ℕ → ℕ → ℕ → ℕ → Registry Base Num → Reply ℕ × Memory
  unfolding read_entry text_bytes copy_out
  d1_column_text_copy m h idx out_ptr out_len r =
      read_entry h (reply 0, m)
        (λ e. elim (Option.bind (cell idx e) text_bytes) [
          | none ↦ (reply 0, m)
          | some bs ↦ copy_out m out_ptr out_len bs
        ])
        r

  unfoldable pub d1_column_count : ℕ → Registry Base Num → ℕ
  unfolding read_entry
  d1_column_count h r =
      read_entry h 0
        (λ e. elim e.column_names [
          | some names ↦ length names
          | none ↦ elim e.current_row [ some row ↦ length row | none ↦ 0 ]
        ])
        r

  abbrev pub is_nullish : Value Num → ℕ
  is_nullish missing = 1
  is_nullish null = 1
  is_nullish v = 0

  unfoldable pub d1_column_is_null : ℕ → ℕ → Registry Base Num → ℕ
  unfolding read_entry
  d1_column_is_null h idx r =
      read_entry h 1 (λ e. elim (cell idx e) [ none ↦ 1 | some v ↦ is_nullish v ]) r
