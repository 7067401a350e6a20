-- ===== src/Guestbook/Readings.antt =====
-- What the guestbook's bridge to D1 (deploy/guestbook/worker/index.mjs) reads of a row, beside what the bridge of
-- deploy/worker/index.mjs reads.
use mathlib.Core.Option
use akamata.Prelude.{ℕ, ◌≡◌, refl, ◌∙◌, Option, none, some, List, length, get_elem?}
use akamata.Prelude.Numbers.{ℤ, pos}
use akamata.Text.Bigint.{parse_bigint}
use akamata.Memory.{Memory}
use akamata.D1.Values.{
  Value, missing, null, boolean, bigint, number, string, bytes, buffer, other, Platform,
}
use akamata.D1.Registry.{Row, Registry, read_entry}
use akamata.D1.Statements.{Reply, reply, trap}
use akamata.D1.Columns as MainColumns
use akamata.Guestbook.Statements.{
  Table, change, look, prepare_with, ran, store, bind_arg, query, keep_rows, asked, advance_in,
  advance, value_at,
}
use akamata.Guestbook.Statements as Guest
use akamata.Guestbook.Entries.{table_of, look-same}

module _ (p : Platform) where
  -- Every column of every statement reads the same.
  pub record ReadsAlike (t : Table p.Base p.Num) (r : Registry p.Base p.Num) (m : Memory)
      : Type 0 where
    pub int64 : (h i : ℕ) → Guest.d1_column_int64 p h i t ≡ MainColumns.d1_column_int64 p h i r
    pub double : (h i : ℕ) → Guest.d1_column_double p h i t ≡ MainColumns.d1_column_double p h i r
    pub text_len :
        (h i : ℕ) → Guest.d1_column_text_len p h i t ≡ MainColumns.d1_column_text_len p h i r
    pub text_copy :
        (h i ptr len : ℕ)
        → Guest.d1_column_text_copy p m h i ptr len t
          ≡ MainColumns.d1_column_text_copy p m h i ptr len r
    pub count : (h : ℕ) → Guest.d1_column_count h t ≡ MainColumns.d1_column_count p h r
    pub is_null :
        (h i : ℕ) → Guest.d1_column_is_null p h i t ≡ MainColumns.d1_column_is_null p h i r

  -- what a column of a row reads as, in the main worker
  abbrev read_at : {A : Type 0} → ℕ → A → (Value p.Num → A) → Option (Row p.Num) → A
  read_at i absent f o = elim (Option.map (λ row. Option.get_or (get_elem? row i) missing) o) [
    | none ↦ absent
    | some v ↦ f v
  ]

  at-same :
      {A : Type 0} (i : ℕ) (absent : A) (f : Value p.Num → A) (g : Option (Value p.Num) → A)
      (o : Option (Row p.Num))
      → g none ≡ absent
      → ((v : Value p.Num) → g (some v) ≡ f v)
      → g (value_at i o) ≡ read_at i absent f o
  at-same i absent f g none n q = n
  at-same i absent f g (some row) n q = q (Option.get_or (get_elem? row i) missing)

  to_int-same :
      (o : Option ℤ) (absent : Reply ℤ)
      → Guest.to_int p o absent ≡ (elim o [ none ↦ absent | some n ↦ reply n ])
  to_int-same none absent = refl
  to_int-same (some n) absent = refl

  integer-same : (v : Value p.Num) → Guest.integer_of p (some v) ≡ MainColumns.int64_of p v
  unfolding Guest.integer_of MainColumns.int64_of
  integer-same missing = refl
  integer-same null = refl
  integer-same (boolean b) = refl
  integer-same (bigint n) = refl
  integer-same (number n) = to_int-same (p.trunc n) trap
  integer-same (string t) = to_int-same (parse_bigint t) (reply (pos 0))
  integer-same (bytes bs) = refl
  integer-same (buffer bs) = refl
  integer-same (other n) = refl

  float-same : (v : Value p.Num) → Guest.float_of p (some v) ≡ MainColumns.double_of p v
  unfolding Guest.float_of MainColumns.double_of
  float-same missing = refl
  float-same null = refl
  float-same (boolean b) = refl
  float-same (bigint n) = refl
  float-same (number n) = refl
  float-same (string t) = refl
  float-same (bytes bs) = refl
  float-same (buffer bs) = refl
  float-same (other n) = refl

  abbrev length_or : Option (List ℕ) → ℕ
  length_or o = elim o [ none ↦ 0 | some bs ↦ length bs ]

  length-same :
      (v : Value p.Num) → Guest.byte_length_of p (some v) ≡ length_or (MainColumns.text_bytes p v)
  unfolding Guest.byte_length_of MainColumns.text_bytes
  length-same missing = refl
  length-same null = refl
  length-same (boolean b) = refl
  length-same (bigint n) = refl
  length-same (number n) = refl
  length-same (string t) = refl
  length-same (bytes bs) = refl
  length-same (buffer bs) = refl
  length-same (other n) = refl

  abbrev copied : Memory → ℕ → ℕ → Option (List ℕ) → Reply ℕ × Memory
  copied m ptr len o = elim o [ none ↦ (reply 0, m) | some bs ↦ MainColumns.copy_out m ptr len bs ]

  copy-same :
      (m : Memory) (ptr len : ℕ) (v : Value p.Num)
      → Guest.copy_value p m ptr len (some v) ≡ copied m ptr len (MainColumns.text_bytes p v)
  unfolding Guest.copy_value MainColumns.text_bytes MainColumns.copy_out
  copy-same m ptr len missing = refl
  copy-same m ptr len null = refl
  copy-same m ptr len (boolean b) = refl
  copy-same m ptr len (bigint n) = refl
  copy-same m ptr len (number n) = refl
  copy-same m ptr len (string t) = refl
  copy-same m ptr len (bytes bs) = refl
  copy-same m ptr len (buffer bs) = refl
  copy-same m ptr len (other n) = refl

  null-same : (v : Value p.Num) → Guest.null_flag p (some v) ≡ MainColumns.is_nullish p v
  unfolding Guest.null_flag
  null-same missing = refl
  null-same null = refl
  null-same (boolean b) = refl
  null-same (bigint n) = refl
  null-same (number n) = refl
  null-same (string t) = refl
  null-same (bytes bs) = refl
  null-same (buffer bs) = refl
  null-same (other n) = refl

  -- `Option.bind (cell …) text_bytes`, and what is done with it
  bytes_at :
      {A : Type 0} (i : ℕ) (f : Option (List ℕ) → A) (o : Option (Row p.Num))
      → read_at i (f none) (λ v. f (MainColumns.text_bytes p v)) o
        ≡ f (
            Option.bind
              (Option.map (λ row. Option.get_or (get_elem? row i) missing) o)
              (MainColumns.text_bytes p))
  unfolding Option.bind
  bytes_at i f none = refl
  bytes_at i f (some row) = refl

  int_none : Guest.integer_of p none ≡ reply (pos 0)
  unfolding Guest.integer_of
  int_none = refl

  float_none : Guest.float_of p none ≡ MainColumns.zero_number p
  unfolding Guest.float_of
  float_none = refl

  length_none : Guest.byte_length_of p none ≡ 0
  unfolding Guest.byte_length_of
  length_none = refl

  copy_none : (m : Memory) (ptr len : ℕ) → Guest.copy_value p m ptr len none ≡ (reply 0, m)
  unfolding Guest.copy_value
  copy_none m ptr len = refl

  null_none : Guest.null_flag p none ≡ 1
  unfolding Guest.null_flag
  null_none = refl

  pub reads_alike : (r : Registry p.Base p.Num) (m : Memory) → ReadsAlike (table_of r) r m
  unfolding look read_entry Guest.d1_column_int64 MainColumns.d1_column_int64 Guest.d1_column_double
      MainColumns.d1_column_double Guest.d1_column_text_len MainColumns.d1_column_text_len
      Guest.d1_column_text_copy MainColumns.d1_column_text_copy Guest.d1_column_count
      MainColumns.d1_column_count Guest.d1_column_is_null MainColumns.d1_column_is_null
  reads_alike r m = record {
    int64 = λ h i.
        look-same h (reply (pos 0)) _ _ r
          (λ e. at-same i _ _ (Guest.integer_of p) e.current_row int_none integer-same);
    double = λ h i.
        look-same h (MainColumns.zero_number p) _ _ r
          (λ e. at-same i _ _ (Guest.float_of p) e.current_row float_none float-same);
    text_len = λ h i. look-same h 0 _ _ r (λ e.
        at-same i _ _ (Guest.byte_length_of p) e.current_row length_none length-same
        ∙ bytes_at i length_or e.current_row);
    text_copy = λ h i ptr len.
        look-same h (reply 0, m) _ _ r
          (λ e.
            at-same i _ _ (Guest.copy_value p m ptr len) e.current_row (copy_none m ptr len)
              (copy-same m ptr len)
            ∙ bytes_at i (copied m ptr len) e.current_row);
    count = λ h. refl;
    is_null = λ h i.
        look-same h 1 _ _ r
          (λ e. at-same i _ _ (Guest.null_flag p) e.current_row null_none null-same);
  }
