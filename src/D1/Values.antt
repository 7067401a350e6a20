-- ===== src/D1/Values.antt =====
-- The values that pass through the D1 bridge (deploy/worker/index.mjs), and what the bridge asks of
-- the platform: floating point numbers, and the database behind `env.DB`.
use akamata.Prelude.{ℕ, Bool, Option, List}
use akamata.Prelude.Numbers.{ℤ}
use akamata.Text.{Text}

-- `missing` is undefined: a hole of `bindArgs`, or a column that the row does not have.
pub data Value (Num : Type 0) : Type 0 where
  missing : Value Num
  null : Value Num
  boolean : Bool → Value Num
  bigint : ℤ → Value Num
  number : Num → Value Num
  string : Text → Value Num
  bytes : List ℕ → Value Num
  buffer : List ℕ → Value Num
  -- any other object, by its identity
  other : ℕ → Value Num

-- Numbers of the language are doubles: abstract, with the conversions that the bridge makes.
pub record Platform : Type 1 where
  pub Num : Type 0
  -- `Number(v)` of a BigInt, and of any value
  pub number_of : ℤ → Num
  pub to_number : Value Num → Num
  -- `BigInt(v)`, and `BigInt(Math.trunc(v))`; `none` is a RangeError
  pub to_bigint : Num → Option ℤ
  pub trunc : Num → Option ℤ
  -- `String(v)`
  pub to_string : Value Num → Text
  -- a statement that `d1.prepare` made
  pub Base : Type 0

-- What `env.DB` answers; the state of the database is the platform's.
pub data RawResult (Num : Type 0) : Type 0 where
  rejected : RawResult Num
  not_array : RawResult Num
  array : List (List (Value Num)) → RawResult Num

-- The statement that is run: `e.base`, or `e.base.bind(...e.bindArgs)`.
pub data Bound (Base Num : Type 0) : Type 0 where
  plain : Base → Bound Base Num
  with_args : Base → List (Value Num) → Bound Base Num

-- `result?.meta` of a `run()`: changes, rows_written and last_row_id, each maybe absent
pub record RunMeta (Num : Type 0) : Type 0 where
  pub changes : Value Num
  pub rows_written : Value Num
  pub last_row_id : Value Num

pub record Database (Base Num : Type 0) : Type 0 where
  -- `none`: it throws
  pub prepare : Text → Option Base
  pub raw : Bound Base Num → RawResult Num
  pub run : Base → Option (RunMeta Num)
