-- ===== src/Environment.antt =====
-- deploy/worker/index.mjs: the imports of `akamata_env`, with `getWorkers` of src/env.zig, through which the instance
-- asks for a variable.
pub mod Lookup
mod Tests
use mathlib.Core.Option
use akamata.Prelude.{
  ℕ, ◌+◌, ◌*◌, ◌/◌, Bool, true, false, Option, none, some, List, [], ◌∷◌, ltb, if◌then◌else◌,
  length,
}
use akamata.Prelude.Numbers.{ℤ, pos, negsuc, minus}
use akamata.Text.{Text}
use akamata.Text.Utf8.{encode}
use akamata.Memory.{Memory, read_bytes, read_string, write_bytes}
use akamata.D1.Statements.{Reply, reply, trap}

-- a write that has to succeed
abbrev pub written_or_trap : {A : Type 0} → A → Option Memory → Reply (A × Memory)
written_or_trap a none = trap
written_or_trap a (some m) = reply (a, m)

-- The value as bytes; `bytes.length > out_cap`
unfoldable pub give_value : List ℕ → ℕ → ℕ → Memory → Reply (ℤ × Memory)
unfolding write_bytes
give_value bytes out_ptr out_cap m =
    if ltb out_cap (length bytes)
    then reply (pos (length bytes), m)
    else written_or_trap (pos (length bytes)) (write_bytes m out_ptr bytes)

abbrev pub give_or_none : ℕ → ℕ → Memory → Option Text → Reply (ℤ × Memory)
give_or_none out_ptr out_cap m o = elim o [
  | none ↦ reply (minus 1, m)
  | some v ↦ give_value (encode v) out_ptr out_cap m
]

abbrev pub look_up : (Text → Option Text) → ℕ → ℕ → Memory → Option Text → Reply (ℤ × Memory)
look_up env out_ptr out_cap m o = elim o [
  | none ↦ trap
  | some k ↦ give_or_none out_ptr out_cap m (env k)
]

-- `env` gives `String(env?.[k])`, and `none` for null and undefined.
unfoldable pub akamata_env_get : (Text → Option Text) → ℕ → ℕ → ℕ → ℕ → Memory → Reply (ℤ × Memory)
unfolding give_value read_string encode
akamata_env_get env name_ptr name_len out_ptr out_cap m =
    look_up env out_ptr out_cap m (read_string m name_ptr name_len)

-- `crypto.getRandomValues` gives at most 65536 bytes; `random` gives those of one call.
unfoldable pub akamata_random_bytes : (ℕ → List ℕ) → ℕ → ℕ → Memory → Reply (Unit × Memory)
unfolding write_bytes
akamata_random_bytes random ptr len m =
    if ltb 65536 len then trap else written_or_trap tt (write_bytes m ptr (random len))

-- `now` is `Date.now()`, in milliseconds
unfoldable pub akamata_unix_seconds : ℕ → ℕ
akamata_unix_seconds now = now / 1000

unfoldable pub akamata_unix_micros : ℕ → ℕ
akamata_unix_micros now = now * 1000

-- The buffers that `gpa.alloc` gives, by their lengths; `none` is OutOfMemory.
abbrev pub Allocator : Type 0
Allocator = ℕ → Option ℕ

-- `buf[0..n]`
abbrev pub slice : Memory → ℕ → ℕ → Reply (Option (List ℕ))
slice m ptr len = reply (read_bytes m ptr len)

-- the answer to the second call
abbrev pub second_answer : ℕ → Reply (ℤ × Memory) → Reply (Option (List ℕ))
second_answer ptr trap = trap
second_answer ptr (reply (negsuc n, m)) = reply none
second_answer ptr (reply (pos n, m)) = slice m ptr n

module _ (env : Text → Option Text) (gpa : Allocator) (name_ptr name_len : ℕ) where
  unfoldable pub ask_again : ℕ → Memory → Option ℕ → Reply (Option (List ℕ))
  unfolding akamata_env_get
  ask_again n m none = reply none
  ask_again n m (some ptr) = second_answer ptr (akamata_env_get env name_ptr name_len ptr n m)

  unfoldable pub first_answer : ℕ → Reply (ℤ × Memory) → Reply (Option (List ℕ))
  unfolding ask_again
  first_answer ptr trap = trap
  first_answer ptr (reply (negsuc n, m)) = reply none
  first_answer ptr (reply (pos n, m)) = if ltb 4096 n then ask_again n m (gpa n) else slice m ptr n

  abbrev pub ask_first : Memory → Option ℕ → Reply (Option (List ℕ))
  ask_first m o = elim o [
    | none ↦ reply none
    | some ptr ↦ first_answer ptr (akamata_env_get env name_ptr name_len ptr 4096 m)
  ]

  -- `getWorkers`
  unfoldable pub get_workers : Memory → Reply (Option (List ℕ))
  unfolding first_answer
  get_workers m = ask_first m (gpa 4096)
