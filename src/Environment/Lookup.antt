-- ===== src/Environment/Lookup.antt =====
-- A variable of the environment reaches the instance whole (deploy/worker/index.mjs, src/env.zig).
use mathlib.Core.Option
use akamata.Prelude.{
  ℕ, ◌+◌, ◌≤◌, ◌<◌, ◌≡◌, sym, ap, ◌∙◌, false, Option, some, List, arith, ltb, ltb→lt, ltb_false→le,
  Bool-cases, Option-cases, inl, inr, length,
}
use akamata.Prelude.Numbers.{pos}
use akamata.Text.{Text}
use akamata.Text.Utf8.{encode}
use akamata.Memory.{Memory, read_string}
use akamata.Memory.Sequel.{overwritten, write_bytes-overwritten, read_bytes-overwritten}
use akamata.D1.Statements.{reply}
use akamata.Environment.{
  written_or_trap, give_value, give_or_none, look_up, akamata_env_get, Allocator, second_answer,
  ask_again, first_answer, ask_first, get_workers,
}

give_value-fits :
    (bytes : List ℕ) (ptr cap : ℕ) (m : Memory)
    → length bytes ≤ cap
    → ptr + cap ≤ m.size
    → give_value bytes ptr cap m ≡ reply (pos (length bytes), overwritten m ptr bytes)
unfolding give_value
give_value-fits bytes ptr cap m le fits =
    let e : ltb cap (length bytes) ≡ false = ground arith in
    rw e (
      ap (written_or_trap (pos (length bytes)))
        (write_bytes-overwritten m ptr bytes (omega (arith, le, fits))))

give_value-long :
    (bytes : List ℕ) (ptr cap : ℕ) (m : Memory)
    → cap < length bytes
    → give_value bytes ptr cap m ≡ reply (pos (length bytes), m)
unfolding give_value
give_value-long bytes ptr cap m lt = ground arith

module _ (env : Text → Option Text) (gpa : Allocator) (name_ptr name_len : ℕ) (m : Memory)
    (k : Text) (named : read_string m name_ptr name_len ≡ some k) where
  env_get-named :
      (ptr cap : ℕ)
      → akamata_env_get env name_ptr name_len ptr cap m ≡ give_or_none ptr cap m (env k)
  unfolding akamata_env_get
  env_get-named ptr cap = ap (look_up env ptr cap m) named

  -- a first buffer that is large enough
  first_fits :
      (v : Text) (ptr : ℕ)
      → env k ≡ some v
      → length (encode v) ≤ 4096
      → ptr + 4096 ≤ m.size
      → first_answer env gpa name_ptr name_len ptr
          (akamata_env_get env name_ptr name_len ptr 4096 m)
        ≡ reply (some (encode v))
  unfolding first_answer
  first_fits v ptr e le fits =
      let t : ltb 4096 (length (encode v)) ≡ false = ground arith in
      ap (first_answer env gpa name_ptr name_len ptr) (
        env_get-named ptr 4096
        ∙ ap (give_or_none ptr 4096 m) e
        ∙ give_value-fits (encode v) ptr 4096 m le fits)
      ∙ rw t (ap reply (read_bytes-overwritten m ptr (encode v) (omega (arith, le, fits))))

  again_fits :
      (v : Text) (o : Option ℕ) (ptr : ℕ)
      → o ≡ some ptr
      → env k ≡ some v
      → ptr + length (encode v) ≤ m.size
      → ask_again env gpa name_ptr name_len (length (encode v)) m o ≡ reply (some (encode v))
  unfolding ask_again
  again_fits v o ptr q e fits =
      ap (ask_again env gpa name_ptr name_len (length (encode v)) m) q
      ∙ ap (second_answer ptr) (
          env_get-named ptr (length (encode v))
          ∙ ap (give_or_none ptr (length (encode v)) m) e
          ∙ give_value-fits (encode v) ptr (length (encode v)) m (omega arith) fits)
      ∙ ap reply (read_bytes-overwritten m ptr (encode v) fits)

  -- What the allocator gives lies in the memory: the first buffer, and one for the value if it is longer.
  abbrev pub IsProvided : Type 0
  IsProvided =
      ((ptr : ℕ) × (gpa 4096 ≡ some ptr) × (ptr + 4096 ≤ m.size))
      × ((v : Text)
          → env k ≡ some v
          → 4096 < length (encode v)
          → (ptr : ℕ) × (gpa (length (encode v)) ≡ some ptr) × (ptr + length (encode v) ≤ m.size))

  asked :
      (v : Text) (ptr : ℕ)
      → IsProvided
      → env k ≡ some v
      → ptr + 4096 ≤ m.size
      → first_answer env gpa name_ptr name_len ptr
          (akamata_env_get env name_ptr name_len ptr 4096 m)
        ≡ reply (some (encode v))
  unfolding first_answer
  asked v ptr p e fits = elim (Bool-cases (ltb 4096 (length (encode v)))) [
    | inl t ↦
        let (q, g, f) = p.1 v e (ltb→lt 4096 (length (encode v)) t) in
        ap (first_answer env gpa name_ptr name_len ptr) (
          env_get-named ptr 4096
          ∙ ap (give_or_none ptr 4096 m) e
          ∙ give_value-long (encode v) ptr 4096 m (ltb→lt 4096 (length (encode v)) t))
        ∙ rw t (again_fits v (gpa (length (encode v))) q g e f)
    | inr t ↦ first_fits v ptr e (ltb_false→le 4096 (length (encode v)) t) fits
  ]

  value_or_none :
      (ptr : ℕ)
      → IsProvided
      → ptr + 4096 ≤ m.size
      → first_answer env gpa name_ptr name_len ptr
          (akamata_env_get env name_ptr name_len ptr 4096 m)
        ≡ reply (Option.map encode (env k))
  unfolding first_answer
  value_or_none ptr p fits = elim (Option-cases (env k)) [
    | inl e ↦
        ap (first_answer env gpa name_ptr name_len ptr)
          (env_get-named ptr 4096 ∙ ap (give_or_none ptr 4096 m) e)
        ∙ ap (λ o. reply (Option.map encode o)) (sym e)
    | inr (v, e) ↦ asked v ptr p e fits ∙ ap (λ o. reply (Option.map encode o)) (sym e)
  ]

-- Let the name lie in the memory, and let the buffers that `gpa` gives, of 4096 bytes and of the value's length if that is
-- longer, lie in it too. Then `getWorkers` gives exactly the value in UTF-8, whatever its length, by one call of `akamata_env_get` or by two, and
-- nothing if the environment has no such variable.
pub get_workers-value :
    (env : Text → Option Text) (gpa : Allocator) (name_ptr name_len : ℕ) (m : Memory) (k : Text)
    (named : read_string m name_ptr name_len ≡ some k)
    → IsProvided env gpa name_ptr name_len m k named
    → get_workers env gpa name_ptr name_len m ≡ reply (Option.map encode (env k))
unfolding get_workers
get_workers-value env gpa name_ptr name_len m k named p =
    ap (ask_first env gpa name_ptr name_len m) p.0.1
    ∙ value_or_none env gpa name_ptr name_len m k named p.0.0 p p.0.2
