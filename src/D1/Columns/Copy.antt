-- ===== src/D1/Columns/Copy.antt =====
-- The two calls by which the wasm side fetches a text or a blob (deploy/worker/index.mjs): first its
-- length, then its bytes into a buffer.
use mathlib.Core.Option
use akamata.Prelude.{
  ℕ, ◌+◌, ◌≤◌, ◌≡◌, ap, ◌∙◌, Option, none, some, List, arith, length, take, min, length-take,
  take-min, sym, subst,
}
use akamata.Memory.{Memory, read_bytes, write_bytes}
use akamata.Memory.Laws.{
  read_bytes-write_bytes, IsOutside, cell-write_bytes_outside, write_bytes-some,
}
use akamata.D1.Values.{Platform}
use akamata.D1.Registry.{Statement, Registry, get}
use akamata.D1.Registry.Laws.{read_entry-some}
use akamata.D1.Statements.{Reply, reply}
use akamata.D1.Columns.{cell, text_bytes, d1_column_text_len, copy_out, d1_column_text_copy}

-- The bytes of the column as the entry of `h` has them now.
abbrev pub HasBytes : (p : Platform) → ℕ → ℕ → Registry p.Base p.Num → List ℕ → Type 0
HasBytes p h idx r bs =
    (e : Statement p.Base p.Num) × (get h r.stmts ≡ some e)
    × (Option.bind (cell idx e) (text_bytes p) ≡ some bs)

copy_out-some :
    (m m' : Memory) (out_ptr out_len : ℕ) (bs : List ℕ)
    → write_bytes m out_ptr (take (min (length bs) out_len) bs) ≡ some m'
    → copy_out m out_ptr out_len bs ≡ (reply (min (length bs) out_len), m')
unfolding copy_out
copy_out-some m m' out_ptr out_len bs w = ground arith

module _ (p : Platform) (h idx : ℕ) (r : Registry p.Base p.Num) (bs : List ℕ)
    (has : HasBytes p h idx r bs) where
  text_len-eq : d1_column_text_len p h idx r ≡ length bs
  unfolding d1_column_text_len
  text_len-eq =
      read_entry-some h 0 r _ has.0 has.1
      ∙ ap (λ (o : Option (List ℕ)). elim o [ none ↦ 0 | some cs ↦ length cs ]) has.2

  text_copy-eq :
      (m : Memory) (out_ptr out_len : ℕ)
      → d1_column_text_copy p m h idx out_ptr out_len r ≡ copy_out m out_ptr out_len bs
  unfolding d1_column_text_copy
  text_copy-eq m out_ptr out_len =
      read_entry-some h (reply 0, m) r _ has.0 has.1
      ∙ ap
          (λ (o : Option (List ℕ)).
            let c : Reply ℕ × Memory = elim o [
              | none ↦ (reply 0, m)
              | some cs ↦ copy_out m out_ptr out_len cs
            ] in
            c)
          has.2

-- `d1_column_text_len` is the number of bytes of a column that is not null. `d1_column_text_copy`
-- into a buffer inside the memory returns how many it copied, at most the buffer's length; the
-- buffer then starts with that many of the bytes, and no cell behind them or before them has
-- changed.
pub text_copy_lem :
    (p : Platform) (m : Memory) (h idx out_ptr out_len : ℕ) (r : Registry p.Base p.Num)
    (bs : List ℕ)
    → HasBytes p h idx r bs
    → out_ptr + out_len ≤ m.size
    → (d1_column_text_len p h idx r ≡ length bs)
      × ((m' : Memory) × (d1_column_text_copy p m h idx out_ptr out_len r
            ≡ (reply (min (length bs) out_len), m'))
          × (read_bytes m' out_ptr (min (length bs) out_len) ≡ some (take out_len bs))
          × ((q : ℕ) → IsOutside q out_ptr (min (length bs) out_len) → m'.cell q ≡ m.cell q))
text_copy_lem p m h idx out_ptr out_len r bs has fits =
    let n = min (length bs) out_len in
    let (m', w) = write_bytes-some m out_ptr (take n bs) (omega (arith, length-take n bs)) in
    let size : length (take n bs) ≡ n = omega (arith, length-take n bs) in
    (
      text_len-eq p h idx r bs has,
      (
        m',
        text_copy-eq p h idx r bs has m out_ptr out_len ∙ copy_out-some m m' out_ptr out_len bs w,
        ap (read_bytes m' out_ptr) (sym size)
            ∙ read_bytes-write_bytes m m' out_ptr (take n bs) w
            ∙ ap some (take-min out_len bs),
        λ q o.
            cell-write_bytes_outside m m' out_ptr (take n bs) q w
              (subst (IsOutside q out_ptr) (sym size) o),
      ),
    )
