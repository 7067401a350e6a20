-- ===== src/Memory.antt =====
-- The linear memory of the wasm instance and the three helpers of deploy/worker/index.mjs through
-- which every bridge reads and writes it. A pointer is a byte offset from 0; a view that does not
-- fit in the buffer is a RangeError, here `none`.
pub mod Laws
pub mod Sequel
use akamata.Prelude.{
  ℕ, zero, suc, ◌+◌, Bool, Option, none, some, List, [], ◌∷◌, leb, ◌==◌, if◌then◌else◌, length,
}
use akamata.Text.{Text}
use akamata.Text.Utf8.{decode}
use mathlib.Core.Option

pub record Memory : Type 0 where
  pub size : ℕ
  pub cell : ℕ → ℕ

unfoldable pub cells : (ℕ → ℕ) → ℕ → ℕ → List ℕ
cells f ptr zero = []
cells f ptr (suc n) = f ptr ∷ cells f (ptr + 1) n

abbrev pub update : (ℕ → ℕ) → ℕ → ℕ → ℕ → ℕ
update f p v q = if p == q then v else f q

unfoldable pub put_cells : (ℕ → ℕ) → ℕ → List ℕ → ℕ → ℕ
put_cells f ptr [] = f
put_cells f ptr (b ∷ bs) = put_cells (update f ptr b) (ptr + 1) bs

unfoldable pub read_bytes : Memory → ℕ → ℕ → Option (List ℕ)
unfolding cells
read_bytes m ptr len =
    if len == 0
    then some []
    else if leb (ptr + len) m.size
    then some (cells m.cell ptr len)
    else none

unfoldable pub read_string : Memory → ℕ → ℕ → Option Text
unfolding read_bytes
read_string m ptr len = Option.map decode (read_bytes m ptr len)

unfoldable pub write_bytes : Memory → ℕ → List ℕ → Option Memory
unfolding put_cells
write_bytes m ptr [] = some m
write_bytes m ptr (b ∷ bs) =
    if leb (ptr + length (b ∷ bs)) m.size
    then some (record m { cell = put_cells m.cell ptr (b ∷ bs) })
    else none
