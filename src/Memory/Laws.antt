-- ===== src/Memory/Laws.antt =====
-- What is written is read back, and nothing else changes.
use akamata.Prelude.{ℕ, ◌+◌, ◌≤◌, ◌<◌, ◌≡◌, ◌⊎◌, refl, some, List, [], ◌∷◌, arith, length}
use akamata.Memory.{Memory, cells, update, put_cells, read_bytes, write_bytes}

abbrev pub IsOutside : ℕ → ℕ → ℕ → Type 0
IsOutside q ptr n = (q < ptr) ⊎ (ptr + n ≤ q)

pub put_cells_outside :
    (f : ℕ → ℕ) (ptr : ℕ) (bs : List ℕ) (q : ℕ)
    → IsOutside q ptr (length bs)
    → put_cells f ptr bs q ≡ f q
unfolding put_cells
put_cells_outside f ptr [] q h = refl
put_cells_outside f ptr (b ∷ bs) q h =
    ground (arith, put_cells_outside (update f ptr b) (ptr + 1) bs q)

cells-put_cells :
    (f : ℕ → ℕ) (ptr : ℕ) (bs : List ℕ) → cells (put_cells f ptr bs) ptr (length bs) ≡ bs
unfolding cells put_cells
cells-put_cells f ptr [] = refl
cells-put_cells f ptr (b ∷ bs) = ground (
  arith,
  put_cells_outside (update f ptr b) (ptr + 1) bs ptr,
  cells-put_cells (update f ptr b) (ptr + 1) bs,
)

-- What was written is read back.
pub read_bytes-write_bytes :
    (m m' : Memory) (ptr : ℕ) (bs : List ℕ)
    → write_bytes m ptr bs ≡ some m'
    → read_bytes m' ptr (length bs) ≡ some bs
unfolding read_bytes write_bytes
read_bytes-write_bytes m m' ptr [] h = refl
read_bytes-write_bytes m m' ptr (b ∷ bs) h = ground (arith, cells-put_cells m.cell ptr (b ∷ bs))

pub cell-write_bytes_outside :
    (m m' : Memory) (ptr : ℕ) (bs : List ℕ) (q : ℕ)
    → write_bytes m ptr bs ≡ some m'
    → IsOutside q ptr (length bs)
    → m'.cell q ≡ m.cell q
unfolding write_bytes
cell-write_bytes_outside m m' ptr [] q h o = ground arith
cell-write_bytes_outside m m' ptr (b ∷ bs) q h o =
    ground (arith, put_cells_outside m.cell ptr (b ∷ bs) q)

-- A write that fits in the buffer succeeds.
pub write_bytes-some :
    (m : Memory) (ptr : ℕ) (bs : List ℕ)
    → ptr + length bs ≤ m.size
    → (m' : Memory) × (write_bytes m ptr bs ≡ some m')
unfolding write_bytes
write_bytes-some m ptr [] fits = (m, refl)
write_bytes-some m ptr (b ∷ bs) fits =
    (record m { cell = put_cells m.cell ptr (b ∷ bs) }, ground arith)
