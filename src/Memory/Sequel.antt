-- ===== src/Memory/Sequel.antt =====
-- Two writes, one behind the other (deploy/worker/index.mjs), are one.
use akamata.Prelude.{
  ℕ, ◌+◌, ◌≤◌, ◌≡◌, refl, sym, ap, ap₂, ◌∙◌, subst, some, List, [], ◌∷◌, ◌++◌, arith, length,
  length-append, inl, inr, zero, suc, ◌⊎◌, leb, ◌==◌, if◌then◌else◌, none,
}
use akamata.Memory.{Memory, cells, update, put_cells, read_bytes, write_bytes}
use akamata.Memory.Laws.{IsOutside, put_cells_outside}

-- The cells from `p` on hold the bytes.
abbrev HoldsAt : (ℕ → ℕ) → ℕ → List ℕ → Type 0
HoldsAt f p [] = Unit
HoldsAt f p (b ∷ bs) = (f p ≡ b) × HoldsAt f (p + 1) bs

HoldsAt-put_cells : (f : ℕ → ℕ) (p : ℕ) (bs : List ℕ) → HoldsAt (put_cells f p bs) p bs
unfolding put_cells
HoldsAt-put_cells f p [] = tt
HoldsAt-put_cells f p (b ∷ bs) = (
  ground (arith, put_cells_outside (update f p b) (p + 1) bs p),
  HoldsAt-put_cells (update f p b) (p + 1) bs,
)

HoldsAt-outside :
    (f : ℕ → ℕ) (p q : ℕ) (cs bs : List ℕ)
    → p + length cs ≤ q
    → HoldsAt f p cs
    → HoldsAt (put_cells f q bs) p cs
HoldsAt-outside f p q [] bs le h = tt
HoldsAt-outside f p q (a ∷ cs) bs le h = (
  put_cells_outside f q bs p (inl (omega (arith, le))) ∙ h.0,
  HoldsAt-outside f (p + 1) q cs bs (omega (arith, le)) h.1,
)

HoldsAt-append :
    (f : ℕ → ℕ) (p q : ℕ) (cs bs : List ℕ)
    → p + length cs ≡ q
    → HoldsAt f p cs
    → HoldsAt f q bs
    → HoldsAt f p (cs ++ bs)
HoldsAt-append f p q [] bs e g h = subst (λ k. HoldsAt f k bs) {x = q} {y = p} (omega (arith, e)) h
HoldsAt-append f p q (a ∷ cs) bs e g h =
    (g.0, HoldsAt-append f (p + 1) q cs bs (omega (arith, e)) g.1 h)

HoldsAt-cells : (f : ℕ → ℕ) (p : ℕ) (bs : List ℕ) → HoldsAt f p bs → cells f p (length bs) ≡ bs
unfolding cells
HoldsAt-cells f p [] h = refl
HoldsAt-cells f p (b ∷ bs) h = ap₂ (λ x xs. x ∷ xs) h.0 (HoldsAt-cells f (p + 1) bs h.1)

HoldsAt-read_bytes :
    (m : Memory) (p : ℕ) (bs : List ℕ)
    → p + length bs ≤ m.size
    → HoldsAt m.cell p bs
    → read_bytes m p (length bs) ≡ some bs
unfolding read_bytes
HoldsAt-read_bytes m p [] fits h = refl
HoldsAt-read_bytes m p (b ∷ bs) fits h = ground (arith, HoldsAt-cells m.cell p (b ∷ bs) h)

-- the memory after a write that fits
abbrev pub overwritten : Memory → ℕ → List ℕ → Memory
overwritten m p bs = record m { cell = put_cells m.cell p bs }

pub write_bytes-overwritten :
    (m : Memory) (p : ℕ) (bs : List ℕ)
    → p + length bs ≤ m.size
    → write_bytes m p bs ≡ some (overwritten m p bs)
unfolding write_bytes put_cells
write_bytes-overwritten m p [] fits = refl
write_bytes-overwritten m p (b ∷ bs) fits = ground arith

pub read_bytes-overwritten :
    (m : Memory) (p : ℕ) (bs : List ℕ)
    → p + length bs ≤ m.size
    → read_bytes (overwritten m p bs) p (length bs) ≡ some bs
read_bytes-overwritten m p bs fits =
    HoldsAt-read_bytes (overwritten m p bs) p bs fits (HoldsAt-put_cells m.cell p bs)

-- Two texts that are written one behind the other are read back cs one.
pub read_bytes-overwritten_twice :
    (m : Memory) (p : ℕ) (cs bs : List ℕ)
    → p + (length cs + length bs) ≤ m.size
    → read_bytes (overwritten (overwritten m p cs) (p + length cs) bs) p (length cs + length bs)
      ≡ some (cs ++ bs)
read_bytes-overwritten_twice m p cs bs fits =
    let m' = overwritten (overwritten m p cs) (p + length cs) bs in
    ap (read_bytes m' p) (sym (length-append cs bs))
    ∙ HoldsAt-read_bytes m' p (cs ++ bs) (omega (arith, fits, length-append cs bs)) (
        HoldsAt-append m'.cell p (p + length cs) cs bs refl
          (HoldsAt-outside (put_cells m.cell p cs) p (p + length cs) cs bs (omega arith)
            (HoldsAt-put_cells m.cell p cs))
          (HoldsAt-put_cells (put_cells m.cell p cs) (p + length cs) bs))

-- Two ranges of bytes without a common one.
abbrev pub AreApart : ℕ → ℕ → ℕ → ℕ → Type 0
AreApart p n q k = (p + n ≤ q) ⊎ (q + k ≤ p)

IsOutside-apart : (p n q k : ℕ) → AreApart p (suc n) q k → IsOutside p q k
IsOutside-apart p n q k (inl h) = inl (omega (arith, h))
IsOutside-apart p n q k (inr h) = inr h

apart_next : (p n q k : ℕ) → AreApart p (suc n) q k → AreApart (p + 1) n q k
apart_next p n q k (inl h) = inl (omega (arith, h))
apart_next p n q k (inr h) = inr (omega (arith, h))

cells_apart :
    (f : ℕ → ℕ) (p n q : ℕ) (bs : List ℕ)
    → AreApart p n q (length bs)
    → cells (put_cells f q bs) p n ≡ cells f p n
unfolding cells
cells_apart f p zero q bs h = refl
cells_apart f p (suc n) q bs h =
    ap₂ (λ (x : ℕ) xs. x ∷ xs) (put_cells_outside f q bs p (IsOutside-apart p n q (length bs) h))
      (cells_apart f (p + 1) n q bs (apart_next p n q (length bs) h))

-- A write leaves what lies apart from it.
pub read_bytes-overwritten_apart :
    (m : Memory) (p n q : ℕ) (bs : List ℕ)
    → AreApart p n q (length bs)
    → read_bytes (overwritten m q bs) p n ≡ read_bytes m p n
unfolding read_bytes
read_bytes-overwritten_apart m p n q bs h =
    ap (λ (xs : List ℕ). if n == 0 then some [] else if leb (p + n) m.size then some xs else none)
      (cells_apart m.cell p n q bs h)
