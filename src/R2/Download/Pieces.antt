-- ===== src/R2/Download/Pieces.antt =====
-- A download is read in pieces of the caller's buffer (deploy/worker/index.mjs).
use akamata.Prelude.{
  ℕ, suc, ◌+◌, ◌-◌, ◌≤◌, ◌<◌, ◌≡◌, ◌≢◌, refl, sym, ap, ◌∙◌, Option, none, some, List, [], ◌∷◌, ◌++◌,
  arith, append_assoc, length, take, drop, min, length-take, take-append-drop,
}
use akamata.Prelude.Numbers.{ℤ, pos, minus}
use akamata.Text.{Text}
use akamata.Memory.{Memory, read_bytes, write_bytes}
use akamata.Memory.Laws.{read_bytes-write_bytes, write_bytes-some}
use akamata.R2.Values.{Stream, ends, breaks, gives, Op, read}
use akamata.R2.Download.{next_pending, read_op}

-- A stream that ends without an error, and none of whose chunks is empty.
abbrev pub IsWhole : Stream → Type 0
IsWhole ends = Unit
IsWhole breaks = ⊥
IsWhole (gives c s) = (c ≢ []) × IsWhole s

abbrev pub bytes_of : Stream → List ℕ
bytes_of ends = []
bytes_of breaks = []
bytes_of (gives c s) = c ++ bytes_of s

write_bytes-size :
    (m m' : Memory) (ptr : ℕ) (bs : List ℕ) → write_bytes m ptr bs ≡ some m' → m'.size ≡ m.size
unfolding write_bytes
write_bytes-size m m' ptr [] w = ground arith
write_bytes-size m m' ptr (b ∷ bs) w = ground arith

module _ (Bucket : Type 0) (ptr cap : ℕ) (size : ℤ) (etag type custom : Text) where
  abbrev pub reading : Stream → List ℕ → Op Bucket
  reading stream pending = read stream pending size etag type custom

  -- One read of what is left: a piece of at least one byte, and the rest.
  pub record Step (m : Memory) (stream : Stream) (pending : List ℕ) : Type 0 where
    pub count : ℕ
    pub memory : Memory
    pub rest : Stream
    pub left : List ℕ
    pub piece : List ℕ
    pub eq :
        read_op m ptr cap (reading stream pending) ≡ (pos (suc count), memory, reading rest left)
    pub held : read_bytes memory ptr (suc count) ≡ some piece
    pub splits : pending ++ bytes_of stream ≡ piece ++ (left ++ bytes_of rest)
    pub full : length piece ≡ suc count
    pub same_size : memory.size ≡ m.size
    pub whole : IsWhole rest

  -- what `read_op` does with what is pending, and with the result of the write
  abbrev on_write : Memory → Stream → List ℕ → ℕ → Option Memory → ℤ × Memory × Op Bucket
  on_write m rest bytes n o = elim o [
    | none ↦ (minus 5, m, reading rest bytes)
    | some m' ↦ (pos n, m', reading rest (drop n bytes))
  ]

  abbrev on_next :
      Memory → Stream → List ℕ → Option (Option (List ℕ × Stream)) → ℤ × Memory × Op Bucket
  on_next m stream pending o = elim o [
    | none ↦ (minus 5, m, reading stream pending)
    | some none ↦ (pos 0, m, reading stream pending)
    | some (some (bytes, rest)) ↦
        let n = min cap (length bytes) in on_write m rest bytes n (write_bytes m ptr (take n bytes))
  ]

  Step-bytes :
      (m : Memory) (stream rest : Stream) (pending : List ℕ) (b : ℕ) (bs : List ℕ)
      → ptr + cap ≤ m.size
      → 0 < cap
      → next_pending stream pending ≡ some (some (b ∷ bs, rest))
      → pending ++ bytes_of stream ≡ (b ∷ bs) ++ bytes_of rest
      → IsWhole rest
      → Step m stream pending
  unfolding read_op
  Step-bytes m stream rest pending b bs fits room next all w =
      let n = min cap (length (b ∷ bs)) in
      let (m', wrote) =
        write_bytes-some m ptr (take n (b ∷ bs)) (omega (arith, length-take n (b ∷ bs))) in
      let some_bytes : n ≡ suc (n - 1) = omega arith in
      let size_eq : length (take n (b ∷ bs)) ≡ n = omega (arith, length-take n (b ∷ bs)) in
      record {
        count = n - 1;
        memory = m';
        rest = rest;
        left = drop n (b ∷ bs);
        piece = take n (b ∷ bs);
        eq =
            ap (on_next m stream pending) next
            ∙ ap (on_write m rest (b ∷ bs) n) wrote
            ∙ ap (λ k. (pos k, m', reading rest (drop n (b ∷ bs)))) some_bytes;
        held =
            ap (read_bytes m' ptr) (sym some_bytes)
            ∙ ap (read_bytes m' ptr) (sym size_eq)
            ∙ read_bytes-write_bytes m m' ptr (take n (b ∷ bs)) wrote;
        splits =
            all
            ∙ ap (λ xs. xs ++ bytes_of rest) (sym (take-append-drop n (b ∷ bs)))
            ∙ append_assoc (take n (b ∷ bs)) (drop n (b ∷ bs)) (bytes_of rest);
        full = size_eq ∙ some_bytes;
        same_size = write_bytes-size m m' ptr (take n (b ∷ bs)) wrote;
        whole = w;
      }

  -- While bytes are left, a read gives some of them.
  pub Step-more :
      (m : Memory) (stream : Stream) (pending : List ℕ)
      → ptr + cap ≤ m.size
      → 0 < cap
      → IsWhole stream
      → pending ++ bytes_of stream ≢ []
      → Step m stream pending
  unfolding next_pending
  Step-more m stream (b ∷ pending) fits room w more =
      Step-bytes m stream stream (b ∷ pending) b pending fits room refl refl w
  Step-more m ends [] fits room w more = absurd (more refl)
  Step-more m breaks [] fits room w more = absurd w
  Step-more m (gives [] stream) [] fits room w more = absurd (w.0 refl)
  Step-more m (gives (b ∷ c) stream) [] fits room w more =
      Step-bytes m (gives (b ∷ c) stream) stream [] b c fits room refl refl w.1

  -- When none is left, a read gives 0.
  pub step-end :
      (m : Memory) (stream : Stream) (pending : List ℕ)
      → IsWhole stream
      → pending ++ bytes_of stream ≡ []
      → (read_op m ptr cap (reading stream pending)).0 ≡ pos 0
  unfolding next_pending read_op
  step-end m stream (b ∷ pending) w e = ground arith
  step-end m ends [] w e = refl
  step-end m breaks [] w e = absurd w
  step-end m (gives [] stream) [] w e = absurd (w.0 refl)
  step-end m (gives (b ∷ c) stream) [] w e = ground arith
