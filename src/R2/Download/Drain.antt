-- ===== src/R2/Download/Drain.antt =====
-- A download, read until the answer is 0, gives the whole body (deploy/worker/index.mjs).
use akamata.Prelude.{
  true, ℕ, zero, suc, ◌+◌, ◌≤◌, ◌<◌, ◌≡◌, ◌≢◌, ◌⊎◌, refl, sym, ap, ap₂, ◌∙◌, Option, none, some,
  List, [], ◌∷◌, ◌++◌, arith, length, inl, inr, length-append,
}
use akamata.Prelude.Numbers.{ℤ, pos, negsuc}
use akamata.Text.{Text}
use akamata.Memory.{Memory, read_bytes}
use akamata.D1.Registry.{get, put}
use akamata.D1.Registry.Laws.{get-put}
use akamata.R2.Values.{Stream, Op, read, R2}
use akamata.R2.Download.{read_op, r2_get_read}
use akamata.R2.Download.Pieces.{IsWhole, bytes_of, reading, Step, Step-more, step-end}

-- a piece, and what the further reads give
abbrev pub both : Option (List ℕ) → Option (List ℕ) → Option (List ℕ)
both (some bs) (some rest) = some (bs ++ rest)
both _ _ = none

List-cases : (xs : List ℕ) → (xs ≡ []) ⊎ (xs ≢ [])
List-cases [] = inl refl
List-cases (x ∷ xs) = inr (λ e. ground arith)

module _ {Bucket : Type 0} where
  -- The bytes that a caller collects who reads into one buffer, at most `n` times, until the answer is 0; `none` if an
  -- answer is negative, if the bytes cannot be read, or if no answer is 0.
  unfoldable pub download : ℕ → Memory → ℕ → ℕ → ℕ → R2 Bucket → Option (List ℕ)
  unfolding r2_get_read
  download zero m id ptr cap r = none
  download (suc n) m id ptr cap r =
      let x : ℤ × Memory × R2 Bucket = r2_get_read true m id ptr cap r in
      let rest = download n x.1 id ptr cap x.2 in
      elim x.0 [
        | pos k ↦ elim k [ zero ↦ some [] | suc j ↦ both (read_bytes x.1 ptr (suc j)) rest ]
        | negsuc k ↦ none
      ]

  abbrev collect : ℕ → ℕ → ℕ → ℕ → ℤ × Memory × R2 Bucket → Option (List ℕ)
  collect n id ptr cap x =
      let rest = download n x.1 id ptr cap x.2 in
      elim x.0 [
        | pos k ↦ elim k [ zero ↦ some [] | suc j ↦ both (read_bytes x.1 ptr (suc j)) rest ]
        | negsuc k ↦ none
      ]

  abbrev after_read : ℕ → R2 Bucket → ℤ × Memory × Op Bucket → ℤ × Memory × R2 Bucket
  after_read id r x = (x.0, x.1, record r { ops = put id x.2 r.ops })

  abbrev read_found : Memory → ℕ → ℕ → ℕ → R2 Bucket → Option (Op Bucket) → ℤ × Memory × R2 Bucket
  read_found m id ptr cap r found = elim found [
    | none ↦ (negsuc 4, m, r)
    | some op ↦ after_read id r (read_op m ptr cap op)
  ]

  read-eq :
      (m : Memory) (id ptr cap : ℕ) (r : R2 Bucket) (op : Op Bucket)
      → get id r.ops ≡ some op
      → r2_get_read true m id ptr cap r ≡ after_read id r (read_op m ptr cap op)
  unfolding r2_get_read
  read-eq m id ptr cap r op found = ap (read_found m id ptr cap r) found

  ended :
      (n : ℕ) (id ptr cap : ℕ) (x : ℤ × Memory × R2 Bucket)
      → x.0 ≡ pos 0
      → collect n id ptr cap x ≡ some []
  ended n id ptr cap x e = ground arith

module _ (Bucket : Type 0) (id ptr cap : ℕ) (size : ℤ) (etag type custom : Text) where
  -- what `download-Rest` says of one round fewer
  abbrev Rest : ℕ → Type 0
  Rest n =
      (m : Memory) (stream : Stream) (pending : List ℕ) (r : R2 Bucket)
      → get id r.ops ≡ some (reading Bucket ptr cap size etag type custom stream pending)
      → ptr + cap ≤ m.size
      → 0 < cap
      → IsWhole stream
      → length (pending ++ bytes_of stream) < n
      → download n m id ptr cap r ≡ some (pending ++ bytes_of stream)

  goes_on :
      (n : ℕ) (m : Memory) (stream : Stream) (pending : List ℕ) (r : R2 Bucket)
      → Rest n
      → ptr + cap ≤ m.size
      → 0 < cap
      → length (pending ++ bytes_of stream) < suc n
      → Step Bucket ptr cap size etag type custom m stream pending
      → collect n id ptr cap (
          after_read id r
            (read_op m ptr cap (reading Bucket ptr cap size etag type custom stream pending)))
        ≡ some (pending ++ bytes_of stream)
  goes_on n m stream pending r again fits room enough s =
      let entry = reading Bucket ptr cap size etag type custom s.rest s.left in
      let shorter : length (s.left ++ bytes_of s.rest) < n = omega (
        arith,
        enough,
        s.full,
        ap length s.splits,
        length-append s.piece (s.left ++ bytes_of s.rest),
      ) in
      ap (λ x. collect n id ptr cap (after_read id r x)) s.eq
      ∙ ap₂ both s.held (
          again s.memory s.rest s.left (record r { ops = put id entry r.ops })
            (ground (arith, get-put id id entry r.ops)) (omega (arith, s.same_size)) room s.whole
            shorter)
      ∙ ap some (sym s.splits)

  download-Rest : (n : ℕ) → Rest n
  unfolding download
  download-Rest zero m stream pending r found fits room w enough = ground arith
  download-Rest (suc n) m stream pending r found fits room w enough =
      ap (collect n id ptr cap)
        (read-eq m id ptr cap r (reading Bucket ptr cap size etag type custom stream pending) found)
      ∙ elim (List-cases (pending ++ bytes_of stream)) [
        | inl empty ↦
            ended n id ptr cap _
              (step-end Bucket ptr cap size etag type custom m stream pending w empty)
            ∙ ap some (sym empty)
        | inr more ↦
            goes_on n m stream pending r (download-Rest n) fits room enough
              (Step-more Bucket ptr cap size etag type custom m stream pending fits room w more)
      ]

-- A download that has begun on a stream without errors and empty chunks, read into a buffer of at least one
-- byte that lies in the memory: at most one read for each byte of the body answers a positive number, and the next one answers 0; the
-- pieces that the reads leave in the buffer, put together, are the body.
pub download_lem :
    {Bucket : Type 0} (id ptr cap : ℕ) (size : ℤ) (etag type custom : Text) (m : Memory)
    (stream : Stream) (r : R2 Bucket)
    → get id r.ops ≡ some (read stream [] size etag type custom)
    → ptr + cap ≤ m.size
    → 0 < cap
    → IsWhole stream
    → download (suc (length (bytes_of stream))) m id ptr cap r ≡ some (bytes_of stream)
download_lem {Bucket} id ptr cap size etag type custom m stream r found fits room w =
    download-Rest Bucket id ptr cap size etag type custom (suc (length (bytes_of stream))) m stream
      [] r found fits room w (omega arith)
