-- ===== src/R2/Upload/Whole.antt =====
-- An upload in pieces stores the pieces put together (deploy/worker/index.mjs).
use mathlib.Core.Option
use akamata.Prelude.{ℕ, ◌≡◌, Bool, true, Option, none, some, List, [], ◌∷◌, length}
use akamata.Prelude.Numbers.{ℤ, minus}
use akamata.Text.{Text}
use akamata.Memory.{Memory, read_bytes}
use akamata.D1.Registry.{get, put}
use akamata.R2.Values.{PutOptions, Op, write, Put, R2}
use akamata.R2.Upload.{put_piece, write_at, r2_put_write, finish_op}
use akamata.R2.Upload.Buffer.{concat, total}

-- A piece, and the memory as it is when the piece is written.
pub record Piece : Type 0 where
  pub memory : Memory
  pub ptr : ℕ
  pub len : ℕ

-- what the pieces hold
abbrev pub Holds : List Piece → List (List ℕ) → Type 0
Holds [] [] = Unit
Holds (p ∷ ps) (c ∷ cs) =
    ((read_bytes p.memory p.ptr p.len ≡ some c) × (length c ≡ p.len)) × Holds ps cs
Holds _ _ = ⊥

module _ {Bucket : Type 0} where
  -- The pieces are written one after the other; `none` is a throw.
  unfoldable pub put_pieces : ℕ → List Piece → R2 Bucket → Option (R2 Bucket)
  unfolding r2_put_write
  put_pieces id [] r = some r
  put_pieces id (p ∷ ps) r =
      Option.bind (r2_put_write true p.memory id p.ptr p.len r) (λ x. put_pieces id ps x.1)

  module _ (id : ℕ) (b : Bucket) (key : Text) (o : PutOptions) where
    -- the entry of the upload after these chunks
    abbrev with_chunks : List (List ℕ) → Op Bucket
    with_chunks cs = write b key o cs (total cs)

    abbrev written : List (List ℕ) → R2 Bucket → R2 Bucket
    written cs r = record r { ops = put id (with_chunks cs) r.ops }

    abbrev write_found :
        ℕ → Option (List ℕ) → R2 Bucket → Option (Op Bucket) → Option (ℤ × R2 Bucket)
    write_found len piece r found = elim found [
      | none ↦ some (minus 5, r)
      | some op ↦ write_at id r (put_piece len piece op)
    ]

    -- What the pieces leave: the chunks with theirs, and nothing put yet.
    abbrev After : List (List ℕ) → R2 Bucket → R2 Bucket → Type 0
    After cs r r' = (get id r'.ops ≡ some (with_chunks cs)) × (r'.puts ≡ r.puts)

    abbrev pub whole : List (List ℕ) → Put Bucket
    whole cs = record { bucket = b; key = key; bytes = concat cs; options = o }

    abbrev finish_found : (Put Bucket → Bool) → R2 Bucket → Option (Op Bucket) → ℤ × R2 Bucket
    finish_found accepts r found = elim found [
      | none ↦ (minus 5, r)
      | some op ↦ finish_op accepts id op r
    ]
