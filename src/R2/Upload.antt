-- ===== src/R2/Upload.antt =====
-- deploy/worker/index.mjs: `akamata_r2_put_begin`, `akamata_r2_put_write` and `akamata_r2_put_finish`.
pub mod Buffer
pub mod Whole
use mathlib.Core.Option
use akamata.Prelude.{
  ◌>>=◌, ℕ, zero, suc, ◌+◌, ◌*◌, Bool, true, false, Option, none, some, List, [], ◌∷◌, ◌++◌, ltb,
  leb, if◌then◌else◌, length, take, drop,
}
use akamata.Prelude.Numbers.{ℤ, pos, minus}
use akamata.Text.{Text, text}
use akamata.Memory.{Memory, read_bytes, read_string}
use akamata.Json.{Json, null, Codec}
use akamata.D1.Registry.{get, put, remove}
use akamata.D1.Statements.{suspending}
use akamata.R2.Values.{PutOptions, Op, write, read, Put, R2, Coding, truthy_field, source_of}

-- `none` is a throw of `JSON.parse`, or of `String` in it
unfoldable pub metadata_option : Coding → Option Json → Option (Option Json)
unfolding source_of
metadata_option c none = some none
metadata_option c (some v) = Option.map some (Option.bind (source_of c v) c.codec.parse)

-- A field of null is a throw.
unfoldable pub put_options : Coding → Json → Option PutOptions
unfolding truthy_field metadata_option
put_options c null = none
put_options c options = do
  metadata ← metadata_option c (truthy_field (text "metadata_json") options)
  some (record {
    content_type = truthy_field (text "content_type") options;
    custom_metadata = metadata;
    etag_matches = truthy_field (text "if_match") options;
  })

abbrev pub max_upload : ℕ
max_upload = 8 * 1024 * 1024

module _ {Bucket : Type 0} where
  -- after `const id = nextR2Id++`
  unfoldable pub begin_put : Bucket → Option PutOptions → Option Text → R2 Bucket → ℤ × R2 Bucket
  unfolding put
  begin_put bucket (some options) (some key) r = (
    pos r.next_id,
    record r { next_id = r.next_id + 1; ops = put r.next_id (write bucket key options [] 0) r.ops },
  )
  begin_put bucket _ _ r = (minus 5, record r { next_id = r.next_id + 1 })

  -- `bucket`: the object of the binding, if it has a `put`
  unfoldable pub r2_put_begin :
      Bool → Coding → Option Bucket → Memory → ℕ → ℕ → ℕ → ℕ → R2 Bucket → ℤ × R2 Bucket
  unfolding suspending begin_put put_options read_string
  r2_put_begin jspi c bucket m key_ptr key_len options_ptr options_len r =
      suspending jspi
        (λ s. elim bucket [
          | none ↦ (minus 2, s)
          | some b ↦ elim (Option.bind (read_string m options_ptr options_len) c.codec.parse) [
            | none ↦ (minus 5, s)
            | some options ↦ begin_put b (put_options c options) (read_string m key_ptr key_len) s
          ]
        ])
        r

  -- `piece` is what the view holds; a view that does not fit in the memory is a throw, which leaves the upload alone
  unfoldable pub put_piece : ℕ → Option (List ℕ) → Op Bucket → Option (ℤ × Op Bucket)
  put_piece len piece (read stream pending size etag type custom) =
      some (minus 5, read stream pending size etag type custom)
  put_piece len piece (write bucket key options chunks size) =
      if ltb max_upload (size + len)
      then some (minus 5, write bucket key options chunks size)
      else Option.map (λ bs. (pos 0, write bucket key options (chunks ++ (bs ∷ [])) (size + len)))
          piece

  abbrev pub write_at : ℕ → R2 Bucket → Option (ℤ × Op Bucket) → Option (ℤ × R2 Bucket)
  write_at id r o = Option.map (λ x. (x.0, record r { ops = put id x.1 r.ops })) o

  -- `none`: the call throws
  unfoldable pub r2_put_write : Bool → Memory → ℕ → ℕ → ℕ → R2 Bucket → Option (ℤ × R2 Bucket)
  unfolding get put put_piece read_bytes
  r2_put_write false m id ptr len r = some (minus 2, r)
  r2_put_write true m id ptr len r = elim (get id r.ops) [
    | none ↦ some (minus 5, r)
    | some op ↦ write_at id r (put_piece len (read_bytes m ptr len) op)
  ]

abbrev pub zeros : ℕ → List ℕ
zeros zero = []
zeros (suc n) = 0 ∷ zeros n

-- `bytes.set(chunk, offset)`: a RangeError if it does not fit
unfoldable pub set_range : List ℕ → ℕ → List ℕ → Option (List ℕ)
set_range bytes offset chunk =
    if leb (offset + length chunk) (length bytes)
    then some (take offset bytes ++ (chunk ++ drop (offset + length chunk) bytes))
    else none

-- the loop over the chunks
unfoldable pub set_chunks : List ℕ → ℕ → List (List ℕ) → Option (List ℕ)
unfolding set_range
set_chunks bytes offset [] = some bytes
set_chunks bytes offset (chunk ∷ chunks) =
    Option.bind (set_range bytes offset chunk) (λ bs. set_chunks bs (offset + length chunk) chunks)

module _ {Bucket : Type 0} where
  -- `accepts`: whether the promise of `bucket.put` is fulfilled
  unfoldable pub put_whole :
      (Put Bucket → Bool) → Bucket → Text → PutOptions → Option (List ℕ) → R2 Bucket → ℤ × R2 Bucket
  put_whole accepts bucket key options none r = (minus 5, r)
  put_whole accepts bucket key options (some bytes) r =
      let call : Put Bucket = record {
        bucket = bucket;
        key = key;
        bytes = bytes;
        options = options;
      } in
      (if accepts call then pos 0 else minus 5, record r { puts = call ∷ r.puts })

  unfoldable pub finish_op : (Put Bucket → Bool) → ℕ → Op Bucket → R2 Bucket → ℤ × R2 Bucket
  unfolding put_whole set_chunks remove
  finish_op accepts id (read stream pending size etag type custom) r = (minus 5, r)
  finish_op accepts id (write bucket key options chunks size) r =
      put_whole accepts bucket key options (set_chunks (zeros size) 0 chunks)
        (record r { ops = remove id r.ops })

  unfoldable pub r2_put_finish : Bool → (Put Bucket → Bool) → ℕ → R2 Bucket → ℤ × R2 Bucket
  unfolding suspending get finish_op
  r2_put_finish jspi accepts id r =
      suspending jspi
        (λ s. elim (get id s.ops) [ none ↦ (minus 5, s) | some op ↦ finish_op accepts id op s ]) r
