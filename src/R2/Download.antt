-- ===== src/R2/Download.antt =====
-- deploy/worker/index.mjs: `akamata_r2_get_begin` and what reads from the download that it begins.
pub mod Pieces
pub mod Drain
use mathlib.Core.Option
use akamata.Prelude.{
  ◌>>=◌, ℕ, zero, suc, ◌+◌, Bool, true, false, Option, none, some, List, [], ◌∷◌, ◌++◌,
  if◌then◌else◌, length, take, drop, min,
}
use akamata.Prelude.Numbers.{ℤ, pos, negsuc, minus}
use akamata.Text.{Text, text}
use akamata.Memory.{Memory, write_bytes, read_string}
use akamata.Json.{Json, null, Codec}
use akamata.D1.Registry.{get, put, remove}
use akamata.D1.Statements.{Reply, reply, trap, suspending}
use akamata.R2.Values.{
  Stream, ends, breaks, gives, Op, write, read, R2, truthy_field, copy_r2_string,
}

-- `getOptions.onlyIf`
pub data Condition : Type 0 where
  always : Condition
  etag_matches etag_does_not_match : Json → Condition

-- `getOptions`; the range is an offset, with a length if that is positive
pub record GetOptions : Type 0 where
  pub range : Option (ℤ × Option ℤ)
  pub only_if : Condition

-- What `bucket.get` answers
pub record Object : Type 0 where
  pub body : Option Stream
  pub range_length : Option ℤ
  pub size : ℤ
  pub http_etag : Option Text
  pub etag : Option Text
  pub content_type : Option Text
  pub custom_metadata : Text

pub data Found : Type 0 where
  rejects absent : Found
  object : Object → Found

-- `if_none_match` overwrites `if_match`
unfoldable pub condition_of : Option Json → Option Json → Condition
condition_of matches (some v) = etag_does_not_match v
condition_of (some v) none = etag_matches v
condition_of none none = always

unfoldable pub range_of : ℤ → ℤ → Option (ℤ × Option ℤ)
range_of offset (pos (suc n)) = some (offset, some (pos (suc n)))
range_of offset _ = some (offset, none)

-- A field of null is a throw.
unfoldable pub get_options : ℤ → ℤ → Bool → Json → Option GetOptions
unfolding truthy_field condition_of range_of
get_options offset size has_range null = none
get_options offset size has_range options = some (record {
  range = if has_range then range_of offset size else none;
  only_if =
      condition_of (truthy_field (text "if_match") options)
        (truthy_field (text "if_none_match") options);
})

abbrev pub first_of {ℓ} : {A : Type ℓ} → Option A → Option A → A → A
first_of (some a) o d = a
first_of none (some b) d = b
first_of none none d = d

-- the options and the key, if they are read; `none` is a throw
unfoldable pub get_request :
    Codec → Memory → ℕ → ℕ → ℤ → ℤ → Bool → ℕ → ℕ → Option (Text × GetOptions)
unfolding get_options read_string
get_request codec m key_ptr key_len offset size has_range options_ptr options_len = do
  source ← read_string m options_ptr options_len
  parsed ← codec.parse source
  options ← get_options offset size has_range parsed
  key ← read_string m key_ptr key_len
  some (key, options)

-- `await op.reader.read()` where nothing is pending; `none` is its failure
unfoldable pub next_pending : Stream → List ℕ → Option (Option (List ℕ × Stream))
next_pending stream (b ∷ pending) = some (some (b ∷ pending, stream))
next_pending ends [] = some none
next_pending breaks [] = none
next_pending (gives chunk stream) [] = some (some (chunk, stream))

module _ {Bucket : Type 0} where
  -- the answers of `bucket.get`: its failure, no object, one that the condition kept back, and one with a body
  unfoldable pub begin_get : Found → R2 Bucket → ℤ × R2 Bucket
  unfolding put
  begin_get rejects r = (minus 5, r)
  begin_get absent r = (minus 1, r)
  begin_get (object x) r = elim x.body [
    | none ↦ (minus 3, r)
    | some stream ↦ (
      pos r.next_id,
      record r {
        next_id = r.next_id + 1;
        ops =
            put r.next_id
              (read stream [] (first_of x.range_length none x.size) (first_of x.http_etag x.etag [])
                (first_of x.content_type none []) x.custom_metadata)
              r.ops;
      },
    )
  ]

  -- `bucket`: what `bucket.get` of the binding answers to a key and options, if it has one
  unfoldable pub r2_get_begin :
      Bool
      → Option (Text → GetOptions → Found)
      → Option (Text × GetOptions)
      → R2 Bucket
      → ℤ × R2 Bucket
  unfolding suspending begin_get
  r2_get_begin jspi bucket request r =
      suspending jspi
        (λ s. elim bucket [
          | none ↦ (minus 2, s)
          | some find ↦ elim request [ none ↦ (minus 5, s) | some x ↦ begin_get (find x.0 x.1) s ]
        ])
        r

  -- A write that throws is caught, and the chunk stays pending.
  unfoldable pub read_op : Memory → ℕ → ℕ → Op Bucket → ℤ × Memory × Op Bucket
  unfolding next_pending write_bytes
  read_op m out_ptr out_cap (write bucket key options chunks size) =
      (minus 5, m, write bucket key options chunks size)
  read_op m out_ptr out_cap (read stream pending size etag type custom) =
      elim (next_pending stream pending) [
        | none ↦ (minus 5, m, read stream pending size etag type custom)
        | some none ↦ (pos 0, m, read stream pending size etag type custom)
        | some (some (bytes, rest)) ↦
            let n = min out_cap (length bytes) in
            elim (write_bytes m out_ptr (take n bytes)) [
              | none ↦ (minus 5, m, read rest bytes size etag type custom)
              | some m' ↦ (pos n, m', read rest (drop n bytes) size etag type custom)
            ]
      ]

  abbrev read_by : Memory → ℕ → ℕ → ℕ → R2 Bucket → Option (Op Bucket) → ℤ × Memory × R2 Bucket
  read_by m id out_ptr out_cap r none = (minus 5, m, r)
  read_by m id out_ptr out_cap r (some op) =
      let (n, m', op') = read_op m out_ptr out_cap op in
      (n, m', record r { ops = put id op' r.ops })

  -- Without JSPI every call is the sentinel -2.
  unfoldable pub r2_get_read : Bool → Memory → ℕ → ℕ → ℕ → R2 Bucket → ℤ × Memory × R2 Bucket
  unfolding get put read_op
  r2_get_read jspi m id out_ptr out_cap r =
      if jspi then read_by m id out_ptr out_cap r (get id r.ops) else (minus 2, m, r)

  unfoldable pub r2_get_close : ℕ → R2 Bucket → R2 Bucket
  unfolding remove
  r2_get_close id r = record r { ops = remove id r.ops }

  -- `r2ops.get(id)?.size ?? 0`
  unfoldable pub r2_get_size : ℕ → R2 Bucket → ℤ
  unfolding get
  r2_get_size id r = elim (get id r.ops) [
    | none ↦ pos 0
    | some op ↦ elim op [
      | write bucket key options chunks size ↦ pos size
      | read stream pending size etag type custom ↦ size
    ]
  ]

  -- `r2ops.get(id)?.etag ?? ""`, and the same of the content type and the metadata
  unfoldable pub text_field : (Text → Text → Text → Text) → ℕ → R2 Bucket → Text
  unfolding get
  text_field pick id r = elim (get id r.ops) [
    | none ↦ []
    | some op ↦ elim op [
      | write bucket key options chunks size ↦ []
      | read stream pending size etag type custom ↦ pick etag type custom
    ]
  ]

  unfoldable pub r2_get_etag : Memory → ℕ → ℕ → ℕ → R2 Bucket → Reply ℤ × Memory
  unfolding text_field copy_r2_string
  r2_get_etag m id ptr cap r = copy_r2_string m (text_field (λ e t c. e) id r) ptr cap

  unfoldable pub r2_get_content_type : Memory → ℕ → ℕ → ℕ → R2 Bucket → Reply ℤ × Memory
  unfolding text_field copy_r2_string
  r2_get_content_type m id ptr cap r = copy_r2_string m (text_field (λ e t c. t) id r) ptr cap

  unfoldable pub r2_get_custom_metadata : Memory → ℕ → ℕ → ℕ → R2 Bucket → Reply ℤ × Memory
  unfolding text_field copy_r2_string
  r2_get_custom_metadata m id ptr cap r = copy_r2_string m (text_field (λ e t c. c) id r) ptr cap
