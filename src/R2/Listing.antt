-- ===== src/R2/Listing.antt =====
-- deploy/worker/index.mjs: `akamata_r2_delete`, `akamata_r2_head` and the pages of `akamata_r2_list_begin`.
pub mod Page
use mathlib.Core.Option
use akamata.Prelude.{
  ◌>>=◌, ℕ, ◌+◌, Bool, true, false, Option, none, some, List, [], ◌∷◌, leb, if◌then◌else◌, length,
  min,
}
use akamata.Prelude.Numbers.{ℤ, pos, minus}
use akamata.Text.{Text, text}
use akamata.Text.Utf8.{encode}
use akamata.Memory.{Memory, write_bytes, read_string}
use akamata.Json.{
  Json, null, string, integer, object, array, Items, nil, cons, Members, end, member, Codec,
}
use akamata.D1.Registry.{get, put, remove}
use akamata.D1.Statements.{Reply, reply, trap, suspending}
use akamata.R2.Values.{R2}

-- `bucket.delete`: whether its promise is fulfilled
unfoldable pub r2_delete :
    {Bucket : Type 0} → Bool → Option (Text → Bool) → Option Text → R2 Bucket → ℤ × R2 Bucket
unfolding suspending
r2_delete jspi bucket key r =
    suspending jspi
      (λ s. elim bucket [
        | none ↦ (minus 2, s)
        | some delete ↦ elim key [
          | none ↦ (minus 5, s)
          | some k ↦ (if delete k then pos 0 else minus 5, s)
        ]
      ])
      r

-- `bucket.head`: `none` is a failure, and the inner `none` no object
unfoldable pub head_answer : Option (Option ℤ) → ℤ
head_answer none = minus 5
head_answer (some none) = minus 1
head_answer (some (some size)) = size

-- The answer is an i64: without JSPI the sentinel -2, a number, is no BigInt, and the import throws.
unfoldable pub r2_head : Bool → Option (Text → Option (Option ℤ)) → Option Text → Reply ℤ
unfolding head_answer
r2_head false bucket key = trap
r2_head true bucket key = elim bucket [
  | none ↦ reply (minus 2)
  | some head ↦ reply (head_answer (Option.bind key head))
]

-- an object of the page
pub record Listed : Type 0 where
  pub key : Text
  pub size : ℤ
  pub http_etag : Option Text
  pub etag : Option Text

-- `options` of `bucket.list`
pub record ListOptions : Type 0 where
  pub prefix : Text
  pub limit : ℕ
  pub cursor : Option Text

abbrev pub etag_json : Option Text → Option Text → Json
etag_json (some e) other = string e
etag_json none (some e) = string e
etag_json none none = null

abbrev pub listed_json : Listed → Json
listed_json o = object (
    member (text "key") (string o.key) (
      member (text "size") (integer o.size)
        (member (text "etag") (etag_json o.http_etag o.etag) end)))

unfoldable pub page_items : List Listed → Items
page_items [] = nil
page_items (o ∷ os) = cons (listed_json o) (page_items os)

abbrev pub nonempty_text : Text → Option Text
nonempty_text [] = none
nonempty_text (c ∷ s) = some (c ∷ s)

-- `Math.min(Number(limit), 1000)` for the unsigned limits that the Zig side passes
unfoldable pub list_options : Option Text → ℕ → Option Text → Option ListOptions
list_options prefix limit cursor = do
  p ← prefix
  c ← cursor
  some (record { prefix = p; limit = min limit 1000; cursor = nonempty_text c })

unfoldable pub page_bytes : Codec → List Listed → List ℕ
unfolding encode page_items
page_bytes codec objects = encode (codec.stringify (array (page_items objects)))

module _ {Bucket : Type 0} where
  unfoldable pub keep_page : Codec → Option (List Listed) → R2 Bucket → ℤ × R2 Bucket
  unfolding put page_bytes
  keep_page codec none r = (minus 5, r)
  keep_page codec (some objects) r = (
    pos r.next_id,
    record r { next_id = r.next_id + 1; lists = put r.next_id (page_bytes codec objects) r.lists },
  )

  -- `bucket.list`: `none` is a failure
  unfoldable pub r2_list_begin :
      Bool
      → Codec
      → Option (ListOptions → Option (List Listed))
      → Option ListOptions
      → R2 Bucket
      → ℤ × R2 Bucket
  unfolding suspending keep_page
  r2_list_begin jspi codec bucket options r =
      suspending jspi
        (λ s. elim bucket [
          | none ↦ (minus 2, s)
          | some list ↦ keep_page codec (Option.bind options list) s
        ])
        r

  unfoldable pub r2_list_len : ℕ → R2 Bucket → ℕ
  unfolding get
  r2_list_len id r = elim (get id r.lists) [ none ↦ 0 | some bs ↦ length bs ]

  unfoldable pub r2_list_copy : Memory → ℕ → ℕ → ℕ → R2 Bucket → Reply ℤ × Memory
  unfolding get write_bytes
  r2_list_copy m id ptr cap r = elim (get id r.lists) [
    | none ↦ (reply (minus 5), m)
    | some bs ↦
        if leb (length bs) cap
        then elim (write_bytes m ptr bs) [
          | none ↦ (trap, m)
          | some m' ↦ (reply (pos (length bs)), m')
        ]
        else (reply (minus 5), m)
  ]

  unfoldable pub r2_list_close : ℕ → R2 Bucket → R2 Bucket
  unfolding remove
  r2_list_close id r = record r { lists = remove id r.lists }
