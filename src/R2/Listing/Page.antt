-- ===== src/R2/Listing/Page.antt =====
-- A page of a listing comes whole into a buffer of the length that was asked for
-- (deploy/worker/index.mjs).
use mathlib.Core.Option
use akamata.Prelude.{
  ℕ, ◌+◌, ◌≤◌, ◌≡◌, sym, ap, ap₂, ◌∙◌, true, Option, none, some, List, arith, leb, if◌then◌else◌,
  length,
}
use akamata.Prelude.Numbers.{ℤ, pos, minus}
use akamata.Memory.{Memory, read_bytes, write_bytes}
use akamata.Memory.Laws.{read_bytes-write_bytes, write_bytes-some}
use akamata.Json.{Codec}
use akamata.D1.Registry.{get, put}
use akamata.D1.Registry.Laws.{get-put}
use akamata.D1.Statements.{Reply, reply, trap, suspending}
use akamata.R2.Values.{R2}
use akamata.R2.Listing.{
  Listed, ListOptions, page_bytes, keep_page, r2_list_begin, r2_list_len, r2_list_copy,
}

abbrev copy_found : Memory → ℕ → ℕ → Option (List ℕ) → Reply ℤ × Memory
copy_found m ptr cap o = elim o [
  | none ↦ (reply (minus 5), m)
  | some bs ↦
      if leb (length bs) cap
      then elim (write_bytes m ptr bs) [
        | none ↦ (trap, m)
        | some m' ↦ (reply (pos (length bs)), m')
      ]
      else (reply (minus 5), m)
]

copy-whole :
    (m m' : Memory) (ptr : ℕ) (bs : List ℕ)
    → write_bytes m ptr bs ≡ some m'
    → copy_found m ptr (length bs) (some bs) ≡ (reply (pos (length bs)), m')
copy-whole m m' ptr bs w = ground arith

module _ {Bucket : Type 0} where
  abbrev kept : Codec → List Listed → R2 Bucket → R2 Bucket
  kept codec objects r = record r {
    next_id = r.next_id + 1;
    lists = put r.next_id (page_bytes codec objects) r.lists;
  }

  begin-eq :
      (codec : Codec) (list : ListOptions → Option (List Listed)) (options : Option ListOptions)
      (objects : List Listed) (r : R2 Bucket)
      → Option.bind options list ≡ some objects
      → r2_list_begin true codec (some list) options r ≡ (pos r.next_id, kept codec objects r)
  unfolding r2_list_begin suspending keep_page
  begin-eq codec list options objects r e = ap (λ o. keep_page codec o r) e

  kept-get :
      (codec : Codec) (objects : List Listed) (r : R2 Bucket)
      → get r.next_id (kept codec objects r).lists ≡ some (page_bytes codec objects)
  kept-get codec objects r =
      ground (arith, get-put r.next_id r.next_id (page_bytes codec objects) r.lists)

  len-eq :
      (codec : Codec) (objects : List Listed) (r : R2 Bucket)
      → r2_list_len r.next_id (kept codec objects r) ≡ length (page_bytes codec objects)
  unfolding r2_list_len
  len-eq codec objects r =
      ap (λ (o : Option (List ℕ)). elim o [ none ↦ 0 | some bs ↦ length bs ])
        (kept-get codec objects r)

  copy-eq :
      (codec : Codec) (objects : List Listed) (r : R2 Bucket) (m : Memory) (ptr cap : ℕ)
      → r2_list_copy m r.next_id ptr cap (kept codec objects r)
        ≡ copy_found m ptr cap (some (page_bytes codec objects))
  unfolding r2_list_copy
  copy-eq codec objects r m ptr cap = ap (copy_found m ptr cap) (kept-get codec objects r)

-- If the bucket answers the listing, the page has the next id; `akamata_r2_list_len` of it is the number of bytes
-- of the page's JSON, and `akamata_r2_list_copy` into a buffer of that length inside the memory copies all
-- of them.
pub page_lem :
    {Bucket : Type 0} (codec : Codec) (list : ListOptions → Option (List Listed))
    (options : Option ListOptions) (objects : List Listed) (r r' : R2 Bucket) (id : ℤ) (m : Memory)
    (ptr : ℕ)
    → Option.bind options list ≡ some objects
    → r2_list_begin true codec (some list) options r ≡ (id, r')
    → ptr + length (page_bytes codec objects) ≤ m.size
    → (id ≡ pos r.next_id)
      × (r2_list_len r.next_id r' ≡ length (page_bytes codec objects))
      × ((m' : Memory) × (r2_list_copy m r.next_id ptr (r2_list_len r.next_id r') r'
            ≡ (reply (pos (length (page_bytes codec objects))), m'))
          × (read_bytes m' ptr (length (page_bytes codec objects))
              ≡ some (page_bytes codec objects)))
page_lem {Bucket} codec list options objects r r' id m ptr answered begun fits =
    let bs = page_bytes codec objects in
    let both : (id, r') ≡ (pos r.next_id, kept codec objects r) =
      sym begun ∙ begin-eq codec list options objects r answered in
    let same : r' ≡ kept codec objects r = ap (λ (x : ℤ × R2 Bucket). x.1) both in
    let len : r2_list_len r.next_id r' ≡ length bs =
      ap (r2_list_len r.next_id) same ∙ len-eq codec objects r in
    let (m', wrote) = write_bytes-some m ptr bs fits in
    (
      ap (λ (x : ℤ × R2 Bucket). x.0) both,
      len,
      (
        m',
        ap₂ (λ n (x : R2 Bucket). r2_list_copy m r.next_id ptr n x) len same
            ∙ copy-eq codec objects r m ptr (length bs)
            ∙ copy-whole m m' ptr bs wrote,
        read_bytes-write_bytes m m' ptr bs wrote,
      ),
    )
