-- ===== src/R2/Values.antt =====
-- The state of the R2 bridge (deploy/worker/index.mjs): `r2ops`, `r2lists`, `nextR2Id`, and what it asks
-- of the platform.
use akamata.Prelude.{ℕ, zero, true, Option, none, some, List, [], leb, if◌then◌else◌, length}
use akamata.Prelude.Numbers.{ℤ, pos, negsuc}
use akamata.Text.{Text}
use akamata.Text.Utf8.{encode}
use akamata.Memory.{Memory, write_bytes}
use akamata.Json.{Json, null, bool, integer, string, Codec, get}
use akamata.D1.Statements.{Reply, reply, trap}

-- What a reader still gives: it ends, breaks off with an error, or gives a chunk.
pub data Stream : Type 0 where
  ends breaks : Stream
  gives : List ℕ → Stream → Stream

-- `putOptions`: each field is there if the source sets it
pub record PutOptions : Type 0 where
  pub content_type : Option Json
  pub custom_metadata : Option Json
  pub etag_matches : Option Json

-- An entry of `r2ops`; `Bucket` is the binding's object.
pub data Op (Bucket : Type 0) : Type 0 where
  write : Bucket → Text → PutOptions → List (List ℕ) → ℕ → Op Bucket
  -- stream, pending, size, etag, contentType, customMetadata
  read : Stream → List ℕ → ℤ → Text → Text → Text → Op Bucket

-- A call of `bucket.put`
pub record Put (Bucket : Type 0) : Type 0 where
  pub bucket : Bucket
  pub key : Text
  pub bytes : List ℕ
  pub options : PutOptions

-- `puts` are the calls of `bucket.put` so far, the last one first.
pub record R2 (Bucket : Type 0) : Type 0 where
  pub ops : List (ℕ × Op Bucket)
  pub lists : List (ℕ × List ℕ)
  pub next_id : ℕ
  pub puts : List (Put Bucket)

-- The codec, and `String(v)`, to which `JSON.parse` takes what is no string. `String` throws on an object whose
-- `toString` is no function.
pub record Coding : Type 0 where
  pub codec : Codec
  pub to_text : Json → Option Text

-- `if (options.field)`, with the value
unfoldable pub truthy_field : Text → Json → Option Json
unfolding get
truthy_field name options = elim (get name options) [
  | none ↦ none
  | some v ↦ elim v [
    | null ↦ none
    | bool b ↦ if b then some (bool true) else none
    | integer (pos zero) ↦ none
    | string [] ↦ none
    | w ↦ some w
  ]
]

-- `String(v)`, which is also what `JSON.parse(v)` parses
unfoldable pub source_of : Coding → Json → Option Text
source_of c (string s) = some s
source_of c v = c.to_text v

-- `copyR2String`
unfoldable pub copy_r2_string : Memory → Text → ℕ → ℕ → Reply ℤ × Memory
unfolding encode write_bytes
copy_r2_string m value ptr cap =
    let bs = encode value in
    if leb (length bs) cap
    then elim (write_bytes m ptr bs) [ none ↦ (trap, m) | some m' ↦ (reply (pos (length bs)), m') ]
    else (reply (negsuc 4), m)
