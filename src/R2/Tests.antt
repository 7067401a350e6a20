-- ===== src/R2/Tests.antt =====
-- The R2 bridge at concrete uploads and downloads (deploy/worker/index.mjs).
use mathlib.Core.Option
use akamata.Prelude.{ℕ, ◌+◌, ◌≤◌, ◌≡◌, refl, true, Option, none, some, List, [], ◌∷◌, arith, length}
use akamata.Prelude.Numbers.{pos}
use akamata.Text.{text}
use akamata.Text.Utf8.{encode}
use akamata.Memory.{Memory}
use akamata.Json.{Codec}
use akamata.D1.Registry.{get}
use akamata.D1.Statements.{suspending}
use akamata.R2.Values.{ends, gives, PutOptions, write, read, R2}
use akamata.R2.Upload.Whole.{Piece}
use akamata.R2.Download.Drain.{download, download_lem}
use akamata.R2.Listing.{Listed, ListOptions, page_bytes, r2_list_begin, keep_page}

-- a bucket is its number
abbrev options : PutOptions
options = record { content_type = none; custom_metadata = none; etag_matches = none }

abbrev state : R2 ℕ
state = record {
  ops =
      (1, write 7 (text "k") options [] 0)
      ∷ (2, read (gives (5 ∷ 6 ∷ 7 ∷ []) (gives (8 ∷ []) ends)) [] (pos 4) [] [] [])
      ∷ [];
  lists = [];
  next_id = 3;
  puts = [];
}

abbrev memory : Memory
memory = record { size = 16; cell = λ q. q }

abbrev pieces : List Piece
pieces =
    record { memory = memory; ptr = 1; len = 2 } ∷ record { memory = memory; ptr = 8; len = 1 } ∷ []

abbrev chunks : List (List ℕ)
chunks = (1 ∷ 2 ∷ []) ∷ (8 ∷ []) ∷ []

download_found :
    get 2 state.ops ≡ some (read (gives (5 ∷ 6 ∷ 7 ∷ []) (gives (8 ∷ []) ends)) [] (pos 4) [] [] [])
unfolding get
download_found = refl

download_lem_example : download 5 memory 2 4 2 state ≡ some (5 ∷ 6 ∷ 7 ∷ 8 ∷ [])
download_lem_example =
    download_lem 2 4 2 (pos 4) [] [] [] memory (gives (5 ∷ 6 ∷ 7 ∷ []) (gives (8 ∷ []) ends)) state
      download_found (omega arith) (omega arith) ((λ e. ground arith), ((λ e. ground arith), tt))

abbrev toy : Codec
toy = record { parse = λ s. none; stringify = λ v. text "[]" }

abbrev all_objects : ListOptions
all_objects = record { prefix = []; limit = 10; cursor = none }

abbrev find_none : ListOptions → Option (List Listed)
find_none o = some []

abbrev listed : R2 ℕ
listed = record state { next_id = 4; lists = (3, text "[]") ∷ [] }

listed_eq : r2_list_begin true toy (some find_none) (some all_objects) state ≡ (pos 3, listed)
unfolding r2_list_begin suspending keep_page Option.bind page_bytes encode
listed_eq = refl

answered : Option.bind (some all_objects) find_none ≡ some []
unfolding Option.bind
answered = refl

page_fits : 2 + length (page_bytes toy []) ≤ memory.size
unfolding page_bytes encode
page_fits = omega arith
