-- ===== src/Http/Parts.antt =====
-- A response in its parts, and the bytes that an HTTP/1.1 serialiser makes of it: what the wasm
-- instance hands to `parseHttpResponse` of deploy/worker/index.mjs.
use mathlib.Core.Option
use akamata.Prelude.{ℕ, ◌+◌, ◌*◌, ◌≡◌, ◌≤◌, Option, some, List, [], ◌∷◌, ◌++◌}
use akamata.Text.{Text, text, join, trim}
use akamata.Text.Laws.{IsAscii}
use akamata.Text.Search.{Avoids}
use akamata.Http.{Fields, Web, crlf, set_header, field_line}
use akamata.Http.HeaderEnd.{header_end}

-- A response in its parts; the status has three digits, and the reason phrase is cut at its spaces.
pub record Parts : Type 0 where
  pub hundreds : ℕ
  pub tens : ℕ
  pub ones : ℕ
  pub reason : List Text
  pub fields : Fields
  pub body : List ℕ

abbrev pub status_text : Parts → Text
status_text x = (b'0' + x.hundreds) ∷ (b'0' + x.tens) ∷ (b'0' + x.ones) ∷ []

abbrev pub status_number : Parts → ℕ
status_number x = x.hundreds * 100 + x.tens * 10 + x.ones

unfoldable pub status_line : Parts → Text
status_line x = join (text " ") (text "HTTP/1.1" ∷ status_text x ∷ x.reason)

abbrev pub field_lines : Fields → List Text
field_lines [] = []
field_lines ((k, v) ∷ fs) = field_line k v ∷ field_lines fs

abbrev pub response_lines : Parts → List Text
response_lines x = status_line x ∷ field_lines x.fields

-- HTTP/1.1 status reason CRLF, a line `name: value` CRLF for each field, CRLF, body
unfoldable pub response_bytes : Parts → List ℕ
response_bytes x = join crlf (response_lines x) ++ header_end x.body

abbrev pub IsLine : Text → Type 0
IsLine s = Avoids 13 s × IsAscii s

abbrev pub AllWords : List Text → Type 0
AllWords [] = Unit
AllWords (w ∷ ws) = (Avoids 32 w × IsLine w) × AllWords ws

-- Names without a colon; names and values are ASCII, without CR, and not padded with spaces.
abbrev pub AllClean : Fields → Type 0
AllClean [] = Unit
AllClean ((k, v) ∷ fs) =
    (Avoids 58 k × IsLine k × IsLine v × (trim k ≡ k) × (trim v ≡ v)) × AllClean fs

pub record IsServed (x : Parts) : Type 0 where
  pub first : (2 ≤ x.hundreds) × (x.hundreds ≤ 5)
  pub digits : (x.tens ≤ 9) × (x.ones ≤ 9)
  pub words : AllWords x.reason
  pub clean : AllClean x.fields

-- The fields put into `Headers` one after the other.
unfoldable pub set_fields : Web → Fields → Fields → Option Fields
set_fields web [] hs = some hs
set_fields web ((k, v) ∷ fs) hs = Option.bind (set_header web k v hs) (set_fields web fs)
