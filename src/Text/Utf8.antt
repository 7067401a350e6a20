-- ===== src/Text/Utf8.antt =====
-- `TextEncoder` and `TextDecoder`: UTF-8, with U+FFFD for what is no text, as the Encoding Standard
-- has it.
use akamata.Prelude.{
  ℕ, ◌+◌, ◌-◌, ◌*◌, ◌/◌, ◌%◌, Bool, true, false, ◌&&◌, List, [], ◌∷◌, ◌++◌, ltb, leb, ◌==◌,
  if◌then◌else◌,
}

abbrev replacement : ℕ
replacement = 0xfffd

is_high : ℕ → Bool
is_high c = leb 0xd800 c && ltb c 0xdc00

is_low : ℕ → Bool
is_low c = leb 0xdc00 c && ltb c 0xe000

-- one code unit by itself: a lone surrogate is replaced
unfoldable pub lone : ℕ → ℕ
lone c = if leb 0xd800 c && ltb c 0xe000 then replacement else c

unfoldable pub scalars : List ℕ → List ℕ
unfolding is_high is_low lone
scalars [] = []
scalars (c ∷ []) = lone c ∷ []
scalars (c ∷ d ∷ s) = elim (is_high c && is_low d) [
  | true ↦ (0x10000 + (c - 0xd800) * 0x400 + (d - 0xdc00)) ∷ scalars s
  | false ↦ lone c ∷ scalars (d ∷ s)
]

unfoldable pub encode_scalar : ℕ → List ℕ
encode_scalar c =
    if ltb c 0x80
    then c ∷ []
    else if ltb c 0x800
    then (0xc0 + c / 64) ∷ (0x80 + c % 64) ∷ []
    else if ltb c 0x10000
    then (0xe0 + c / 4096) ∷ (0x80 + c / 64 % 64) ∷ (0x80 + c % 64) ∷ []
    else (0xf0 + c / 262144) ∷ (0x80 + c / 4096 % 64) ∷ (0x80 + c / 64 % 64) ∷ (0x80 + c % 64) ∷ []

unfoldable pub encode_scalars : List ℕ → List ℕ
unfolding encode_scalar
encode_scalars [] = []
encode_scalars (c ∷ s) = encode_scalar c ++ encode_scalars s

-- `new TextEncoder().encode(s)`
unfoldable pub encode : List ℕ → List ℕ
unfolding scalars encode_scalars
encode s = encode_scalars (scalars s)

-- Between two bytes: nothing begun, or `needed` bytes to come, the next in `lower` to `upper`.
pub data Decoder : Type 0 where
  ready : Decoder
  inside : (needed lower upper point : ℕ) → Decoder

begin : ℕ → List ℕ × Decoder
begin b =
    if ltb b 0x80
    then (b ∷ [], ready)
    else if leb 0xc2 b && leb b 0xdf
    then ([], inside 1 0x80 0xbf (b - 0xc0))
    else if leb 0xe0 b && leb b 0xef
    then (
      [],
      inside 2 (if b == 0xe0 then 0xa0 else 0x80) (if b == 0xed then 0x9f else 0xbf) (b - 0xe0),
    )
    else if leb 0xf0 b && leb b 0xf4
    then (
      [],
      inside 3 (if b == 0xf0 then 0x90 else 0x80) (if b == 0xf4 then 0x8f else 0xbf) (b - 0xf0),
    )
    else (replacement ∷ [], ready)

decode_byte : Decoder → ℕ → List ℕ × Decoder
unfolding begin
decode_byte ready b = begin b
decode_byte (inside needed lower upper point) b =
    if leb lower b && leb b upper
    then (let p : ℕ = point * 64 + (b - 0x80) in
        if needed == 1 then (p ∷ [], ready) else ([], inside (needed - 1) 0x80 0xbf p))
    else (let (out, next) = begin b in (replacement ∷ out, next))

unfoldable pub decode_bytes : Decoder → List ℕ → List ℕ
unfolding decode_byte
decode_bytes ready [] = []
decode_bytes (inside _ _ _ _) [] = replacement ∷ []
decode_bytes d (b ∷ bs) = let (out, next) = decode_byte d b in out ++ decode_bytes next bs

-- a byte order mark at the head is dropped
unfoldable pub without_bom : List ℕ → List ℕ
without_bom [] = []
without_bom (c ∷ s) = if c == 0xfeff then s else c ∷ s

-- a scalar value as one code unit, or as a surrogate pair
units_of : ℕ → List ℕ
units_of c =
    if ltb c 0x10000
    then c ∷ []
    else (0xd800 + (c - 0x10000) / 0x400) ∷ (0xdc00 + (c - 0x10000) % 0x400) ∷ []

unfoldable pub units : List ℕ → List ℕ
unfolding units_of
units [] = []
units (c ∷ s) = units_of c ++ units s

-- `new TextDecoder().decode(bytes)`
unfoldable pub decode : List ℕ → List ℕ
unfolding units without_bom decode_bytes
decode bytes = units (without_bom (decode_bytes ready bytes))
