-- ===== src/Text/Bigint.antt =====
-- `BigInt(s)` of a string.
use akamata.Prelude.{
  ℕ, ◌+◌, ◌-◌, ◌*◌, Option, none, some, [], ◌∷◌, ◌&&◌, ◌||◌, leb, ltb, ◌==◌, if◌then◌else◌,
}
use akamata.Prelude.Numbers.{ℤ, pos, minus}
use akamata.Text.{Text, trim}
use mathlib.Core.Option

-- the value of a digit in any base up to 16
digit_value : ℕ → Option ℕ
digit_value c =
    if leb b'0' c && leb c b'9'
    then some (c - b'0')
    else if leb b'a' c && leb c b'f'
    then some (c - b'a' + 10)
    else if leb b'A' c && leb c b'F'
    then some (c - b'A' + 10)
    else none

-- all of the text, digits of the base
whole : ℕ → ℕ → Text → Option ℕ
unfolding digit_value
whole base n [] = some n
whole base n (c ∷ s) = elim (digit_value c) [
  | none ↦ none
  | some d ↦ if ltb d base then whole base (n * base + d) s else none
]

nonempty : ℕ → Text → Option ℕ
unfolding whole
nonempty base [] = none
nonempty base (c ∷ s) = whole base 0 (c ∷ s)

-- 0x, 0o and 0b take no sign
prefixed : ℕ → Text → Option ℤ
unfolding nonempty
prefixed c s =
    if c == b'x' || c == b'X'
    then Option.map pos (nonempty 16 s)
    else if c == b'o' || c == b'O'
    then Option.map pos (nonempty 8 s)
    else if c == b'b' || c == b'B'
    then Option.map pos (nonempty 2 s)
    else Option.map pos (nonempty 10 (b'0' ∷ c ∷ s))

literal : Text → Option ℤ
unfolding nonempty prefixed
literal [] = some (pos 0)
literal (a ∷ []) = Option.map pos (nonempty 10 (a ∷ []))
literal (a ∷ c ∷ s) =
    if a == b'0'
    then prefixed c s
    else if a == b'-'
    then Option.map minus (nonempty 10 (c ∷ s))
    else if a == b'+'
    then Option.map pos (nonempty 10 (c ∷ s))
    else Option.map pos (nonempty 10 (a ∷ c ∷ s))

-- `none` is a SyntaxError
unfoldable pub parse_bigint : Text → Option ℤ
unfolding literal trim
parse_bigint s = literal (trim s)
