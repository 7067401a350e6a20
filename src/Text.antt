-- ===== src/Text.antt =====
-- JavaScript strings, as the workers use them: a string is the list of its UTF-16 code units, so
-- that `.length`, `indexOf` and `slice` are the list's.
pub mod Utf8
pub mod Laws
pub mod Search
pub mod Bigint
use Prim.Native.Char.{code}
use akamata.Prelude.{
  ℕ, zero, suc, ◌+◌, ◌-◌, ◌*◌, String, Bool, true, false, not, ◌&&◌, ◌||◌, Option, none, some, List,
  [], ◌∷◌, ◌++◌, ltb, leb, ◌==◌, if◌then◌else◌, length, take, drop,
}
use akamata.Prelude.Numbers.{ℤ, pos, minus}
use mathlib.Core.List.{reverse}
use mathlib.Core.Option

abbrev pub Text : Type 0
Text = List ℕ

-- A literal of the source; all of them are ASCII, where a code point is a code unit.
abbrev pub text : String → Text
text String.[] = []
text (String.◌∷◌ c s) = code c ∷ text s

-- `===` on strings
unfoldable pub same : Text → Text → Bool
same [] [] = true
same [] (_ ∷ _) = false
same (_ ∷ _) [] = false
same (a ∷ s) (b ∷ t) = a == b && same s t

unfoldable pub starts_with : Text → Text → Bool
starts_with [] s = true
starts_with (_ ∷ _) [] = false
starts_with (p ∷ ps) (c ∷ s) = p == c && starts_with ps s

-- `s.indexOf(p)`; `none` is -1
unfoldable pub index_of : Text → Text → Option ℕ
unfolding starts_with
index_of p [] = if starts_with p [] then some 0 else none
index_of p (c ∷ s) = if starts_with p (c ∷ s) then some 0 else Option.map suc (index_of p s)

-- `s.split(p)` for a nonempty `p`. Each round drops at least the separator, so that one round for
-- each code unit, and one for the rest, are enough.
unfoldable pub split_rounds : ℕ → Text → Text → List Text
split_rounds zero p s = s ∷ []
split_rounds (suc n) p s = elim (index_of p s) [
  | none ↦ s ∷ []
  | some i ↦ take i s ∷ split_rounds n p (drop (i + length p) s)
]

unfoldable pub split : Text → Text → List Text
unfolding split_rounds index_of
split p s = split_rounds (length s) p s

-- `strs.join(p)`
unfoldable pub join : Text → List Text → Text
join p [] = []
join p (s ∷ []) = s
join p (s ∷ t ∷ ts) = s ++ (p ++ join p (t ∷ ts))

-- WhiteSpace and LineTerminator of the language
unfoldable pub is_space : ℕ → Bool
is_space c =
    leb 9 c && leb c 13
    || c == 32
    || c == 160
    || c == 0x1680
    || leb 0x2000 c && leb c 0x200a
    || c == 0x2028
    || c == 0x2029
    || c == 0x202f
    || c == 0x205f
    || c == 0x3000
    || c == 0xfeff

unfoldable pub trim_start : Text → Text
trim_start [] = []
trim_start (c ∷ s) = if is_space c then trim_start s else c ∷ s

unfoldable pub trim : Text → Text
unfolding trim_start is_space
trim s = reverse (trim_start (reverse (trim_start s)))

-- `toLowerCase` up to U+00FF, which is all that a header's name or value can hold
unfoldable pub lower_unit : ℕ → ℕ
lower_unit c =
    if leb b'A' c && leb c b'Z' || leb 0xc0 c && leb c 0xde && not (c == 0xd7) then c + 32 else c

unfoldable pub to_lower : Text → Text
unfolding lower_unit
to_lower [] = []
to_lower (c ∷ s) = lower_unit c ∷ to_lower s

unfoldable pub is_digit : ℕ → Bool
is_digit c = leb b'0' c && leb c b'9'

-- the longest prefix of digits; `none` if it is empty
unfoldable pub digits : Option ℕ → Text → Option ℕ
unfolding is_digit
digits acc [] = acc
digits acc (c ∷ s) =
    let n : ℕ = Option.get_or acc 0 in
    let rest = digits (some (n * 10 + (c - b'0'))) s in if is_digit c then rest else acc

signed_digits : Text → Option ℤ
unfolding digits
signed_digits [] = none
signed_digits (c ∷ s) =
    if c == b'-'
    then Option.map minus (digits none s)
    else if c == b'+'
    then Option.map pos (digits none s)
    else Option.map pos (digits none (c ∷ s))

-- `parseInt(s, 10)`; `none` is NaN
unfoldable pub parse_int : Text → Option ℤ
unfolding signed_digits trim_start is_space
parse_int s = signed_digits (trim_start s)
