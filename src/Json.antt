-- ===== src/Json.antt =====
-- JSON values, as the workers look at them, and the codec of the platform.
use akamata.Prelude.{ℕ, Bool, true, false, Option, none, some, List, [], ◌∷◌, if◌then◌else◌}
use akamata.Prelude.Numbers.{ℤ}
use akamata.Text.{Text, same}

mutual
  pub data Json : Type 0 where
    null : Json
    bool : Bool → Json
    integer : ℤ → Json
    -- a number that is no integer, by its identity
    fraction : ℕ → Json
    string : Text → Json
    array : Items → Json
    object : Members → Json

  pub data Items : Type 0 where
    nil : Items
    cons : Json → Items → Items

  pub data Members : Type 0 where
    end : Members
    member : Text → Json → Members → Members

-- `JSON.parse`, `none` where it throws, and `JSON.stringify`
pub record Codec : Type 0 where
  pub parse : Text → Option Json
  pub stringify : Json → Text

unfoldable pub find : Text → Members → Option Json
unfolding same
find k end = none
find k (member j v ms) = if same j k then some v else find k ms

-- `value.key`; `none` is undefined. Arrays and primitives have none of the keys that are asked for.
unfoldable pub get : Text → Json → Option Json
unfolding find
get k (object ms) = find k ms
get k _ = none

unfoldable pub items : Items → List Json
items nil = []
items (cons x xs) = x ∷ items xs

-- the test of `typeof v === "string"`, with the string
abbrev pub string_of : Option Json → Option Text
string_of (some (string s)) = some s
string_of _ = none

-- `Number.isInteger(v)`, with the integer
abbrev pub integer_of : Option Json → Option ℤ
integer_of (some (integer n)) = some n
integer_of _ = none

-- `v == null`: null and undefined
abbrev pub present : Option Json → Option Json
present (some null) = none
present o = o

abbrev pub is_some {ℓ} : {A : Type ℓ} → Option A → Bool
is_some none = false
is_some (some a) = true
