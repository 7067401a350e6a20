-- ===== src/Environment/Tests.antt =====
-- A variable that the instance asks for (deploy/worker/index.mjs, src/env.zig).
use mathlib.Core.Option
use akamata.Prelude.{
  ◌≡◌, ◌<◌, refl, Option, none, some, arith, length, get_elem?, if◌then◌else◌, of_some, subst, sym,
}
use akamata.Text.{Text, text, same}
use akamata.Text.Utf8.{encode, decode}
use akamata.Memory.{Memory, cells, read_bytes, read_string}
use akamata.D1.Statements.{reply}
use akamata.Environment.{Allocator, get_workers}
use akamata.Environment.Lookup.{IsProvided, get_workers-value}

abbrev env : Text → Option Text
env k = if same k (text "KEY") then some (text "on") else none

abbrev memory : Memory
memory = record { size = 8192; cell = λ q. Option.get_or (get_elem? (text "KEY") q) 0 }

abbrev gpa : Allocator
gpa n = some 64

named : read_string memory 0 3 ≡ some (text "KEY")
unfolding read_string read_bytes cells decode
named = refl

provided : IsProvided env gpa 0 3 memory (text "KEY") named
unfolding same encode
provided = (
  (64, refl, omega arith),
  λ v e lt. absurd (omega (arith, subst (λ t. 4096 < length (encode t)) (sym (of_some e)) lt)),
)

get_workers-value_example : get_workers env gpa 0 3 memory ≡ reply (some (text "on"))
unfolding same encode
get_workers-value_example = get_workers-value env gpa 0 3 memory (text "KEY") named provided
