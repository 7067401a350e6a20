-- ===== src/D1/Tests.antt =====
-- The D1 bridge at a concrete platform and registry (deploy/worker/index.mjs).
use mathlib.Core.Option
use akamata.Prelude.{ℕ, ◌≡◌, refl, true, none, some, List, [], ◌∷◌, map, arith}
use akamata.Prelude.Numbers.{ℤ, pos, minus}
use akamata.Text.{Text}
use akamata.Text.Utf8.{encode, decode}
use akamata.Memory.{Memory, read_bytes, read_string}
use akamata.Memory.Laws.{IsOutside}
use akamata.D1.Values.{Value, null, number, string, Platform, RawResult, array, Bound, Database}
use akamata.D1.Registry.{Statement, Registry, get}
use akamata.D1.Statements.{reply, d1_prepare, d1_run, d1_finalize}
use akamata.D1.Statements.Handles.{Call, prepare, step, perform_all, finalized_for_good}
use akamata.D1.Statements.Effect.{IsWellFormed}
use akamata.D1.Statements.Cursor.{drain, run-drain}
use akamata.D1.Statements.Binding.{
  Arg, int64, text, null_arg, bind_all, HasValues, bind_all-run, IsAsked, told,
}
use akamata.D1.Columns.{text_bytes, d1_column_text_len, d1_column_text_copy}
use akamata.D1.Columns.Copy.{HasBytes, text_copy_lem}

-- numbers are integers here, and a statement is the text it was made from
abbrev platform : Platform
platform = record {
  Num = ℤ;
  number_of = λ n. n;
  to_number = λ v. elim v [ Value.number n ↦ n | _ ↦ pos 0 ];
  to_bigint = some;
  trunc = some;
  to_string = λ v. elim v [ Value.string s ↦ s | _ ↦ [] ];
  Base = Text;
}

abbrev memory : Memory
memory = record { size = 16; cell = λ q. 65 }

abbrev database : Database Text ℤ
database = record { prepare = some; raw = λ b. array []; run = λ b. none }

abbrev entry : Statement Text ℤ
entry = record {
  base = [];
  bind_args = [];
  rows = none;
  cursor = 0;
  current_row = some (string (66 ∷ 67 ∷ []) ∷ []);
  column_names = none;
}

abbrev registry : Registry Text ℤ
registry = record {
  stmts = (1, entry) ∷ (2, entry) ∷ [];
  next_id = 3;
  last_meta = record { changes = pos 0; last_row_id = minus 1 };
}

registry-IsWellFormed : IsWellFormed registry
registry-IsWellFormed = (omega arith, (omega arith, tt))

found : get 1 registry.stmts ≡ some entry
unfolding get
found = refl

abbrev calls : List (Call platform)
calls = prepare (some database) memory 0 2 ∷ step 1 ∷ []

finalized_for_good_example :
    get 1 (perform_all platform calls (d1_finalize 1 registry)).stmts ≡ none
finalized_for_good_example = finalized_for_good platform calls registry 1 (omega arith)

abbrev after : Registry Text ℤ
after = (d1_prepare (some database) memory 0 2 registry).1

prepared : d1_prepare (some database) memory 0 2 registry ≡ (pos 3, after)
unfolding d1_prepare read_string read_bytes decode Option.bind
prepared = refl

abbrev rows : List (List (Value ℤ))
rows = (null ∷ []) ∷ (number (pos 4) ∷ []) ∷ []

abbrev raw : Bound Text ℤ → RawResult ℤ
raw b = array ((string [] ∷ []) ∷ rows)

run-drain_example :
    ((d1_run true raw 1 registry).0 ≡ pos 2)
    × (drain 3 1 (d1_run true raw 1 registry).1 ≡ map some rows)
run-drain_example = run-drain raw 1 (string [] ∷ []) rows entry registry found refl

abbrev args : List (Arg ℤ)
args = int64 (pos 4) ∷ text 0 2 ∷ null_arg ∷ []

abbrev values : List (Value ℤ)
values = number (pos 4) ∷ string (65 ∷ 65 ∷ []) ∷ null ∷ []

args-HasValues : HasValues platform memory args values
unfolding read_string read_bytes decode
args-HasValues = (refl, (refl, (refl, tt)))

bind_all-run_example :
    (asked : Bound platform.Base ℤ) × IsAsked entry.base values asked
    × ((d1_run true raw 1 (bind_all platform memory 1 1 args registry)).0 ≡ told (raw asked))
bind_all-run_example =
    bind_all-run platform memory raw 1 args values entry registry found refl args-HasValues

column : HasBytes platform 1 0 registry (66 ∷ 67 ∷ [])
unfolding get text_bytes encode Option.bind
column = (entry, refl, refl)

text_copy_lem_example :
    (d1_column_text_len platform 1 0 registry ≡ 2)
    × ((m' : Memory) × (d1_column_text_copy platform memory 1 0 8 1 registry ≡ (reply 1, m'))
        × (read_bytes m' 8 1 ≡ some (66 ∷ []))
        × ((q : ℕ) → IsOutside q 8 1 → m'.cell q ≡ 65))
text_copy_lem_example =
    text_copy_lem platform memory 1 0 8 1 registry (66 ∷ 67 ∷ []) column (omega arith)
