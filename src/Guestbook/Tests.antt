-- ===== src/Guestbook/Tests.antt =====
-- The guestbook's worker (deploy/guestbook/worker/index.mjs) at a small instance, and the theorems there.
use akamata.Prelude.{◌≡◌, ◌≤◌, refl, true, none, some, List, [], ◌∷◌, arith, length, take, inl}
use akamata.Prelude.Numbers.{ℤ, pos, minus}
use akamata.Text.{to_lower, lower_unit, Text, text, join, split}
use akamata.Memory.{Memory}
use akamata.D1.Values.{Value, string, Platform, array, Database}
use akamata.D1.Registry.{Registry}
use akamata.D1.Statements.Handles.{Call, prepare, bind_null, run, step, exec}
use akamata.Http.{crlf, Web, Request, find_header_end}
use akamata.Instance.{Exports, error_name, dispatch_unlocked}
use akamata.Outbound.Client.{eql_ignore_case}
use akamata.Guestbook.{dispatch_wasm}
use akamata.Guestbook.Same.{dispatch_wasm-dispatch_unlocked}
use akamata.Guestbook.Duplicates.{
  IsPassable, guest_lines, guest_bytes, count_named, guest_bytes-duplicate,
}
use akamata.Guestbook.Entries.{table_of}
use akamata.Guestbook.Readings.{ReadsAlike}
use akamata.Guestbook.Simulation.{main_calls, guest_calls, guest_calls-main_calls}

abbrev exports : Exports Memory
exports = record {
  alloc = λ n s. (64, s);
  dealloc = λ p n s. s;
  handle_fetch = λ p n s. (some 0, s);
  handle_queue = λ p n s. (none, s);
  last_response_length = λ s. 0;
  last_error_length = λ s. 0;
  last_error_ptr = λ s. 0;
  memory = λ s. s;
  with_memory = λ s m. m;
}

abbrev memory : Memory
memory = record { size = 1024; cell = λ q. 0 }

abbrev web : Web
web = record { valid_header = λ k v. true; constructible = λ s b. true }

abbrev bare : Request
bare = record {
  method = text "GET";
  pathname = text "/";
  search = [];
  host = text "a";
  headers = (text "accept", text "x") ∷ [];
  body = [];
}

dispatch_wasm-dispatch_unlocked_example :
    dispatch_wasm exports web bare memory ≡ dispatch_unlocked exports web bare memory
unfolding error_name to_lower lower_unit
dispatch_wasm-dispatch_unlocked_example =
    dispatch_wasm-dispatch_unlocked exports web bare memory (λ s e. cc)
      ((λ e. ground arith), (λ e. ground arith), tt)

-- as the platform gives it
abbrev hosted : Request
hosted = record bare { headers = (text "host", text "a") ∷ [] }

hosted-IsPassable : IsPassable hosted
hosted-IsPassable = record {
  first = (omega arith, omega arith);
  host = (omega arith, omega arith);
  fields = ((omega arith, omega arith), tt);
  names = (omega arith, tt);
}

guest_bytes-duplicate_example :
    (find_header_end (guest_bytes hosted) ≡ some (length (join crlf (guest_lines hosted))))
    × (split crlf (take (length (join crlf (guest_lines hosted))) (guest_bytes hosted))
        ≡ guest_lines hosted)
    × (2 ≤ count_named (text "host") (guest_lines hosted))
unfolding eql_ignore_case
guest_bytes-duplicate_example = guest_bytes-duplicate hosted hosted-IsPassable (inl refl)

abbrev platform : Platform
platform = record {
  Num = ℤ;
  number_of = λ n. n;
  to_number = λ v. elim v [ Value.number n ↦ n | _ ↦ pos 0 ];
  to_bigint = some;
  trunc = some;
  to_string = λ v. [];
  Base = Text;
}

abbrev database : Database Text ℤ
database = record { prepare = some; raw = λ b. array []; run = λ b. none }

abbrev registry : Registry Text ℤ
registry = record {
  stmts = [];
  next_id = 1;
  last_meta = record { changes = pos 0; last_row_id = minus 1 };
}

abbrev calls : List (Call platform)
calls =
    prepare (some database) memory 0 0
    ∷ bind_null 1 1
    ∷ run true (λ b. array (([]) ∷ (string (text "v") ∷ []) ∷ [])) 1
    ∷ step 1
    ∷ exec true (some database) memory 0 0
    ∷ []

guest_calls-main_calls_example :
    ((guest_calls platform calls (table_of registry)).0 ≡ (main_calls platform calls registry).0)
    × ((guest_calls platform calls (table_of registry)).1
        ≡ table_of (main_calls platform calls registry).1)
    × ReadsAlike platform
        (guest_calls platform calls (table_of registry)).1
        (main_calls platform calls registry).1
        memory
guest_calls-main_calls_example = guest_calls-main_calls platform calls registry memory
