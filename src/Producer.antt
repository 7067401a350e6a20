-- ===== src/Producer.antt =====
-- deploy/worker/index.mjs: `akamata_queue_send`, the import through which the instance puts a message into a queue. What
-- the codes mean to the instance is in src/platform/workers.zig.
pub mod Messages
mod Tests
use mathlib.Core.Option
use akamata.Prelude.{
  ℕ, zero, suc, ◌+◌, Bool, true, false, Option, none, some, List, [], ◌∷◌, ◌++◌, if◌then◌else◌,
}
use akamata.Prelude.Numbers.{ℤ, pos, negsuc, minus}
use akamata.Text.{Text, text, same}
use akamata.Memory.{Memory, read_string}
use akamata.Http.Decimal.{decimal}
use akamata.Json.{Json, string, array, object, Items, nil, cons, Members, end, member, Codec}
use akamata.D1.Statements.{Reply, reply, trap}

-- a property of an object literal, in the place of an earlier one of its name
unfoldable pub put_member : Text → Json → Members → Members
unfolding same
put_member k v end = member k v end
put_member k v (member j w ms) = if same j k then member j v ms else member j w (put_member k v ms)

-- an array's elements, and a string's code units, by their numbers
unfoldable pub numbered_items : ℕ → Items → Members
unfolding decimal
numbered_items i nil = end
numbered_items i (cons x xs) = member (decimal i) x (numbered_items (i + 1) xs)

unfoldable pub numbered_units : ℕ → Text → Members
unfolding decimal
numbered_units i [] = end
numbered_units i (c ∷ s) = member (decimal i) (string (c ∷ [])) (numbered_units (i + 1) s)

-- `...v` in an object literal
unfoldable pub spread : Json → Members
unfolding numbered_items numbered_units
spread (object ms) = ms
spread (array xs) = numbered_items 0 xs
spread (string s) = numbered_units 0 s
spread _ = end

-- `{ ...metadata, payload }`
unfoldable pub queue_message : Json → Json → Json
unfolding spread put_member
queue_message metadata payload = object (put_member (text "payload") payload (spread metadata))

-- `JSON.parse(readString(ptr, len))`; `none` is a throw
unfoldable pub parse_at : Codec → Memory → ℕ → ℕ → Option Json
unfolding read_string
parse_at codec m ptr len = Option.bind (read_string m ptr len) codec.parse

-- What comes of a call: its code, and the message it has given to `send`, if it got that far.
pub record Sent : Type 0 where
  pub code : ℤ
  pub message : Option Json

-- A binding that has a `send`: whether it accepts a message or rejects
abbrev pub Send : Type 0
Send = Json → Bool

unfoldable pub send_to : Send → Option Json → Sent
send_to send none = record { code = minus 1; message = none }
send_to send (some j) = record { code = if send j then pos 0 else minus 1; message = some j }

abbrev pub both : Option Json → Option Json → Option Json
both (some metadata) (some payload) = some (queue_message metadata payload)
both _ _ = none

abbrev pub send_by : Codec → ℕ → ℕ → ℕ → ℕ → Memory → Option Send → Sent
send_by codec meta_ptr meta_len payload_ptr payload_len m o = elim o [
  | none ↦ record { code = minus 2; message = none }
  | some send ↦
      send_to send
        (both (parse_at codec m meta_ptr meta_len) (parse_at codec m payload_ptr payload_len))
]

-- the function that `suspending` wraps; reading the binding's name is outside of the `try`
abbrev pub send_named :
    (Text → Option Send) → Codec → ℕ → ℕ → ℕ → ℕ → Memory → Option Text → Reply Sent
send_named env codec meta_ptr meta_len payload_ptr payload_len m o = elim o [
  | none ↦ trap
  | some binding ↦ reply (send_by codec meta_ptr meta_len payload_ptr payload_len m (env binding))
]

-- `env` gives the bindings that have a `send`. Without JSPI every call is the sentinel -2.
unfoldable pub akamata_queue_send :
    Bool → (Text → Option Send) → Codec → ℕ → ℕ → ℕ → ℕ → ℕ → ℕ → Memory → Reply Sent
unfolding send_to parse_at read_string
akamata_queue_send jspi env codec binding_ptr binding_len meta_ptr meta_len payload_ptr payload_len
      m =
    if jspi
    then send_named env codec meta_ptr meta_len payload_ptr payload_len m
        (read_string m binding_ptr binding_len)
    else reply (record { code = minus 2; message = none })
