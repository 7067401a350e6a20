-- ===== src/Producer/Tests.antt =====
-- A message for a queue (deploy/worker/index.mjs).
use mathlib.Core.Option
use akamata.Prelude.{◌≡◌, ◌⊎◌, refl, true, Option, none, some, [], get_elem?, if◌then◌else◌}
use akamata.Prelude.Numbers.{pos}
use akamata.Text.{Text, text, same}
use akamata.Text.Utf8.{decode}
use akamata.Memory.{Memory}
use akamata.Json.{bool, integer, object, end, member, Codec}
use akamata.D1.Statements.{reply}
use akamata.Producer.{queue_message, Sent, Send, akamata_queue_send}
use akamata.Producer.Messages.{HandedOver, GaveNothing, akamata_queue_send-sends}

-- a codec that knows two texts
abbrev codec : Codec
codec = record {
  parse = λ s.
      if same s (text "M")
      then some (object (member (text "attempt") (integer (pos 1)) end))
      else if same s (text "P")
      then some (bool true)
      else none;
  stringify = λ j. [];
}

abbrev env : Text → Option Send
env k = if same k (text "JOBS") then some (λ j. true) else none

abbrev memory : Memory
memory = record { size = 64; cell = λ q. Option.get_or (get_elem? (text "JOBSMP") q) 0 }

abbrev accepted : Sent
accepted = record {
  code = pos 0;
  message = some (
      object (member (text "attempt") (integer (pos 1)) (member (text "payload") (bool true) end)));
}

accepts : akamata_queue_send true env codec 0 4 4 1 5 1 memory ≡ reply accepted
unfolding akamata_queue_send same decode Option.bind queue_message
accepts = refl

akamata_queue_send-sends_example :
    HandedOver true env codec 0 4 4 1 5 1 memory accepted
    ⊎ GaveNothing true env codec 0 4 4 1 5 1 memory accepted
akamata_queue_send-sends_example =
    akamata_queue_send-sends true env codec 0 4 4 1 5 1 memory accepted accepts
