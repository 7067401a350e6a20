-- ===== src/Outbound/Tests.antt =====
-- Calls of `akamata_fetch` (deploy/worker/index.mjs) at a small instance, and the theorems there.
use mathlib.Core.Option
use akamata.Prelude.{
  Option, ℕ, ◌≡◌, refl, true, false, none, some, List, [], ◌∷◌, ◌++◌, arith, length, get_elem?, inl,
  inr,
}
use akamata.Prelude.Numbers.{pos, minus}
use akamata.Text.{Text, text, trim}
use akamata.Text.Utf8.{encode}
use akamata.Memory.{Memory, cells, read_bytes}
use akamata.Http.{Web}
use akamata.Http.Parts.{set_fields}
use akamata.Instance.{Exports}
use akamata.Outbound.{
  Upstream, reply_bytes, reply_head, reply_fields, then_deliver, deliver, akamata_fetch,
}
use akamata.Outbound.Client.{
  ClientRequest, serialize, serialize_headers, response_head, trim_left, trim_blanks,
  eql_ignore_case, ascii_lower,
}
use akamata.Outbound.Expressed.{IsExpressible}
use akamata.Outbound.Requests.{IsSentBody, akamata_fetch-sends, akamata_fetch-headerless}
use akamata.Outbound.Framed.{response_head-reply}
use akamata.Outbound.Refused.{response_head-refused}
use akamata.Outbound.Replies.{IsReply}
use akamata.Outbound.Buffer.{Delivered, IsLaidOut, deliver-Delivered}

abbrev post : ClientRequest
post = record {
  method = text "POST";
  url = text "https://a/";
  headers = (text "accept", text "x") ∷ [];
  body = text "hi";
}

abbrev get : ClientRequest
get = record { method = text "GET"; url = text "https://a/"; headers = []; body = [] }

-- The state is the memory; the request lies at 8, and the buffer for the answer at 256.
abbrev exports : Exports Memory
exports = record {
  alloc = λ n s. (256, s);
  dealloc = λ p n s. s;
  handle_fetch = λ p n s. (some 0, s);
  handle_queue = λ p n s. (none, s);
  last_response_length = λ s. 0;
  last_error_length = λ s. 0;
  last_error_ptr = λ s. 0;
  memory = λ s. s;
  with_memory = λ s m. m;
}

abbrev holding : List ℕ → Memory
holding bs = record {
  size = 1024;
  cell = λ q. Option.get_or (get_elem? ((0 ∷ 0 ∷ 0 ∷ 0 ∷ 0 ∷ 0 ∷ 0 ∷ 0 ∷ []) ++ bs) q) 0;
}

abbrev web : Web
web = record { valid_header = λ k v. true; constructible = λ s b. true }

abbrev answer : Upstream
answer = record {
  status = 200;
  status_text = text "OK";
  headers = (text "server", text "s") ∷ [];
  body = 1 ∷ 2 ∷ [];
}

post-IsExpressible : IsExpressible post
unfolding serialize serialize_headers trim
post-IsExpressible = record {
  method = omega arith;
  url = omega arith;
  fields = ((omega arith, omega arith, omega arith, refl, refl), tt);
  ascii = omega arith;
}

get-IsExpressible : IsExpressible get
unfolding serialize serialize_headers
get-IsExpressible = record {
  method = omega arith;
  url = omega arith;
  fields = tt;
  ascii = omega arith;
}

post_lies :
    read_bytes (holding (serialize post)) 8 (length (serialize post)) ≡ some (serialize post)
unfolding read_bytes serialize serialize_headers cells
post_lies = refl

get_lies : read_bytes (holding (serialize get)) 8 (length (serialize get)) ≡ some (serialize get)
unfolding read_bytes serialize serialize_headers cells
get_lies = refl

akamata_fetch-sends_example :
    (sent : Option Text) × IsSentBody post sent
    × (akamata_fetch exports true web
          (λ o. some answer)
          8
          (length (serialize post))
          0
          4
          (holding (serialize post))
        ≡ then_deliver exports 0 4
            (holding (serialize post))
            (Option.bind (set_fields web post.headers []) (λ hs. some answer)))
akamata_fetch-sends_example =
    akamata_fetch-sends exports web (λ o. some answer) post 8 0 4 (holding (serialize post))
      post-IsExpressible (λ e. cc) post_lies

akamata_fetch-headerless_example :
    akamata_fetch exports true web
      (λ o. some answer)
      8
      (length (serialize get))
      0
      4
      (holding (serialize get))
    ≡ (minus 1, holding (serialize get))
akamata_fetch-headerless_example =
    akamata_fetch-headerless exports web (λ o. some answer) get 8 0 4 (holding (serialize get))
      get-IsExpressible refl tt get_lies

answer-IsReply : IsReply answer
unfolding trim_blanks trim_left
answer-IsReply = record {
  status = omega arith;
  status_text = (omega arith, omega arith);
  fields = ((omega arith, (omega arith, omega arith), (omega arith, omega arith), refl), tt);
  size = omega arith;
}

response_head-reply_example :
    response_head (reply_bytes answer)
    ≡ some (record {
      status = 200;
      framing = record { chunked = false; content_length = some 2 };
      rest = 1 ∷ 2 ∷ [];
    })
unfolding eql_ignore_case ascii_lower
response_head-reply_example = response_head-reply answer answer-IsReply (refl, tt)

abbrev sized : Upstream
sized = record answer { headers = (text "Content-Length", text "2") ∷ [] }

sized-IsReply : IsReply sized
unfolding trim_blanks trim_left
sized-IsReply = record {
  status = omega arith;
  status_text = (omega arith, omega arith);
  fields = ((omega arith, (omega arith, omega arith), (omega arith, omega arith), refl), tt);
  size = omega arith;
}

response_head-refused_example : response_head (reply_bytes sized) ≡ none
unfolding eql_ignore_case ascii_lower
response_head-refused_example = response_head-refused sized sized-IsReply (inl refl)

answer-IsLaidOut : IsLaidOut 1024 256 (length (reply_bytes answer)) 0 4
unfolding reply_bytes reply_head reply_fields encode
answer-IsLaidOut = record {
  buffer = omega arith;
  pointer = omega arith;
  length_word = omega arith;
  words_apart = inl (omega arith);
  pointer_apart = inr (omega arith);
  length_apart = inr (omega arith);
}

deliver-Delivered_example :
    (s' : Memory) × (deliver exports answer 0 4 (holding []) ≡ (pos 0, s'))
    × Delivered s' (reply_bytes answer) 256 0 4
deliver-Delivered_example =
    deliver-Delivered exports answer 0 4 (holding []) (λ s m. refl) answer-IsLaidOut
