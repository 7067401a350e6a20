-- ===== src/Gateway/Uri.antt =====
-- `decodeURIComponent`, which deploy/worker/index.mjs applies to the name of a realtime resource.
use mathlib.Core.Option
use akamata.Prelude.{
  ◌>>=◌, ℕ, ◌+◌, ◌-◌, ◌*◌, ◌&&◌, Option, none, some, List, [], ◌∷◌, ◌++◌, leb, ◌==◌, if◌then◌else◌,
}
use akamata.Text.{Text, same}
use akamata.Text.Utf8.{encode, decode}

unfoldable pub hex_digit : ℕ → Option ℕ
hex_digit c =
    if leb b'0' c && leb c b'9'
    then some (c - b'0')
    else if leb b'a' c && leb c b'f'
    then some (c - b'a' + 10)
    else if leb b'A' c && leb c b'F'
    then some (c - b'A' + 10)
    else none

-- The bytes of a run of escapes as text, if they are UTF-8. A decoder that puts U+FFFD for what is not
-- gives back other bytes then. It drops one byte order mark at the start, so one is put there.
unfoldable pub strict_decode : List ℕ → Option Text
unfolding encode decode same
strict_decode bytes =
    let s = decode (0xef ∷ 0xbb ∷ 0xbf ∷ bytes) in if same (encode s) bytes then some s else none

-- `run`: the bytes of the escapes that stand directly before the rest
unfoldable pub decode_run : List ℕ → Text → Option Text
unfolding hex_digit strict_decode
decode_run run [] = strict_decode run
decode_run run (c ∷ []) =
    if c == b'%' then none else Option.map (λ s. s ++ c ∷ []) (strict_decode run)
decode_run run (c ∷ d ∷ []) =
    if c == b'%'
    then none
    else if d == b'%'
    then none
    else Option.map (λ s. s ++ c ∷ d ∷ []) (strict_decode run)
decode_run run (c ∷ d ∷ e ∷ s) =
    let plain = decode_run [] (d ∷ e ∷ s) in
    if c == b'%'
    then (do h ← hex_digit d; l ← hex_digit e; decode_run (run ++ ((h * 16 + l) ∷ [])) s)
    else (do before ← strict_decode run; rest ← plain; some (before ++ c ∷ rest))

-- `none` where it throws
unfoldable pub decode_component : Text → Option Text
unfolding decode_run
decode_component s = decode_run [] s
