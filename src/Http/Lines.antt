-- ===== src/Http/Lines.antt =====
-- The lines of a served response, as deploy/worker/index.mjs takes them apart again.
use mathlib.Core.Option
use akamata.Prelude.{
  ℕ, ◌+◌, ◌≡◌, refl, fun_ext, ap, ap₂, ◌∙◌, Option, none, some, List, [], ◌∷◌, ◌++◌, arith, take,
  drop, take-length_append, get_elem?,
}
use akamata.Prelude.Numbers.{pos}
use akamata.Text.{Text, text, join, trim, parse_int}
use akamata.Text.Laws.{IsAscii, IsAscii-append}
use akamata.Text.Search.{Avoids, AllAvoid, Avoids-append, index_of-append, split-join, drop-two}
use akamata.Http.{Fields, Web, crlf, set_header, set_line, set_lines, status_of, field_line}
use akamata.Http.HeaderEnd.{AllNonempty}
use akamata.Http.Parts.{
  Parts, status_text, status_number, status_line, field_lines, response_lines, IsLine, AllWords,
  AllClean, IsServed, set_fields,
}

abbrev set_at : Web → Text → Fields → Option ℕ → Option Fields
set_at web line hs o = elim o [
  | none ↦ some hs
  | some i ↦ set_header web (trim (take i line)) (trim (drop (i + 1) line)) hs
]

trim_padded : (v : Text) → trim v ≡ v → trim (32 ∷ v) ≡ v
unfolding trim
trim_padded v tv = tv

pub set_line-field :
    (web : Web) (k v : Text) (hs : Fields)
    → Avoids 58 k
    → trim k ≡ k
    → trim v ≡ v
    → set_line web (field_line k v) hs ≡ set_header web k v hs
unfolding set_line
set_line-field web k v hs a tk tv =
    ap (set_at web (field_line k v) hs) (index_of-append 58 [] k (32 ∷ v) a)
    ∙ ap₂ (λ name value. set_header web name value hs)
        (ap trim (take-length_append k (58 ∷ 32 ∷ v)) ∙ tk)
        (ap trim (drop-two k (58 ∷ []) (32 ∷ v)) ∙ trim_padded v tv)

pub set_lines-fields :
    (web : Web) (fs hs : Fields)
    → AllClean fs
    → set_lines web (field_lines fs) hs ≡ set_fields web fs hs
unfolding set_lines set_fields Option.bind
set_lines-fields web [] hs c = refl
set_lines-fields web ((k, v) ∷ fs) hs ((ak, lk, lv, tk, tv), c) =
    ap (λ o. Option.bind o (set_lines web (field_lines fs))) (set_line-field web k v hs ak tk tv)
    ∙ ap (Option.bind (set_header web k v hs)) (fun_ext λ hs'. set_lines-fields web fs hs' c)

AllWords-avoid : (ws : List Text) → AllWords ws → AllAvoid 32 ws
AllWords-avoid [] h = tt
AllWords-avoid (w ∷ ws) h = (h.0.0, AllWords-avoid ws h.1)

pub IsLine-append : (s t : Text) → IsLine s → IsLine t → IsLine (s ++ t)
IsLine-append s t a b = (Avoids-append 13 s t a.0 b.0, IsAscii-append s t a.1 b.1)

IsLine-join_words :
    (w : Text) (ws : List Text) → IsLine w → AllWords ws → IsLine (join (text " ") (w ∷ ws))
unfolding join
IsLine-join_words w [] l h = l
IsLine-join_words w (u ∷ us) l h =
    IsLine-append w _ l
      (IsLine-append (text " ") _ (omega arith, omega arith) (IsLine-join_words u us h.0.1 h.1))

pub status_line-IsLine : (x : Parts) → IsServed x → IsLine (status_line x)
unfolding status_line
status_line-IsLine x w =
    IsLine-join_words (text "HTTP/1.1") (status_text x ∷ x.reason) (omega arith, omega arith)
      (
        (
          omega (arith, w.first, w.digits),
          (omega (arith, w.first, w.digits), omega (arith, w.first, w.digits)),
        ),
        w.words,
      )

parse_status : (x : Parts) → IsServed x → parse_int (status_text x) ≡ some (pos (status_number x))
unfolding parse_int
parse_status x w = ground (arith, w.first, w.digits)

pub status_of-line :
    (x : Parts) → IsServed x → status_of (response_lines x) ≡ some (pos (status_number x))
unfolding status_of status_line Option.bind
status_of-line x w =
    ap (λ ws. Option.bind (get_elem? ws 1) parse_int)
      (split-join 32 [] (text "HTTP/1.1") (status_text x ∷ x.reason)
        (omega arith, (omega (arith, w.first, w.digits), AllWords-avoid x.reason w.words)))
    ∙ parse_status x w

abbrev pub AllLines : List Text → Type 0
AllLines [] = Unit
AllLines (s ∷ ts) = IsLine s × AllLines ts

pub field_lines-AllLines : (fs : Fields) → AllClean fs → AllLines (field_lines fs)
field_lines-AllLines [] c = tt
field_lines-AllLines ((k, v) ∷ fs) ((ak, lk, lv, tk, tv), c) = (
  IsLine-append k _ lk (IsLine-append (text ": ") v (omega arith, omega arith) lv),
  field_lines-AllLines fs c,
)

pub AllLines-avoid : (ts : List Text) → AllLines ts → AllAvoid 13 ts
AllLines-avoid [] h = tt
AllLines-avoid (s ∷ ts) h = (h.0.0, AllLines-avoid ts h.1)

pub AllLines-IsAscii :
    (s : Text) (ts : List Text) → IsLine s → AllLines ts → IsAscii (join crlf (s ∷ ts))
unfolding join
AllLines-IsAscii s [] l h = l.1
AllLines-IsAscii s (t ∷ ts) l h =
    IsAscii-append s _ l.1 (IsAscii-append crlf _ (omega arith) (AllLines-IsAscii t ts h.0 h.1))

pub field_lines-AllNonempty : (fs : Fields) → AllNonempty (field_lines fs)
field_lines-AllNonempty [] = tt
field_lines-AllNonempty (([], v) ∷ fs) = field_lines-AllNonempty fs
field_lines-AllNonempty ((c ∷ k, v) ∷ fs) = field_lines-AllNonempty fs
