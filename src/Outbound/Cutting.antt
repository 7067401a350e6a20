-- ===== src/Outbound/Cutting.antt =====
-- How `akamata_fetch` of deploy/worker/index.mjs cuts the request text.
use mathlib.Core.Option
use akamata.Prelude.{
  ℕ, suc, ◌+◌, ◌≡◌, ◌≢◌, sym, ap, ap₂, ◌∙◌, some, List, [], ◌∷◌, ◌++◌, arith, length, append_assoc,
  length-append, take-length_append,
}
use akamata.Text.{Text, starts_with, index_of, join}
use akamata.Text.Search.{Avoids, AllAvoid, index_of-append, starts_with-ne, drop-two}
use akamata.Http.{Fields, field_line}
use akamata.Http.HeaderEnd.{AllNonempty, join-head}
use akamata.Http.Parts.{field_lines}
use akamata.Outbound.{newline, cut}
use akamata.Outbound.Client.{serialize_headers}

cut_at :
    (p s t : Text)
    → index_of p (s ++ (p ++ t)) ≡ some (length s)
    → cut p (s ++ (p ++ t)) ≡ some (s, t)
unfolding cut
cut_at p s t e =
    rw e (ap₂ (λ (a b : Text). some (a, b)) (take-length_append s (p ++ t)) (drop-two s p t))

pub cut-newline : (s t : Text) → Avoids 10 s → cut newline (s ++ (newline ++ t)) ≡ some (s, t)
cut-newline s t a = cut_at newline s t (index_of-append 10 [] s t a)

abbrev blank : Text
blank = 10 ∷ 10 ∷ []

blank-line :
    (line rest : Text) (i : ℕ)
    → Avoids 10 line
    → index_of blank rest ≡ some i
    → index_of blank (line ++ rest) ≡ some (length line + i)
unfolding index_of
blank-line [] rest i a e = let z : 0 + i ≡ i = omega arith in rw z e
blank-line (x ∷ line) rest i a e =
    rw (starts_with-ne 10 x (10 ∷ []) (line ++ rest) a.0)
      (ap (Option.map suc) (blank-line line rest i a.1 e) ∙ ap some (omega arith))

blank-newline :
    (x : ℕ) (s : Text) (i : ℕ)
    → x ≢ 10
    → index_of blank (x ∷ s) ≡ some i
    → index_of blank (10 ∷ x ∷ s) ≡ some (suc i)
unfolding index_of starts_with
blank-newline x s i n e = ground arith

blank-behind :
    (s s' e : Text) (x n : ℕ)
    → s ≡ x ∷ s'
    → x ≢ 10
    → index_of blank (s ++ e) ≡ some n
    → index_of blank (10 ∷ (s ++ e)) ≡ some (suc n)
blank-behind s s' e x n q ne f =
    ap (λ r. index_of blank (10 ∷ (r ++ e))) q
    ∙ blank-newline x (s' ++ e) n ne (ap (λ r. index_of blank (r ++ e)) (sym q) ∙ f)

-- Lines without newline, none empty after the first: the block ends behind the last line.
index_of-lines :
    (t : Text) (ts : List Text) (body : Text)
    → AllAvoid 10 (t ∷ ts)
    → AllNonempty ts
    → index_of blank (join newline (t ∷ ts) ++ (blank ++ body))
      ≡ some (length (join newline (t ∷ ts)))
unfolding join
index_of-lines t [] body a n =
    blank-line t (blank ++ body) 0 a.0 (index_of-append 10 (10 ∷ []) [] body tt)
    ∙ ap some (omega arith)
index_of-lines t ([] ∷ us) body a n = absurd n
index_of-lines t ((x ∷ u) ∷ us) body a n =
    let rest = join newline ((x ∷ u) ∷ us) in
    ap (index_of blank) (append_assoc t (newline ++ rest) (blank ++ body))
    ∙ blank-line t (10 ∷ (rest ++ (blank ++ body))) (suc (length rest)) a.0 (
        blank-behind rest (join newline (u ∷ us)) (blank ++ body) x (length rest)
          (join-head newline x u us) a.1.0.0 (index_of-lines (x ∷ u) us body a.1 n))
    ∙ ap some (omega (arith, length-append {0} t (newline ++ rest)))

pub cut-lines :
    (t : Text) (ts : List Text) (body : Text)
    → AllAvoid 10 (t ∷ ts)
    → AllNonempty ts
    → cut blank (join newline (t ∷ ts) ++ (blank ++ body)) ≡ some (join newline (t ∷ ts), body)
cut-lines t ts body a n = cut_at blank _ body (index_of-lines t ts body a n)

-- The header lines of the instance's side, each with its newline, are joined by newlines.
pub serialize_headers-join :
    (k v : Text) (fs : Fields) (body : Text)
    → serialize_headers ((k, v) ∷ fs) ++ (10 ∷ body)
      ≡ join newline (field_lines ((k, v) ∷ fs)) ++ (blank ++ body)
unfolding serialize_headers join
serialize_headers-join k v [] body = append_assoc (field_line k v) newline (10 ∷ body)
serialize_headers-join k v ((l, w) ∷ fs) body =
    let rest = join newline (field_lines ((l, w) ∷ fs)) in
    append_assoc (field_line k v) (10 ∷ serialize_headers ((l, w) ∷ fs)) (10 ∷ body)
    ∙ ap (λ r. field_line k v ++ (10 ∷ r)) (serialize_headers-join l w fs body)
    ∙ sym (append_assoc (field_line k v) (10 ∷ rest) (blank ++ body))
