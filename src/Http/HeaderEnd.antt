-- ===== src/Http/HeaderEnd.antt =====
-- `findHeaderEnd` of deploy/worker/index.mjs: where a block of header lines ends.
use mathlib.Core.Option
use akamata.Prelude.{
  ℕ, zero, suc, ◌+◌, ◌≡◌, ◌≢◌, refl, sym, ap, ◌∙◌, none, some, List, [], ◌∷◌, ◌++◌, arith, length,
  length-take, length-drop, take, drop, length-append, append_assoc, ◌<◌,
}
use akamata.Text.{Text, join}
use akamata.Text.Search.{Avoids, AllAvoid}
use akamata.Http.{crlf, find_header_end}

abbrev pub header_end : List ℕ → List ℕ
header_end body = 13 ∷ 10 ∷ 13 ∷ 10 ∷ body

-- CR LF CR LF stands at position `i`.
abbrev pub EndsAt : List ℕ → ℕ → Type 0
EndsAt bs i = take 4 (drop i bs) ≡ header_end []

EndsAt-long :
    (a b c d : ℕ) (bs : List ℕ)
    → EndsAt (a ∷ b ∷ c ∷ d ∷ bs) 0
    → (a ≡ 13) × (b ≡ 10) × (c ≡ 13) × (d ≡ 10)
EndsAt-long a b c d bs e = ground arith

EndsAt-short : (bs : List ℕ) (j : ℕ) → length bs < 4 → ¬ EndsAt bs j
EndsAt-short bs j lt e =
    absurd (omega (arith, ap (length {A = ℕ}) e, length-take 4 (drop j bs), length-drop j bs))

search_found : (bs : List ℕ) (i : ℕ) → find_header_end bs ≡ some i → EndsAt bs i
unfolding find_header_end
search_found [] i e = cc
search_found (a ∷ []) i e = cc
search_found (a ∷ b ∷ []) i e = cc
search_found (a ∷ b ∷ c ∷ []) i e = cc
search_found (a ∷ b ∷ c ∷ d ∷ bs) zero e = ground arith
search_found (a ∷ b ∷ c ∷ d ∷ bs) (suc i) e = search_found (b ∷ c ∷ d ∷ bs) i (ground arith)

search_first : (bs : List ℕ) (i j : ℕ) → find_header_end bs ≡ some i → j < i → ¬ EndsAt bs j
unfolding find_header_end
search_first [] i j e lt q = cc
search_first (a ∷ []) i j e lt q = cc
search_first (a ∷ b ∷ []) i j e lt q = cc
search_first (a ∷ b ∷ c ∷ []) i j e lt q = cc
search_first (a ∷ b ∷ c ∷ d ∷ bs) zero j e lt q = omega arith
search_first (a ∷ b ∷ c ∷ d ∷ bs) (suc i) zero e lt q = ground (arith, EndsAt-long a b c d bs q)
search_first (a ∷ b ∷ c ∷ d ∷ bs) (suc i) (suc j) e lt q =
    search_first (b ∷ c ∷ d ∷ bs) i j (ground arith) (omega arith) q

search_none : (bs : List ℕ) (j : ℕ) → find_header_end bs ≡ none → ¬ EndsAt bs j
unfolding find_header_end
search_none [] j e q = EndsAt-short [] j (omega arith) q
search_none (a ∷ []) j e q = EndsAt-short (a ∷ []) j (omega arith) q
search_none (a ∷ b ∷ []) j e q = EndsAt-short (a ∷ b ∷ []) j (omega arith) q
search_none (a ∷ b ∷ c ∷ []) j e q = EndsAt-short (a ∷ b ∷ c ∷ []) j (omega arith) q
search_none (a ∷ b ∷ c ∷ d ∷ bs) zero e q = ground (arith, EndsAt-long a b c d bs q)
search_none (a ∷ b ∷ c ∷ d ∷ bs) (suc j) e q = search_none (b ∷ c ∷ d ∷ bs) j (ground arith) q

-- `findHeaderEnd` returns a position exactly when it is the first at which CR LF CR LF stands, and
-- -1 only if it stands nowhere.
pub find_header_end_exact :
    (bs : List ℕ)
    → ((i : ℕ) → find_header_end bs ≡ some i → EndsAt bs i × ((j : ℕ) → j < i → ¬ EndsAt bs j))
      × (find_header_end bs ≡ none → (j : ℕ) → ¬ EndsAt bs j)
find_header_end_exact bs =
    (λ i e. (search_found bs i e, λ j. search_first bs i j e), λ e j. search_none bs j e)

pub find_header_end-cons :
    (x : ℕ) (s : List ℕ) → x ≢ 13 → find_header_end (x ∷ s) ≡ Option.map suc (find_header_end s)
unfolding find_header_end
find_header_end-cons x [] n = refl
find_header_end-cons x (a ∷ []) n = refl
find_header_end-cons x (a ∷ b ∷ []) n = refl
find_header_end-cons x (a ∷ b ∷ c ∷ s) n = ground arith

find_header_end-crlf :
    (x : ℕ) (s : List ℕ)
    → x ≢ 13
    → find_header_end (13 ∷ 10 ∷ x ∷ s) ≡ Option.map suc (Option.map suc (find_header_end (x ∷ s)))
unfolding find_header_end
find_header_end-crlf x [] n = refl
find_header_end-crlf x (d ∷ s) n = ground (arith, find_header_end-cons 10 (x ∷ d ∷ s))

pub join-head :
    (p : Text) (x : ℕ) (u : Text) (us : List Text) → join p ((x ∷ u) ∷ us) ≡ x ∷ join p (u ∷ us)
unfolding join
join-head p x u [] = refl
join-head p x u (t ∷ ts) = refl

find_header_end-line :
    (line rest : List ℕ) (i : ℕ)
    → Avoids 13 line
    → find_header_end rest ≡ some i
    → find_header_end (line ++ rest) ≡ some (length line + i)
find_header_end-line [] rest i a e = let z : 0 + i ≡ i = omega arith in rw z e
find_header_end-line (x ∷ line) rest i a e =
    find_header_end-cons x (line ++ rest) a.0
    ∙ ap (Option.map suc) (find_header_end-line line rest i a.1 e)
    ∙ ap some (omega arith)

-- every line is something
abbrev pub AllNonempty : List Text → Type 0
AllNonempty [] = Unit
AllNonempty ([] ∷ ts) = ⊥
AllNonempty ((x ∷ s) ∷ ts) = AllNonempty ts

crlf_before :
    (s s' e : List ℕ) (x n : ℕ)
    → s ≡ x ∷ s'
    → x ≢ 13
    → find_header_end (s ++ e) ≡ some n
    → find_header_end (13 ∷ 10 ∷ (s ++ e)) ≡ some (suc (suc n))
crlf_before s s' e x n q ne f =
    ap (λ r. find_header_end (13 ∷ 10 ∷ (r ++ e))) q
    ∙ find_header_end-crlf x (s' ++ e) ne
    ∙ ap (λ r. Option.map suc (Option.map suc (find_header_end (r ++ e)))) (sym q)
    ∙ ap (λ o. Option.map suc (Option.map suc o)) f

-- Lines without CR, none empty after the first: the end of the block is behind the last line.
pub find_header_end-lines :
    (t : Text) (ts : List Text) (body : List ℕ)
    → AllAvoid 13 (t ∷ ts)
    → AllNonempty ts
    → find_header_end (join crlf (t ∷ ts) ++ header_end body) ≡ some (length (join crlf (t ∷ ts)))
unfolding join find_header_end
find_header_end-lines t [] body a n =
    find_header_end-line t (header_end body) 0 a.0 refl ∙ ap some (omega arith)
find_header_end-lines t ([] ∷ us) body a n = absurd n
find_header_end-lines t ((x ∷ u) ∷ us) body a n =
    let rest = join crlf ((x ∷ u) ∷ us) in
    ap find_header_end (append_assoc t (crlf ++ rest) (header_end body))
    ∙ find_header_end-line t (13 ∷ 10 ∷ (rest ++ header_end body)) (suc (suc (length rest))) a.0 (
        crlf_before rest (join crlf (u ∷ us)) (header_end body) x (length rest)
          (join-head crlf x u us) a.1.0.0 (find_header_end-lines (x ∷ u) us body a.1 n))
    ∙ ap some (omega (arith, length-append {0} t (crlf ++ rest)))
