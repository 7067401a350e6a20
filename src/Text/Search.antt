-- ===== src/Text/Search.antt =====
-- `indexOf` and `split` find a separator where it was put.
use akamata.Prelude.{
  ℕ, zero, suc, ◌+◌, ◌≤◌, ◌≡◌, ◌≢◌, refl, ap, ap₂, ◌∙◌, Option, none, some, List, [], ◌∷◌, ◌++◌,
  arith, length, take, drop, true, false, length-append, take-length_append, drop-length_append,
}
use mathlib.Core.Option
use akamata.Text.{Text, starts_with, index_of, split_rounds, split, join}

-- `c` does not occur in the text.
abbrev pub Avoids : ℕ → Text → Type 0
Avoids c [] = Unit
Avoids c (x ∷ s) = (x ≢ c) × Avoids c s

abbrev pub AllAvoid : ℕ → List Text → Type 0
AllAvoid c [] = Unit
AllAvoid c (s ∷ ts) = Avoids c s × AllAvoid c ts

pub Avoids-append : (c : ℕ) (s t : Text) → Avoids c s → Avoids c t → Avoids c (s ++ t)
Avoids-append c [] t a b = b
Avoids-append c (x ∷ s) t a b = (a.0, Avoids-append c s t a.1 b)

pub starts_with-append : (p t : Text) → starts_with p (p ++ t) ≡ true
unfolding starts_with
starts_with-append [] t = refl
starts_with-append (x ∷ p) t = ground (arith, starts_with-append p t)

pub starts_with-ne : (c x : ℕ) (p t : Text) → x ≢ c → starts_with (c ∷ p) (x ∷ t) ≡ false
unfolding starts_with
starts_with-ne c x p t n = ground arith

pub index_of-append :
    (c : ℕ) (p s t : Text) → Avoids c s → index_of (c ∷ p) (s ++ ((c ∷ p) ++ t)) ≡ some (length s)
unfolding index_of
index_of-append c p [] t a = rw (starts_with-append (c ∷ p) t)
index_of-append c p (x ∷ s) t a =
    rw (starts_with-ne c x p (s ++ ((c ∷ p) ++ t)) a.0)
      (ap (Option.map suc) (index_of-append c p s t a.1))

pub index_of-none : (c : ℕ) (p s : Text) → Avoids c s → index_of (c ∷ p) s ≡ none
unfolding index_of starts_with
index_of-none c p [] a = refl
index_of-none c p (x ∷ s) a =
    rw (starts_with-ne c x p s a.0) (ap (Option.map suc) (index_of-none c p s a.1))

pub drop-two : (s p t : Text) → drop (length s + length p) (s ++ (p ++ t)) ≡ t
drop-two [] p t = let e : 0 + length p ≡ length p = omega arith in rw e (drop-length_append p t)
drop-two (x ∷ s) p t =
    let e : suc (length s) + length p ≡ suc (length s + length p) = omega arith in
    rw e (drop-two s p t)

length-join :
    (c : ℕ) (p s t : Text) (ts : List Text)
    → length (join (c ∷ p) (s ∷ t ∷ ts))
      ≡ length s + suc (length p) + length (join (c ∷ p) (t ∷ ts))
unfolding join
length-join c p s t ts = omega (
  arith,
  length-append {0} s ((c ∷ p) ++ join (c ∷ p) (t ∷ ts)),
  length-append {0} (c ∷ p) (join (c ∷ p) (t ∷ ts)),
)

abbrev rest_of : ℕ → Text → Text → Option ℕ → List Text
rest_of n p s o = elim o [
  | none ↦ s ∷ []
  | some i ↦ take i s ∷ split_rounds n p (drop (i + length p) s)
]

pub split_rounds-cons :
    (c : ℕ) (p : Text) (n : ℕ) (s r : Text)
    → Avoids c s
    → split_rounds (suc n) (c ∷ p) (s ++ ((c ∷ p) ++ r)) ≡ s ∷ split_rounds n (c ∷ p) r
unfolding split_rounds
split_rounds-cons c p n s r a =
    ap (rest_of n (c ∷ p) (s ++ ((c ∷ p) ++ r))) (index_of-append c p s r a)
    ∙ ap₂ (λ (h : Text) rest. h ∷ split_rounds n (c ∷ p) rest) (take-length_append s ((c ∷ p) ++ r))
        (drop-two s (c ∷ p) r)

split_rounds-join :
    (c : ℕ) (p : Text) (n : ℕ) (s : Text) (ts : List Text)
    → AllAvoid c (s ∷ ts)
    → length (join (c ∷ p) (s ∷ ts)) ≤ n
    → split_rounds n (c ∷ p) (join (c ∷ p) (s ∷ ts)) ≡ s ∷ ts
unfolding split_rounds join
split_rounds-join c p zero s [] a le = refl
split_rounds-join c p (suc n) s [] a le = rw (index_of-none c p s a.0, split_rounds)
split_rounds-join c p zero s (t ∷ ts) a le = absurd (omega (arith, length-join c p s t ts))
split_rounds-join c p (suc n) s (t ∷ ts) a le =
    split_rounds-cons c p n s (join (c ∷ p) (t ∷ ts)) a.0
    ∙ ap (λ us. s ∷ us) (split_rounds-join c p n t ts a.1 (omega (arith, length-join c p s t ts)))

-- Splitting gives back what was joined, if the separator's first unit occurs in no part.
pub split-join :
    (c : ℕ) (p s : Text) (ts : List Text)
    → AllAvoid c (s ∷ ts)
    → split (c ∷ p) (join (c ∷ p) (s ∷ ts)) ≡ s ∷ ts
unfolding split
split-join c p s ts a = split_rounds-join c p _ s ts a (omega arith)
