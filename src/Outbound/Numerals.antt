-- ===== src/Outbound/Numerals.antt =====
-- The length that `akamata_fetch` (deploy/worker/index.mjs) writes is the one that `parseResponse`
-- (src/http_client.zig) reads.
use akamata.Prelude.{
  ℕ, zero, suc, ◌+◌, ◌*◌, ◌/◌, ◌%◌, ◌≡◌, ◌≢◌, ◌<◌, refl, ap, ◌∙◌, some, [], ◌∷◌, ◌++◌, arith, ltb,
  Bool-cases, inl, inr,
}
use mathlib.Core.List.{reverse, reverse-cons, reverse-reverse}
use akamata.Text.{Text}
use akamata.Http.Decimal.{decimal_rounds, decimal, AllDigits, decimal-AllDigits}
use akamata.Outbound.Client.{
  trim_left, trim_blanks, accumulate, last_or, unsigned_of, parse_int_below,
}

accumulate-digit :
    (limit n d : ℕ) (out : Text)
    → d < 10
    → n * 10 + d < limit
    → accumulate limit n ((b'0' + d) ∷ out) ≡ accumulate limit (n * 10 + d) out
unfolding accumulate
accumulate-digit limit n d out lt fits = ground arith

-- Reading what has been written so far is reading the rest from the number on.
accumulate-rounds :
    (limit f n : ℕ) (out : Text)
    → n < f
    → n < limit
    → accumulate limit 0 (decimal_rounds f n out) ≡ accumulate limit n out
unfolding decimal_rounds
accumulate-rounds limit zero n out lt fits = absurd (omega arith)
accumulate-rounds limit (suc f) n out lt fits = elim (Bool-cases (ltb n 10)) [
  | inl e ↦ rw e (
      accumulate-digit limit 0 (n % 10) out (omega arith) (ground arith)
      ∙ ap (λ k. accumulate limit k out) (ground arith))
  | inr e ↦ rw e (
      accumulate-rounds limit f (n / 10) ((b'0' + n % 10) ∷ out) (ground arith) (omega arith)
      ∙ accumulate-digit limit (n / 10) (n % 10) out (omega arith) (omega arith)
      ∙ ap (λ k. accumulate limit k out) (omega arith))
]

last_or-AllDigits : (d : ℕ) (s : Text) → d ≢ b'_' → AllDigits s → last_or d s ≢ b'_'
last_or-AllDigits d [] n h = n
last_or-AllDigits d (c ∷ s) n h = last_or-AllDigits c s (omega (arith, h.0, h.1)) h.2

parse-digits :
    (limit c : ℕ) (s : Text)
    → AllDigits (c ∷ s)
    → parse_int_below limit (c ∷ s) ≡ accumulate limit 0 (c ∷ s)
unfolding parse_int_below unsigned_of
parse-digits limit c s h =
    ground (arith, h.0, h.1, last_or-AllDigits c s (omega (arith, h.0, h.1)) h.2)

parse-decimal_digits :
    (limit : ℕ) (s : Text) → AllDigits s → s ≢ [] → parse_int_below limit s ≡ accumulate limit 0 s
parse-decimal_digits limit [] h ne = absurd (ne refl)
parse-decimal_digits limit (c ∷ s) h ne = parse-digits limit c s h

rounds-nonempty : (f n : ℕ) (c : ℕ) (out : Text) → decimal_rounds f n (c ∷ out) ≢ []
unfolding decimal_rounds
rounds-nonempty zero n c out e = cc
rounds-nonempty (suc f) n c out e =
    ground (arith, rounds-nonempty f (n / 10) (b'0' + n % 10) (c ∷ out))

pub decimal-nonempty : (n : ℕ) → decimal n ≢ []
unfolding decimal decimal_rounds
decimal-nonempty n e = ground (arith, rounds-nonempty n (n / 10) (b'0' + n % 10) [])

-- Every number below the limit is read back from its decimal digits.
pub parse_int_below-decimal : (limit n : ℕ) → n < limit → parse_int_below limit (decimal n) ≡ some n
unfolding decimal accumulate
parse_int_below-decimal limit n lt =
    parse-decimal_digits limit (decimal n) (decimal-AllDigits n) (decimal-nonempty n)
    ∙ accumulate-rounds limit (suc n) n [] (omega arith) lt

trim_left-digits : (s : Text) → AllDigits s → trim_left s ≡ s
unfolding trim_left
trim_left-digits [] h = refl
trim_left-digits (c ∷ s) h = ground arith

AllDigits-append : (s t : Text) → AllDigits s → AllDigits t → AllDigits (s ++ t)
AllDigits-append [] t a b = b
AllDigits-append (c ∷ s) t a b = (a.0, a.1, AllDigits-append s t a.2 b)

AllDigits-reverse : (s : Text) → AllDigits s → AllDigits (reverse s)
AllDigits-reverse [] h = tt
AllDigits-reverse (c ∷ s) h =
    rw (reverse-cons c s)
      (AllDigits-append (reverse s) (c ∷ []) (AllDigits-reverse s h.2) (h.0, h.1, tt))

-- Digits behind a space are trimmed to themselves.
pub trim_blanks-digits : (s : Text) → AllDigits s → trim_blanks (32 ∷ s) ≡ s
unfolding trim_blanks trim_left
trim_blanks-digits s h =
    ap (λ (t : Text). reverse (trim_left (reverse t))) (trim_left-digits s h)
    ∙ ap reverse (trim_left-digits (reverse s) (AllDigits-reverse s h))
    ∙ reverse-reverse s
