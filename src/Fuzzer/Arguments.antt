-- ===== src/Fuzzer/Arguments.antt =====
-- `parseArgs` of tools/fuzz/http_fuzz.mjs on the arguments that its usage describes.
use mathlib.Core.Option
use akamata.Prelude.{
  ℕ, zero, suc, ◌+◌, ◌-◌, ◌*◌, ◌/◌, ◌%◌, ◌<◌, ◌≤◌, ◌≡◌, ◌≢◌, refl, ap, ◌∙◌, Bool, true, some, List,
  [], ◌∷◌, ◌++◌, arith, ltb, ltb→lt, ltb_false→le, Bool-cases, inl, inr, if◌then◌else◌,
}
use akamata.Text.{Text, text, same, is_digit, starts_with}
use akamata.Http.Decimal.{decimal_rounds, decimal, AllDigits, decimal-AllDigits}
use akamata.Outbound.Numerals.{decimal-nonempty}
use akamata.Fuzzer.{
  Options, leading_digits, digits_value, in_unit, with_unit, duration_of, read_argument,
  read_arguments,
}

-- The units of `--duration`
pub data TimeUnit : Type 0 where
  unnamed milliseconds seconds minutes : TimeUnit

abbrev pub unit_text : TimeUnit → Text
unit_text unnamed = []
unit_text milliseconds = text "ms"
unit_text seconds = text "s"
unit_text minutes = text "m"

abbrev pub in_milliseconds : TimeUnit → ℕ → ℕ
in_milliseconds unnamed n = n * 1000
in_milliseconds milliseconds n = n
in_milliseconds seconds n = n * 1000
in_milliseconds minutes n = n * 60000

value_rounds :
    (f n : ℕ) (out : Text) → n < f → digits_value 0 (decimal_rounds f n out) ≡ digits_value n out
unfolding decimal_rounds digits_value
value_rounds zero n out lt = absurd (omega arith)
value_rounds (suc f) n out lt = elim (Bool-cases (ltb n 10)) [
  | inl e ↦ rw e (ap (λ k. digits_value k out) (last_digit n (ltb→lt n 10 e)))
  | inr e ↦ rw e (
      value_rounds f (n / 10) ((b'0' + n % 10) ∷ out) (shorter f n (ltb_false→le n 10 e) lt)
      ∙ ap (λ k. digits_value k out) (put_back n))
]
  where
    last_digit : (n : ℕ) → n < 10 → 0 * 10 + (b'0' + n % 10 - b'0') ≡ n
    last_digit n lt = omega (arith, lt)

    shorter : (f n : ℕ) → 10 ≤ n → n < suc f → n / 10 < f
    shorter f n le lt = omega (arith, le, lt)

    put_back : (n : ℕ) → n / 10 * 10 + (b'0' + n % 10 - b'0') ≡ n
    put_back n = omega arith

value-decimal : (n : ℕ) → digits_value 0 (decimal n) ≡ n
unfolding decimal digits_value
value-decimal n = value_rounds (suc n) n [] (omega arith)

unit_rest : (u : TimeUnit) → leading_digits (unit_text u) ≡ ([], unit_text u)
unfolding leading_digits is_digit
unit_rest unnamed = refl
unit_rest milliseconds = refl
unit_rest seconds = refl
unit_rest minutes = refl

digit : (c : ℕ) → b'0' ≤ c → c ≤ b'9' → is_digit c ≡ true
unfolding is_digit
digit c a b = ground arith

abbrev extended : Bool → ℕ → Text → Text × Text → Text × Text
extended b c s (more, rest) = if b then (c ∷ more, rest) else ([], c ∷ s)

leading-digits_unit :
    (ds : Text) (u : TimeUnit)
    → AllDigits ds
    → leading_digits (ds ++ unit_text u) ≡ (ds, unit_text u)
unfolding leading_digits
leading-digits_unit [] u h = unit_rest u
leading-digits_unit (c ∷ ds) u h =
    ap (λ b. extended b c (ds ++ unit_text u) (leading_digits (ds ++ unit_text u)))
      (digit c h.0 h.1)
    ∙ ap (λ (x : Text × Text). extended true c (ds ++ unit_text u) x) (leading-digits_unit ds u h.2)

unit_read : (n : ℕ) (u : TimeUnit) → in_unit n (unit_text u) ≡ some (in_milliseconds u n)
unfolding in_unit same
unit_read n unnamed = refl
unit_read n milliseconds = refl
unit_read n seconds = refl
unit_read n minutes = refl

with_digits : (ds rest : Text) → ds ≢ [] → with_unit (ds, rest) ≡ in_unit (digits_value 0 ds) rest
with_digits [] rest ne = absurd (ne refl)
with_digits (c ∷ ds) rest ne = refl

duration-decimal :
    (n : ℕ) (u : TimeUnit) → duration_of (decimal n ++ unit_text u) ≡ some (in_milliseconds u n)
unfolding duration_of
duration-decimal n u =
    ap with_unit (leading-digits_unit (decimal n) u (decimal-AllDigits n))
    ∙ with_digits (decimal n) (unit_text u) (decimal-nonempty n)
    ∙ ap (λ k. in_unit k (unit_text u)) (value-decimal n)
    ∙ unit_read n u

-- Every number of milliseconds, seconds or minutes, written in decimal behind `--duration=`, with `ms`, `s`, `m`, or no unit for seconds, sets the duration to that
-- time in milliseconds, and sets nothing else; the arguments behind it are read with this duration.
pub read_arguments-duration :
    (n : ℕ) (u : TimeUnit) (av : List Text) (o : Options)
    → read_arguments ((text "--duration=" ++ (decimal n ++ unit_text u)) ∷ av) o
      ≡ read_arguments av (record o { duration_ms = in_milliseconds u n })
unfolding read_arguments read_argument starts_with Option.bind
read_arguments-duration n u av o =
    ap (λ d. Option.bind (Option.map (λ ms. record o { duration_ms = ms }) d) (read_arguments av))
      (duration-decimal n u)
