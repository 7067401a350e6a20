-- ===== src/Http/Decimal.antt =====
-- A natural number in a template string.
use akamata.Prelude.{
  ℕ, zero, suc, ◌+◌, ◌/◌, ◌%◌, ◌≡◌, ◌≤◌, [], ◌∷◌, ltb, if◌then◌else◌, arith, refl,
}
use akamata.Text.{Text}

-- Each round takes one digit off; a number has fewer digits than its value plus one.
unfoldable pub decimal_rounds : ℕ → ℕ → Text → Text
decimal_rounds zero n out = out
decimal_rounds (suc f) n out =
    let digit = b'0' + n % 10 in
    let rest = decimal_rounds f (n / 10) (digit ∷ out) in if ltb n 10 then digit ∷ out else rest

-- `${n}`
unfoldable pub decimal : ℕ → Text
unfolding decimal_rounds
decimal n = decimal_rounds (suc n) n []

-- Only digits.
abbrev pub AllDigits : Text → Type 0
AllDigits [] = Unit
AllDigits (c ∷ s) = (b'0' ≤ c) × (c ≤ b'9') × AllDigits s

decimal_rounds-AllDigits :
    (f n : ℕ) (out : Text) → AllDigits out → AllDigits (decimal_rounds f n out)
unfolding decimal_rounds
decimal_rounds-AllDigits zero n out h = h
decimal_rounds-AllDigits (suc f) n out h = ground (
  arith,
  decimal_rounds-AllDigits f (n / 10) ((b'0' + n % 10) ∷ out) (omega arith, omega arith, h),
)

pub decimal-AllDigits : (n : ℕ) → AllDigits (decimal n)
unfolding decimal
decimal-AllDigits n = decimal_rounds-AllDigits (suc n) n [] tt

decimal_test : decimal 1024 ≡ b'1' ∷ b'0' ∷ b'2' ∷ b'4' ∷ []
unfolding decimal
decimal_test = refl
