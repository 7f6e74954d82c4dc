-- ===== src/Storage/Decimal.antt =====
-- Counters as text: `String(n)` and `parseInt(s, 10)`.
use tetrac_login_sdk.Prelude.{
  ℕ, zero, suc, ◌+◌, ◌-◌, ◌*◌, ◌/◌, ◌%◌, ◌<◌, ◌≡◌, ap, ◌∙◌, inl, inr, Bool-cases, true, ◌&&◌, [],
  ◌∷◌, Text, ltb, leb, if◌then◌else◌, arith,
}

-- The digits in front of those that were printed.
print_digits : ℕ → ℕ → Text → Text
print_digits zero n out = out
print_digits (suc fuel) n out =
    let digit = b'0' + n % 10 in
    let rest = print_digits fuel (n / 10) (digit ∷ out) in if ltb n 10 then digit ∷ out else rest

-- `String(n)`, with as much fuel as `n` has digits and more. Above 10^21 the program's numbers
-- print with an exponent; its counters stay far below.
unfoldable pub to_decimal : ℕ → Text
unfolding print_digits
to_decimal n = print_digits (suc n) n []

-- The value of the leading digits, after those that were read.
read_digits : ℕ → Text → ℕ
read_digits value [] = value
read_digits value (c ∷ s) =
    let rest = read_digits (value * 10 + (c - b'0')) s in
    if leb b'0' c && leb c b'9' then rest else value

-- `parseInt(s, 10) || 0`, of a text with no leading white space and no sign: nothing else is
-- written to a counter.
unfoldable pub parse_int : Text → ℕ
unfolding read_digits
parse_int s = read_digits 0 s

digit_test : (d : ℕ) → d < 10 → (leb b'0' (b'0' + d) && leb (b'0' + d) b'9') ≡ true
digit_test d h = ground arith

-- Reading what was printed, with the power of ten that the printed digits take.
read_digits-step :
    (value d : ℕ) (out : Text)
    → d < 10
    → read_digits value ((b'0' + d) ∷ out) ≡ read_digits (value * 10 + d) out
unfolding read_digits
read_digits-step value d out h = rw (digit_test d h) (ap (λ n. read_digits n out) (omega arith))

read_print :
    (fuel n : ℕ) (out : Text)
    → n < fuel
    → (k : ℕ) × ((value : ℕ)
        → read_digits value (print_digits fuel n out) ≡ read_digits (value * k + n) out)
unfolding print_digits
read_print zero n out h = absurd (omega arith)
read_print (suc fuel) n out h = elim (Bool-cases (ltb n 10)) [
  | inl last ↦ (
    10,
    λ value. rw last (
        read_digits-step value (n % 10) out (omega arith)
        ∙ ap (λ m. read_digits m out) (ground arith)),
  )
  | inr more ↦
      let (k, ih) = read_print fuel (n / 10) ((b'0' + n % 10) ∷ out) (ground arith) in
      (
        k * 10,
        λ value. rw more (
            ih value
            ∙ (read_digits-step (value * k + n / 10) (n % 10) out (omega arith)
                ∙ ap (λ m. read_digits m out) (ground arith))),
      )
]

-- `parseInt(String(n), 10)` is `n`.
pub parse_int-to_decimal : (n : ℕ) → parse_int (to_decimal n) ≡ n
unfolding parse_int to_decimal
parse_int-to_decimal n = let (k, e) = read_print (suc n) n [] (omega arith) in e 0 ∙ (omega arith)
