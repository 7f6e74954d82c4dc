-- ===== src/Prelude/Bits.antt =====
-- What the program uses of `^` and `|` on numbers: when their results are zero.
use Prim.Native.Nat.{bit_or, bit_xor, digits, differ, bit_or-bitwise, bit_xor-bitwise}
use tetrac_login_sdk.Prelude.{ℕ, zero, suc, ◌/◌, ◌%◌, ◌≤◌, max, ◌≡◌, refl, ◌↔◌, ◌∙◌, sym, arith}

-- With fuel for the first number's digits, the digits of `|` are zero only on zeros.
or_digits_zero : (n a b : ℕ) → a ≤ n → digits (λ b. b) max n a b ≡ 0 → (a ≡ 0) × (b ≡ 0)
or_digits_zero zero zero b p h = (refl, h)
or_digits_zero zero (suc a) b p h = absurd (omega arith)
or_digits_zero (suc n) zero b p h = (refl, h)
or_digits_zero (suc n) (suc a) b p h =
    let rest : (suc a / 2 ≡ 0) × (b / 2 ≡ 0) =
      or_digits_zero n (suc a / 2) (b / 2) (omega arith) (omega arith) in
    (omega arith, omega arith)

differ_zero : (a b : ℕ) → differ a b ≡ 0 → a ≡ b
differ_zero zero b h = omega arith
differ_zero (suc a) zero h = absurd (omega arith)
differ_zero (suc a) (suc b) h = omega (arith, differ_zero a b h)

xor_digits_zero : (n a b : ℕ) → a ≤ n → digits (λ b. b) differ n a b ≡ 0 → a ≡ b
xor_digits_zero zero zero b p h = omega arith
xor_digits_zero zero (suc a) b p h = absurd (omega arith)
xor_digits_zero (suc n) zero b p h = omega arith
xor_digits_zero (suc n) (suc a) b p h =
    let rest : suc a / 2 ≡ b / 2 =
      xor_digits_zero n (suc a / 2) (b / 2) (omega arith) (omega arith) in
    let low : suc a % 2 ≡ b % 2 = differ_zero (suc a % 2) (b % 2) (omega arith) in omega arith

differ_self : (a : ℕ) → differ a a ≡ 0
differ_self zero = refl
differ_self (suc a) = differ_self a

xor_digits_self : (n a : ℕ) → a ≤ n → digits (λ b. b) differ n a a ≡ 0
xor_digits_self zero zero p = refl
xor_digits_self zero (suc a) p = absurd (omega arith)
xor_digits_self (suc n) zero p = refl
xor_digits_self (suc n) (suc a) p =
    omega (arith, xor_digits_self n (suc a / 2) (omega arith), differ_self (suc a % 2))

pub bit_or-eq_zero : (a b : ℕ) → (bit_or a b ≡ 0) ↔ ((a ≡ 0) × (b ≡ 0))
bit_or-eq_zero a b =
    (λ h. or_digits_zero a a b (omega arith) (sym (bit_or-bitwise a b) ∙ h), λ h. rw (h.0, h.1))

pub bit_xor-eq_zero : (a b : ℕ) → (bit_xor a b ≡ 0) ↔ (a ≡ b)
bit_xor-eq_zero a b = (
  λ h. xor_digits_zero a a b (omega arith) (sym (bit_xor-bitwise a b) ∙ h),
  λ h. rw h (bit_xor-bitwise b b ∙ xor_digits_self b b (omega arith)),
)
