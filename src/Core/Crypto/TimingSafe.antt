-- ===== src/Core/Crypto/TimingSafe.antt =====
-- `timingSafeEqual` (core/crypto.ts) against equality of strings.
use Prim.Native.Nat.{bit_or, bit_xor}
use mathlib.Core.Path.{ap₂}
use native.Mathlib.Decide.{dec_le}
use tetrac_login_sdk.Prelude.{
  ℕ, zero, suc, ◌+◌, ◌≤◌, ◌<◌, max, ◌≡◌, refl, ◌↔◌, true, [], ◌∷◌, Text, length, ==_iff, arith,
}
use tetrac_login_sdk.Prelude.Bits.{bit_or-eq_zero, bit_xor-eq_zero}
use tetrac_login_sdk.Core.Crypto.{char_or_zero, fold_diff, timing_safe_equal}

-- Two texts agree on the positions of `rounds` rounds from `i` on.
abbrev AgreeFrom : Text → Text → ℕ → ℕ → Type 0
AgreeFrom a b rounds i = (j : ℕ) → i ≤ j → j < i + rounds → char_or_zero a j ≡ char_or_zero b j

abbrev diff_at : Text → Text → ℕ → ℕ
diff_at a b i = bit_xor (char_or_zero a i) (char_or_zero b i)

agree_step :
    (a b : Text) (rounds i : ℕ)
    → char_or_zero a i ≡ char_or_zero b i
    → AgreeFrom a b rounds (i + 1)
    → AgreeFrom a b (suc rounds) i
agree_step a b rounds i here rest j p q = elim (dec_le (i + 1) j) [
  | yes later ↦ rest j later (omega arith)
  | no first ↦ let e : j ≡ i = omega arith in rw e here
]

fold_diff_sound :
    (a b : Text) (rounds i diff : ℕ)
    → fold_diff a b rounds i diff ≡ 0
    → (diff ≡ 0) × AgreeFrom a b rounds i
unfolding fold_diff
fold_diff_sound a b zero i diff h = (h, λ j p q. absurd (omega arith))
fold_diff_sound a b (suc rounds) i diff h =
    let rest : (bit_or diff (diff_at a b i) ≡ 0) × AgreeFrom a b rounds (i + 1) =
      fold_diff_sound a b rounds (i + 1) (bit_or diff (diff_at a b i)) h in
    let parts : (diff ≡ 0) × (diff_at a b i ≡ 0) = (bit_or-eq_zero diff (diff_at a b i)).0 rest.0 in
    (parts.0, agree_step a b rounds i ((bit_xor-eq_zero _ _).0 parts.1) rest.1)

fold_diff_self : (a : Text) (rounds i : ℕ) → fold_diff a a rounds i 0 ≡ 0
unfolding fold_diff
fold_diff_self a zero i = refl
fold_diff_self a (suc rounds) i =
    let same : diff_at a a i ≡ 0 = (bit_xor-eq_zero (char_or_zero a i) (char_or_zero a i)).1 refl in
    rw ((bit_or-eq_zero 0 (diff_at a a i)).1 (refl, same)) (fold_diff_self a rounds (i + 1))

agree→eq :
    (a b : Text)
    → length a ≡ length b
    → ((j : ℕ) → j < length a → char_or_zero a j ≡ char_or_zero b j)
    → a ≡ b
unfolding char_or_zero
agree→eq [] [] e h = refl
agree→eq [] (d ∷ b) e h = absurd (omega arith)
agree→eq (c ∷ a) [] e h = absurd (omega arith)
agree→eq (c ∷ a) (d ∷ b) e h =
    ap₂ (λ x xs. x ∷ xs) (h 0 (omega arith))
      (agree→eq a b (omega arith) (λ j p. h (suc j) (omega arith)))

timing_safe_equal→eq : (a b : Text) → timing_safe_equal a b ≡ true → a ≡ b
unfolding timing_safe_equal
timing_safe_equal→eq a b h =
    let sound : (bit_xor (length a) (length b) ≡ 0) × AgreeFrom a b (max (length a) (length b)) 0 =
      fold_diff_sound a b (max (length a) (length b)) 0 (bit_xor (length a) (length b))
        ((==_iff _ 0).0 h) in
    agree→eq a b ((bit_xor-eq_zero (length a) (length b)).0 sound.0)
      (λ j p. sound.1 j (omega arith) (omega arith))

timing_safe_equal_self : (a : Text) → timing_safe_equal a a ≡ true
unfolding timing_safe_equal
timing_safe_equal_self a =
    rw ((bit_xor-eq_zero (length a) (length a)).1 refl)
      ((==_iff _ 0).1 (fold_diff_self a (max (length a) (length a)) 0))

-- `timingSafeEqual` answers true exactly on equal strings, whatever their lengths.
pub timing_safe_equal_iff : (a b : Text) → (timing_safe_equal a b ≡ true) ↔ (a ≡ b)
timing_safe_equal_iff a b = (timing_safe_equal→eq a b, λ e. rw e (timing_safe_equal_self b))
