-- ===== src/Core/Crypto/Hex.antt =====
-- Hexadecimal tokens (core/crypto.ts): what `randomHex` prints.
use tetrac_login_sdk.Prelude.{
  ℕ, ◌*◌, ◌/◌, ◌%◌, ◌<◌, ◌≡◌, refl, true, List, [], ◌∷◌, length, all, All, arith,
}
use tetrac_login_sdk.Core.Crypto.{hex_digit, random_hex, is_hex}

abbrev pub IsByte : ℕ → Type 0
IsByte b = b < 256

hex_digit-is_hex : (d : ℕ) → d < 16 → is_hex (hex_digit d) ≡ true
unfolding hex_digit is_hex
hex_digit-is_hex d h = ground arith

-- A token of `randomHex` is made of hexadecimal digits, two for each byte.
pub random_hex-shape :
    (bytes : List ℕ)
    → All IsByte bytes
    → (all is_hex (random_hex bytes) ≡ true) × (length (random_hex bytes) ≡ 2 * length bytes)
unfolding random_hex
random_hex-shape [] h = (refl, omega arith)
random_hex-shape (b ∷ bytes) h =
    let rest : (all is_hex (random_hex bytes) ≡ true)
        × (length (random_hex bytes) ≡ 2 * length bytes) =
      random_hex-shape bytes h.1 in
    ground (arith, hex_digit-is_hex (b / 16) (omega arith), hex_digit-is_hex (b % 16) (omega arith))
