-- ===== src/Server/Signature/HexBytes.antt =====
-- `hexToBytes` (server/signature.ts) after `randomHex` (core/crypto.ts).
use tetrac_login_sdk.Prelude.{
  ℕ, ◌/◌, ◌%◌, ◌<◌, ◌≡◌, refl, false, List, [], ◌∷◌, some, All, arith, ◌==◌,
}
use tetrac_login_sdk.Core.Crypto.{hex_digit, byte_hex, random_hex}
use tetrac_login_sdk.Core.Crypto.Hex.{IsByte, random_hex-shape}
use tetrac_login_sdk.Server.Signature.{hex_value, parse_pairs, strip_0x, hex_to_bytes}

hex_value-hex_digit : (d : ℕ) → d < 16 → hex_value (hex_digit d) ≡ d
unfolding hex_value hex_digit
hex_value-hex_digit d h = ground arith

parse_pairs-random_hex :
    (bytes : List ℕ) → All IsByte bytes → parse_pairs (random_hex bytes) ≡ bytes
unfolding parse_pairs random_hex byte_hex
parse_pairs-random_hex [] h = refl
parse_pairs-random_hex (b ∷ bytes) h = ground (
  arith,
  parse_pairs-random_hex bytes h.1,
  hex_value-hex_digit (b / 16) (omega arith),
  hex_value-hex_digit (b % 16) (omega arith),
)

not_0x : (d : ℕ) → d < 16 → (hex_digit d == b'x') ≡ false
unfolding hex_digit
not_0x d h = ground arith

-- A token never starts with "0x".
strip_0x-random_hex :
    (bytes : List ℕ) → All IsByte bytes → strip_0x (random_hex bytes) ≡ random_hex bytes
unfolding strip_0x random_hex byte_hex
strip_0x-random_hex [] h = refl
strip_0x-random_hex (b ∷ bytes) h = ground (arith, not_0x (b % 16) (omega arith))

-- Every byte string is read back from its hexadecimal text.
pub hex_to_bytes-random_hex :
    (bytes : List ℕ) → All IsByte bytes → hex_to_bytes (random_hex bytes) ≡ some bytes
unfolding hex_to_bytes
hex_to_bytes-random_hex bytes h =
    let shape = random_hex-shape bytes h in
    rw (strip_0x-random_hex bytes h)
      (ground (arith, shape.0, shape.1, parse_pairs-random_hex bytes h))
