-- ===== src/Core/Crypto.antt =====
-- core/crypto.ts: the comparison of digests and the hexadecimal tokens. The hash functions, the
-- ciphers and the random number generator are platform code, and parameters where they are used.
pub mod TimingSafe
pub mod Hex
pub mod Base64
pub mod Secrets
use Prim.Native.Nat.{bit_or, bit_xor}
use tetrac_login_sdk.Prelude.{
  ℕ, zero, suc, ◌+◌, ◌/◌, ◌%◌, max, Bool, List, [], ◌∷◌, ◌++◌, Text, length, ◌==◌, ltb, leb, ◌&&◌,
  ◌||◌, if◌then◌else◌, Option, none, some, String,
}

-- `i < la ? a.charCodeAt(i) : 0`
unfoldable pub char_or_zero : Text → ℕ → ℕ
char_or_zero [] i = 0
char_or_zero (c ∷ cs) zero = c
char_or_zero (c ∷ cs) (suc i) = char_or_zero cs i

-- The loop of `timingSafeEqual`, with the rounds that are left.
fold_diff : Text → Text → ℕ → ℕ → ℕ → ℕ
fold_diff a b zero i diff = diff
fold_diff a b (suc rounds) i diff =
    fold_diff a b rounds (i + 1) (bit_or diff (bit_xor (char_or_zero a i) (char_or_zero b i)))

-- Code units are below 2^16 and lengths below 2^30, so that the program's 32-bit `^` and `|` are
-- those of the natural numbers.
unfoldable pub timing_safe_equal : Text → Text → Bool
unfolding fold_diff char_or_zero
timing_safe_equal a b =
    fold_diff a b (max (length a) (length b)) 0 (bit_xor (length a) (length b)) == 0

-- One digit of `toString(16)`.
unfoldable pub hex_digit : ℕ → ℕ
hex_digit d = if ltb d 10 then b'0' + d else 87 + d

-- `b.toString(16).padStart(2, "0")` at a byte `b`.
unfoldable pub byte_hex : ℕ → Text
unfolding hex_digit
byte_hex b = hex_digit (b / 16) ∷ hex_digit (b % 16) ∷ []

-- The loop of `randomHex`, over the bytes that the generator gave.
unfoldable pub random_hex : List ℕ → Text
unfolding byte_hex
random_hex [] = []
random_hex (b ∷ bytes) = byte_hex b ++ random_hex bytes

-- `[0-9a-fA-F]`
unfoldable pub is_hex : ℕ → Bool
is_hex c = (leb b'0' c && leb c b'9') || ((leb b'a' c && leb c b'f') || (leb b'A' c && leb c b'F'))

abbrev pub min_passkey_length : ℕ
min_passkey_length = 16

-- `checkPasskeyLength`: the message, or nothing.
unfoldable pub check_passkey_length : Text → Option String
check_passkey_length passkey =
    if ltb (length passkey) min_passkey_length
    then some
        "Passkey must be at least 16 characters. It encrypts your wallet and cannot be reset or recovered."
    else none
