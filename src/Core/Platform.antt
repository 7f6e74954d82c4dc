-- ===== src/Core/Platform.antt =====
-- The code that the program calls and does not hold: the JavaScript runtime's Unicode tables and
-- parsers, the hash functions, ed25519 and the Solana key codec. `none` is a thrown exception.
use tetrac_login_sdk.Prelude.{ℕ, Bool, List, Option, Text}

-- What the program reads of a parsed URL.
pub record Url : Type 0 where
  pub protocol : Text
  pub username : Text
  pub password : Text
  pub pathname : Text
  pub host : Text
  pub origin : Text

pub record Platform : Type 0 where
  -- `s.toLowerCase()`
  pub to_lower_case : Text → Text
  -- `bytesToHex(sha256(utf8ToBytes(s)))`
  pub sha256_hex : Text → Text
  -- `new TextEncoder().encode(s)`
  pub utf8 : Text → List ℕ
  -- `new TextDecoder("utf-8", { fatal: true }).decode(b)` does not throw
  pub is_utf8 : List ℕ → Bool
  -- `new URL(s)`
  pub parse_url : Text → Option Url
  -- `new PublicKey(s).toBytes()`
  pub public_key_bytes : Text → Option (List ℕ)
  -- `new PublicKey(bytes).toBase58()`
  pub to_base58 : List ℕ → Text
  -- `nacl.sign.detached.verify(message, signature, publicKey)`
  pub verify : List ℕ → List ℕ → List ℕ → Option Bool
  -- The bytes that `crypto.getRandomValues` puts in a 32-byte array, by the number of the draw.
  pub random_bytes : ℕ → List ℕ
  -- `String(n)` of a natural number
  pub number_text : ℕ → Text
