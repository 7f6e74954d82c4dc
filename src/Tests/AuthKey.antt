-- ===== src/Tests/AuthKey.antt =====
-- The theorems on what the browser signs (client/authKey.ts) at concrete inputs.
use tetrac_login_sdk.Prelude.{
  ℕ, ◌%◌, ◌≡◌, true, some, List, [], ◌∷◌, Text, codes, All, length, arith, text_eq,
}
use tetrac_login_sdk.Core.Platform.{Platform}
use tetrac_login_sdk.Core.Crypto.Hex.{IsByte}
use tetrac_login_sdk.Client.AuthKey.{Signing}
use tetrac_login_sdk.Client.AuthKey.Accepted.{SeedsVerify}
use tetrac_login_sdk.Tests.Setup.{platform}

-- A signature is the size of what was signed, and holds under any key.
abbrev pub mark : List ℕ → List ℕ
mark m = length m % 256 ∷ []

mark-IsByte : (m : List ℕ) → All IsByte (mark m)
mark-IsByte m = (omega arith, tt)

abbrev pub signing : Signing
signing = record {
  sha256 = λ s. s;
  seed_public = λ s. length s % 256 ∷ [];
  seed_sign = λ s m. mark m;
  sign_detached = λ m s. mark m;
}

abbrev pub chain : Platform
chain = record platform { verify = λ m s k. some (text_eq s (mark m)) }

chain-verifies : (m : List ℕ) → some (text_eq (mark m) (mark m)) ≡ some true
unfolding text_eq
chain-verifies m = ground arith

pub seeds : SeedsVerify chain signing
seeds = record {
  public_bytes = λ s. (omega arith, tt);
  signature_bytes = λ s m. mark-IsByte m;
  verifies = λ s m. chain-verifies m;
}

abbrev signed : Text
signed = codes "2a"
