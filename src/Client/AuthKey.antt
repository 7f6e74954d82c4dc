-- ===== src/Client/AuthKey.antt =====
-- client/authKey.ts: the auth key pair that is derived from an app key, and the proof of an identity
-- key (`proveIdentity` of client/authClient.ts). ed25519 is a parameter.
pub mod Accepted
use tetrac_login_sdk.Prelude.{ℕ, List, ◌++◌, Option, some, Text, codes, then?}
use tetrac_login_sdk.Core.Platform.{Platform}
use tetrac_login_sdk.Core.Crypto.{random_hex}
use tetrac_login_sdk.Core.Messages.{auth_login_message, wallet_login_message}

-- tweetnacl and sha256, as the browser calls them.
pub record Signing : Type 0 where
  -- `sha256(utf8ToBytes(s))`
  pub sha256 : Text → List ℕ
  -- `nacl.sign.keyPair.fromSeed(seed).publicKey`, and a signature by its secret key
  pub seed_public : List ℕ → List ℕ
  pub seed_sign : List ℕ → List ℕ → List ℕ
  -- `nacl.sign.detached(message, secretKey)`
  pub sign_detached : List ℕ → List ℕ → List ℕ

module _ (nacl : Signing) where
  unfoldable pub auth_seed : Text → List ℕ
  auth_seed app_key = nacl.sha256 (codes "ttc-auth-v1:" ++ app_key)

  -- `bytesToHex`
  unfoldable pub derive_auth_public_key : Text → Text
  unfolding auth_seed random_hex
  derive_auth_public_key app_key = random_hex (nacl.seed_public (auth_seed app_key))

  unfoldable pub sign_auth_challenge : Platform → Text → Text → Text
  unfolding auth_seed random_hex auth_login_message
  sign_auth_challenge p app_key challenge =
      random_hex (nacl.seed_sign (auth_seed app_key) (p.utf8 (auth_login_message challenge)))

  -- The signature of `proveIdentity`, by the secret key of a wallet that was just generated.
  unfoldable pub sign_identity : Platform → Text → Text → Text → List ℕ → Option Text
  unfolding wallet_login_message random_hex
  sign_identity p challenge origin address secret_key =
      then? (wallet_login_message p challenge origin address)
        (λ message. some (random_hex (nacl.sign_detached (p.utf8 message) secret_key)))
