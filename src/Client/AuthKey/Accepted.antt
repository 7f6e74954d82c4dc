-- ===== src/Client/AuthKey/Accepted.antt =====
-- What the browser signs (client/authKey.ts), at the server that verifies it (server/signature.ts).
use tetrac_login_sdk.Prelude.{
  ℕ, ◌≡◌, refl, subst, arith, true, List, Option, none, some, Text, All, then?,
}
use tetrac_login_sdk.Core.Platform.{Platform}
use tetrac_login_sdk.Core.Js.{str}
use tetrac_login_sdk.Core.Crypto.{random_hex}
use tetrac_login_sdk.Core.Crypto.Hex.{IsByte}
use tetrac_login_sdk.Core.Messages.{auth_login_message, wallet_login_message}
use tetrac_login_sdk.Server.Signature.{
  signature_bytes, verify_message, verify_auth_signature, verify_solana_signature,
}
use tetrac_login_sdk.Server.Signature.HexBytes.{hex_to_bytes-random_hex}
use tetrac_login_sdk.Client.AuthKey.{
  Signing, auth_seed, derive_auth_public_key, sign_auth_challenge, sign_identity,
}

module _ (p : Platform) (nacl : Signing) where
  -- What ed25519 is documented to do: keys and signatures are bytes, and a signature verifies under
  -- the public key of its seed.
  pub record SeedsVerify : Type 0 where
    pub public_bytes : (seed : List ℕ) → All IsByte (nacl.seed_public seed)
    pub signature_bytes : (seed m : List ℕ) → All IsByte (nacl.seed_sign seed m)
    pub verifies :
        (seed m : List ℕ) → p.verify m (nacl.seed_sign seed m) (nacl.seed_public seed) ≡ some true

  -- A challenge that is signed with the key derived from an app key is accepted by the server under
  -- the public key derived from the same app key, which is all that it stores of it.
  pub sign_auth_challenge-verifies :
      SeedsVerify
      → (app_key challenge : Text)
      → verify_auth_signature p
          (derive_auth_public_key nacl app_key)
          (str (sign_auth_challenge nacl p app_key challenge))
          challenge
        ≡ true
  unfolding verify_auth_signature derive_auth_public_key sign_auth_challenge signature_bytes
  sign_auth_challenge-verifies laws app_key challenge =
      let seed = auth_seed nacl app_key in
      let m = p.utf8 (auth_login_message challenge) in
      rw
        (
          hex_to_bytes-random_hex (nacl.seed_sign seed m) (laws.signature_bytes seed m),
          hex_to_bytes-random_hex (nacl.seed_public seed) (laws.public_bytes seed),
          laws.verifies seed m,
        )
        refl

  -- A signature of a wallet's secret key over the login message is accepted by the server for the
  -- wallet's address, where the signature is of bytes and verifies under that address's key.
  sign_identity-verifies :
      (challenge origin address : Text) (secret_key key : List ℕ) (signature : Text)
      → p.public_key_bytes address ≡ some key
      → ((m : List ℕ) → All IsByte (nacl.sign_detached m secret_key))
      → ((m : List ℕ) → p.verify m (nacl.sign_detached m secret_key) key ≡ some true)
      → sign_identity nacl p challenge origin address secret_key ≡ some signature
      → verify_solana_signature p address (str signature) challenge origin ≡ true
  unfolding verify_solana_signature sign_identity signature_bytes verify_message
  sign_identity-verifies challenge origin address secret_key key signature is_key bytes verifies h =
      by_message (wallet_login_message p challenge origin address) refl h
    where
      by_message :
          (o : Option Text)
          → wallet_login_message p challenge origin address ≡ o
          → then? o (λ message. some (random_hex (nacl.sign_detached (p.utf8 message) secret_key)))
            ≡ some signature
          → verify_solana_signature p address (str signature) challenge origin ≡ true
      by_message none e k = absurd (ground arith)
      by_message (some message) e k =
          let m = p.utf8 message in
          let same : random_hex (nacl.sign_detached m secret_key) ≡ signature = cc in
          subst (λ s. verify_solana_signature p address (str s) challenge origin ≡ true) same
            (rw
              (
                e,
                hex_to_bytes-random_hex (nacl.sign_detached m secret_key) (bytes m),
                is_key,
                verifies m,
              )
              refl)
