-- ===== src/Client/Flows/Email.antt =====
-- client/authClient.ts: registration and login by email and passkey.
pub mod Sound
use tetrac_login_sdk.Prelude.{ℕ, codes, Option, none, some, Text, ok, err, String}
use tetrac_login_sdk.Core.Config.{pbkdf2_iterations}
use tetrac_login_sdk.Core.Types.{email, EncryptedWallet}
use tetrac_login_sdk.Core.Crypto.{check_passkey_length}
use tetrac_login_sdk.Core.Crypto.Secrets.{derive_app_key_from_passkey}
use tetrac_login_sdk.Client.Vault.{SessionParams}
use tetrac_login_sdk.Client.Wallets.{Bundle, flatten_bundle, decrypt_wallet_secret}
use tetrac_login_sdk.Client.AuthKey.{derive_auth_public_key, sign_auth_challenge, sign_identity}
use tetrac_login_sdk.Client.Flows.{
  weak_passkey, no_identity, no_message, no_keypair, Post, no_fields, AuthResult, Flow, Client,
  pure, or_throw, sealed, ◌>>=◌, identity_of, or_default, post_challenge, post_session,
  client_origin, new_bundle, open_session,
}

abbrev pub refuse_weak : {E : Type 0} → Option String → Flow E (Unit {0})
refuse_weak none pg = (ok tt, pg)
refuse_weak (some message) pg = (err (weak_passkey message), pg)

module _ {E : Type 0} (c : Client E) where
  -- The signature and the challenge.
  unfoldable pub prove_identity : EncryptedWallet → Text → Flow E (Text × Text)
  unfolding ◌>>=◌ post_challenge client_origin sign_identity decrypt_wallet_secret
  prove_identity identity app_key = do
    reply ← post_challenge c (record no_fields { public_key = some identity.public_key })
    secret ← sealed (decrypt_wallet_secret c.web_crypto identity app_key)
    secret_key ← or_throw no_keypair (c.secret_key secret)
    origin ← client_origin c
    signature ←
        or_throw no_message
          (sign_identity c.nacl c.platform reply.challenge origin identity.public_key secret_key)
    pure (signature, reply.challenge)

  abbrev pub email_key_of : Text → Text → Option ℕ → Text
  email_key_of passkey address iterations =
      derive_app_key_from_passkey c.web_crypto c.platform passkey address (or_default iterations)
        c.config.app_id

  abbrev pub email_session : Text → Text → Option ℕ → AuthResult → SessionParams
  email_session app_key address iterations result = record {
    public_key = result.public_key;
    auth_token = result.auth_token;
    app_key = app_key;
    email = some address;
    pbkdf2_iterations = iterations;
    offchain_envelope = none;
  }

  abbrev pub registration : Text → Text → Option ℕ → Bundle → EncryptedWallet → Text × Text → Post
  registration app_key address iterations bundle identity proof = record no_fields {
    public_key = some identity.public_key;
    email_address = some address;
    auth_public_key = some (derive_auth_public_key c.nacl app_key);
    auth_method = some email;
    wallets = some (flatten_bundle bundle);
    iterations = iterations;
    signature = some proof.0;
    challenge = some proof.1;
  }

  unfoldable pub register_with_email : Text → Text → Flow E AuthResult
  unfolding ◌>>=◌ check_passkey_length new_bundle identity_of prove_identity post_session
      open_session
  register_with_email address passkey =
      let iterations = some (pbkdf2_iterations c.config.security_level) in
      let app_key = email_key_of passkey address iterations in
      do
        _ ← refuse_weak (check_passkey_length passkey)
        bundle ← new_bundle c app_key c.wallet_gen
        identity ← or_throw no_identity (identity_of bundle)
        proof ← prove_identity identity app_key
        result ←
            post_session c (codes "register")
              (registration app_key address iterations bundle identity proof)
        _ ← open_session c (email_session app_key address iterations result)
        pure result

  abbrev pub login_post : Text → Text → Text → Post
  login_post address signature challenge = record no_fields {
    email_address = some address;
    signature = some signature;
    challenge = some challenge;
  }

  unfoldable pub login_with_email : Text → Text → Flow E AuthResult
  unfolding ◌>>=◌ post_challenge sign_auth_challenge post_session open_session
  login_with_email address passkey = do
    reply ← post_challenge c (record no_fields { email_address = some address })
    let app_key = email_key_of passkey address reply.pbkdf2_iterations in
        let signature = sign_auth_challenge c.nacl c.platform app_key reply.challenge in
        do
          result ← post_session c (codes "login") (login_post address signature reply.challenge)
          _ ← open_session c (email_session app_key address reply.pbkdf2_iterations result)
          pure result
