-- ===== src/Client/Flows/Reauth.antt =====
-- client/authClient.ts: re-authentication with a passkey or a wallet, to unlock or to reveal a secret.
-- The two ceremonies with an authenticator are left out.
pub mod Sound
use tetrac_login_sdk.Prelude.{Bool, Option, none, some, Text, ok, err, Result, if◌then◌else◌}
use tetrac_login_sdk.Core.Types.{EncryptedWallet}
use tetrac_login_sdk.Core.Crypto.{random_hex}
use tetrac_login_sdk.Core.Crypto.Secrets.{
  CipherError, derive_app_key_from_passkey, derive_app_key_from_signature,
}
use tetrac_login_sdk.Client.Vault.{
  Tab, usable, get_item, email_key, envelope_key, get_pbkdf2_iterations, arm_app_key,
}
use tetrac_login_sdk.Client.Wallets.{decrypt_wallet_secret}
use tetrac_login_sdk.Client.Flows.{
  no_email, wrong_credentials, Flow, Signer, Client, pure, or_throw, ◌>>=◌, or_default, pin_of,
  client_origin, sign_by, key_message,
}

pub data Credentials (E : Type 0) : Type 0 where
  passkey : Text → Credentials E
  -- The signer, and whether it is a hardware wallet.
  sign_message : Signer E → Bool → Credentials E

module _ {E : Type 0} (c : Client E) where
  -- What the tab holds.
  abbrev pub read_tab : {A : Type 0} → (Tab → A) → Flow E A
  read_tab f pg = (ok (f pg.tab), pg)

  abbrev pub session_email : Tab → Option Text
  session_email t = if usable (get_item email_key t) then get_item email_key t else none

  unfoldable pub derive_app_key : Credentials E → Flow E Text
  unfolding ◌>>=◌ get_pbkdf2_iterations client_origin
  derive_app_key (passkey secret) = do
    found ← read_tab session_email
    address ← or_throw no_email found
    iterations ← read_tab (get_pbkdf2_iterations c.parse_int)
    pure (
        derive_app_key_from_passkey c.web_crypto c.platform secret address (or_default iterations)
          c.config.app_id)
  derive_app_key (sign_message signer hardware) = do
    origin ← client_origin c
    pinned ← read_tab (get_item envelope_key)
    signed ←
        sign_by signer (c.platform.utf8 (key_message c hardware origin))
          (if hardware then pin_of pinned else none)
    pure (derive_app_key_from_signature c.platform (random_hex signed.0))

  -- A decryption whose error is that the credentials are wrong.
  abbrev pub opened : {A : Type 0} → Result CipherError A → Flow E A
  opened (ok a) pg = (ok a, pg)
  opened (err e) pg = (err wrong_credentials, pg)

  unfoldable pub validate : Option EncryptedWallet → Text → Flow E (Unit {0})
  unfolding ◌>>=◌ decrypt_wallet_secret
  validate none app_key = pure tt
  validate (some w) app_key = do _ ← opened (decrypt_wallet_secret c.web_crypto w app_key); pure tt

  abbrev pub arm : Text → Flow E (Unit {0})
  arm app_key pg = (ok tt, record pg { tab = arm_app_key app_key pg.tab })

  unfoldable pub unlock : Credentials E → Option EncryptedWallet → Flow E (Unit {0})
  unfolding ◌>>=◌ derive_app_key validate arm_app_key
  unlock creds validate_with = do
    app_key ← derive_app_key creds
    _ ← validate validate_with app_key
    arm app_key

  unfoldable pub reveal_secret : EncryptedWallet → Credentials E → Flow E Text
  unfolding ◌>>=◌ derive_app_key decrypt_wallet_secret
  reveal_secret w creds = do
    app_key ← derive_app_key creds
    opened (decrypt_wallet_secret c.web_crypto w app_key)
