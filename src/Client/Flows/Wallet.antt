-- ===== src/Client/Flows/Wallet.antt =====
-- client/authClient.ts: login, connection and registration of a wallet.
pub mod Sound
use tetrac_login_sdk.Prelude.{Bool, Option, none, some, Text, codes, if◌then◌else◌}
use tetrac_login_sdk.Core.Types.{wallet, AuthMethod}
use tetrac_login_sdk.Core.Crypto.{random_hex}
use tetrac_login_sdk.Core.Crypto.Secrets.{derive_app_key_from_signature}
use tetrac_login_sdk.Core.Messages.{wallet_login_message}
use tetrac_login_sdk.Client.Vault.{SessionParams}
use tetrac_login_sdk.Client.Wallets.{Bundle, flatten_bundle, web3_wallet_gen}
use tetrac_login_sdk.Client.Flows.{
  no_message, Post, no_fields, AuthResult, Flow, Signer, Client, Handshake, pure, or_throw, ◌>>=◌,
  used_of, post_challenge, post_session, client_origin, sign_by, new_bundle, open_session,
  key_message,
}

module _ {E : Type 0} (c : Client E) where
  -- Only the key signature of a hardware wallet has options.
  unfoldable pub wallet_handshake : Text → Signer E → Bool → Flow E Handshake
  unfolding ◌>>=◌ post_challenge client_origin wallet_login_message
  wallet_handshake public_key signer hardware = do
    reply ← post_challenge c (record no_fields { public_key = some public_key })
    origin ← client_origin c
    message ←
        or_throw no_message (wallet_login_message c.platform reply.challenge origin public_key)
    auth ← sign_by signer (c.platform.utf8 message) none
    key_origin ← client_origin c
    key ←
        sign_by signer (c.platform.utf8 (key_message c hardware key_origin))
          (if hardware then some reply.offchain_envelope else none)
    pure (record {
      app_key = derive_app_key_from_signature c.platform (random_hex key.0);
      signature = random_hex auth.0;
      challenge = reply.challenge;
      envelope = if hardware then used_of reply.offchain_envelope key.1 else none;
    })

  abbrev pub wallet_session : Handshake → AuthResult → SessionParams
  wallet_session h result = record {
    public_key = result.public_key;
    auth_token = result.auth_token;
    app_key = h.app_key;
    email = none;
    pbkdf2_iterations = none;
    offchain_envelope = h.envelope;
  }

  abbrev pub signed_post : Text → Handshake → Post
  signed_post public_key h = record no_fields {
    public_key = some public_key;
    signature = some h.signature;
    challenge = some h.challenge;
  }

  unfoldable pub finish_wallet : Text → Handshake → Post → Flow E AuthResult
  unfolding ◌>>=◌ post_session open_session
  finish_wallet path h body = do
    result ← post_session c path body
    _ ← open_session c (wallet_session h result)
    pure result

  unfoldable pub login_with_wallet : Text → Signer E → Bool → Flow E AuthResult
  unfolding ◌>>=◌ wallet_handshake finish_wallet
  login_with_wallet public_key signer hardware = do
    h ← wallet_handshake public_key signer hardware
    finish_wallet (codes "login-wallet") h (signed_post public_key h)

  abbrev pub wallets_post : Text → Option AuthMethod → Handshake → Bundle → Post
  wallets_post public_key method h bundle = record (signed_post public_key h) {
    auth_method = method;
    wallets = some (flatten_bundle bundle);
    envelope = h.envelope;
  }

  -- `connectWallet` and `registerWithWallet` differ in the path and in the method that is sent.
  unfoldable pub enter_with_wallet :
      Text → Option AuthMethod → Text → Signer E → Bool → Flow E AuthResult
  unfolding ◌>>=◌ wallet_handshake new_bundle web3_wallet_gen finish_wallet
  enter_with_wallet path method public_key signer hardware = do
    h ← wallet_handshake public_key signer hardware
    bundle ← new_bundle c h.app_key (web3_wallet_gen c.wallet_gen)
    finish_wallet path h (wallets_post public_key method h bundle)

  unfoldable pub connect_wallet : Text → Signer E → Bool → Flow E AuthResult
  unfolding enter_with_wallet
  connect_wallet = enter_with_wallet (codes "connect-wallet") none

  unfoldable pub register_with_wallet : Text → Signer E → Bool → Flow E AuthResult
  unfolding enter_with_wallet
  register_with_wallet = enter_with_wallet (codes "register") (some wallet)
