-- ===== src/Server/Routes/Register.antt =====
-- The `register` handler of server/routes.ts.
pub mod Sound
pub mod Faults
use tetrac_login_sdk.Prelude.{
  ℕ, Bool, true, false, not, ◌&&◌, ◌||◌, Option, none, some, List, [], Text, String, codes, is_some,
  if◌then◌else◌, Result, ok, err,
}
use tetrac_login_sdk.Core.Js.{Js, str, undefined, nullish, default_to, prop, truthy, to_text}
use tetrac_login_sdk.Core.Types.{UserData, AuthMethod, email, wallet, EncryptedWallet}
use tetrac_login_sdk.Core.Offchain.{OffchainEnvelope}
use tetrac_login_sdk.Effect.{Act, Fault, email_taken, pure, throw, ◌>>=◌}
use tetrac_login_sdk.Storage.Kv.{lift}
use tetrac_login_sdk.Server.Http.{Request, Response, error, read_json}
use tetrac_login_sdk.Server.Signature.{verify_solana_signature}
use tetrac_login_sdk.Server.Sessions.{consume_challenge}
use tetrac_login_sdk.Server.Validate.{
  validate_app_id, validate_public_key, validate_email, validate_auth_public_key, valid_iterations,
  valid_envelope, valid_auth_method,
}
use tetrac_login_sdk.Server.Validate.Wallets.{read_wallets}
use tetrac_login_sdk.Server.Routes.{
  Deployment, bucket, answer_or, with_input, refuse_or, text_of, app_id_of, rate_limited,
  account_creation_limited, bucket_id, body_of,
}
use tetrac_login_sdk.Server.Routes.Login.{sign_in}

pub record RegisterInput : Type 0 where
  pub app_id : Text
  pub key : Text
  pub email : Js
  pub auth_public_key : Js
  pub auth_method : Option AuthMethod
  pub wallets : List EncryptedWallet
  pub signature : Js
  pub challenge : Js
  pub pbkdf2_iterations : Option ℕ
  pub offchain_envelope : Option OffchainEnvelope

abbrev pub account_exists : Response
account_exists = error "Account already exists" 409

-- `v != null && !valid(v)` is the refusal.
abbrev pub optional : {A : Type 0} → String → Js → Option A → Option String
optional message v checked = if nullish v || is_some checked then none else some message

-- The wallets of a payload, none where it has no such field.
unfoldable pub optional_wallets : Js → Result Response (List EncryptedWallet)
optional_wallets undefined = ok []
optional_wallets v = elim (read_wallets v) [ err m ↦ err (error m 400) | ok ws ↦ ok ws ]

abbrev pub with_wallets :
    {I : Type 0}
    → Result Response (List EncryptedWallet)
    → (List EncryptedWallet → Result Response I)
    → Result Response I
with_wallets (err r) f = err r
with_wallets (ok ws) f = f ws

-- `body.authMethod !== "wallet"`, where the absence of a method is not "wallet".
abbrev pub is_wallet_method : Option AuthMethod → Bool
is_wallet_method (some wallet) = true
is_wallet_method _ = false

abbrev method_or_email : Option AuthMethod → AuthMethod
method_or_email none = email
method_or_email (some m) = m

-- `catch (e) { if (e instanceof EmailTakenError) return …; throw e; }`
abbrev pub settle : {S : Type 0} → Result Fault (Unit {0}) → Act S Response → Act S Response
settle (ok _) rest = rest
settle (err email_taken) rest = pure account_exists
settle (err e) rest = throw e

module _ {S : Type 0} (d : Deployment S) where
  unfoldable pub read_register : Js → Result Response RegisterInput
  unfolding optional_wallets
  read_register body =
      let key = prop "publicKey" body in
      let app_id = app_id_of d (prop "appId" body) in
      let address = prop "email" body in
      let auth_key = prop "authPublicKey" body in
      let iterations = prop "pbkdf2Iterations" body in
      let envelope = prop "offchainEnvelope" body in
      let method = prop "authMethod" body in
      if not (truthy key)
      then err (error "publicKey required" 400)
      else refuse_or (validate_app_id app_id d.config) (
          refuse_or (validate_public_key d.platform key) (
            refuse_or (if truthy address then validate_email address else none) (
              refuse_or (if truthy auth_key then validate_auth_public_key auth_key else none) (
                with_wallets (optional_wallets (prop "wallets" body)) (λ wallets.
                  refuse_or
                    (optional "Invalid pbkdf2Iterations" iterations (valid_iterations iterations))
                    (refuse_or
                      (optional "Invalid offchainEnvelope" envelope (valid_envelope envelope))
                      (refuse_or (optional "Invalid authMethod" method (valid_auth_method method)) (
                        ok (record {
                          app_id = text_of app_id;
                          key = text_of key;
                          email = address;
                          auth_public_key = auth_key;
                          auth_method = valid_auth_method method;
                          wallets = wallets;
                          signature = prop "signature" body;
                          challenge = prop "challenge" body;
                          pbkdf2_iterations = valid_iterations iterations;
                          offchain_envelope = valid_envelope envelope;
                        })))))))))

  -- A failure to prove possession is charged.
  unfoldable pub refuse_register : Request → RegisterInput → Text → String → Act S Response
  unfolding ◌>>=◌
  refuse_register req i identifier message = do
    limited ← rate_limited d req (some (bucket (codes "register") (some i.app_id) identifier))
    answer_or limited (pure (error message 401))

  abbrev pub new_user : RegisterInput → ℕ → UserData
  new_user i now = record {
    app_id = i.app_id;
    public_key = i.key;
    email = i.email;
    auth_public_key = i.auth_public_key;
    auth_method = method_or_email i.auth_method;
    wallets = i.wallets;
    created_at = now;
    pbkdf2_iterations = i.pbkdf2_iterations;
    offchain_envelope = i.offchain_envelope;
    auth_token_hash = none;
    auth_token = undefined;
  }

  -- The record is written, and a loser of the race for an address gets the answer of the check.
  unfoldable pub create_account : Request → UserData → ℕ → Act S Response
  unfolding sign_in
  create_account req user status w =
      let r = d.store.put_user user w in settle r.0 (sign_in d req user status) r.1

  unfoldable pub register_proved : Request → RegisterInput → Act S Response
  unfolding ◌>>=◌ create_account
  register_proved req i = do
    capped ← account_creation_limited d req
    answer_or capped (λ w. create_account req (new_user i w.now) 201 w)

  abbrev pub challenge_text : RegisterInput → Text
  challenge_text i = to_text d.platform.number_text i.challenge

  -- The proof of possession: verify before the challenge is consumed.
  unfoldable pub prove_register : Request → RegisterInput → Text → Act S Response
  unfolding ◌>>=◌ refuse_register register_proved
  prove_register req i identifier =
      if not (truthy i.signature) || not (truthy i.challenge)
      then pure (error "signature and challenge required" 400)
      else if not
          (verify_solana_signature d.platform i.key i.signature (challenge_text i) d.config.origin)
      then refuse_register req i identifier "Signature verification failed"
      else do
        consumed ← consume_challenge d.platform d.store i.app_id i.key (challenge_text i)
        if consumed
            then register_proved req i
            else refuse_register req i identifier "Invalid or expired challenge"

  abbrev pub holder_of : RegisterInput → Act S (Option Text)
  holder_of i =
      if truthy i.email
      then d.store.get_public_key_by_email i.app_id (text_of i.email)
      else pure none

  unfoldable pub register_with : Request → RegisterInput → Act S Response
  unfolding ◌>>=◌ prove_register
  register_with req i = do
    identifier ← lift (bucket_id d.platform (default_to i.email (str i.key)))
    user ← d.store.get_user i.app_id i.key
    if is_some user then pure account_exists else do
      holder ← holder_of i
      if is_some holder
          then pure account_exists
          else if not (is_wallet_method i.auth_method) && not (truthy i.auth_public_key)
          then pure (error "authPublicKey required for email/biometric registration" 400)
          else prove_register req i identifier

  unfoldable pub register : Request → Act S Response
  unfolding read_register register_with
  register req = with_input (read_register (body_of (read_json d.parser req))) (register_with req)
