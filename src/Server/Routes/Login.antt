-- ===== src/Server/Routes/Login.antt =====
-- The `login` and `loginWallet` handlers of server/routes.ts.
pub mod Sound
pub mod Wallet
use tetrac_login_sdk.Prelude.{
  ℕ, Bool, true, false, not, ◌&&◌, ◌||◌, Option, none, some, Text, codes, if◌then◌else◌, Result, ok,
  err,
}
use tetrac_login_sdk.Core.Js.{Js, str, prop, truthy, to_text}
use tetrac_login_sdk.Core.Types.{UserData}
use tetrac_login_sdk.Effect.{Act, pure, ◌>>=◌}
use tetrac_login_sdk.Storage.Kv.{lift}
use tetrac_login_sdk.Server.Http.{Request, Response, json, error, read_json}
use tetrac_login_sdk.Server.Signature.{verify_solana_signature, verify_auth_signature}
use tetrac_login_sdk.Server.Sessions.{consume_challenge, issue_session}
use tetrac_login_sdk.Server.Validate.{validate_app_id, validate_public_key, validate_email}
use tetrac_login_sdk.Server.Routes.{
  Deployment, bucket, answer_or, with_input, refuse_or, text_of, app_id_of, rate_limited, bucket_id,
  body_of, as_result, issue_fingerprint,
}

-- A request that presents a signature over a challenge, by an address or by a key.
pub record SignedInput : Type 0 where
  pub app_id : Text
  pub name : Text
  pub signature : Js
  pub challenge : Text

module _ {S : Type 0} (d : Deployment S) where
  unfoldable pub read_login : Js → Result Response SignedInput
  read_login body =
      let email = prop "email" body in
      let signature = prop "signature" body in
      let challenge = prop "challenge" body in
      let app_id = app_id_of d (prop "appId" body) in
      if not (truthy email) || (not (truthy signature) || not (truthy challenge))
      then err (error "email, signature and challenge required" 400)
      else refuse_or (validate_app_id app_id d.config) (
          refuse_or (validate_email email) (
            ok (record {
              app_id = text_of app_id;
              name = text_of email;
              signature = signature;
              challenge = to_text d.platform.number_text challenge;
            })))

  abbrev find_user : Text → Option Text → Act S (Option UserData)
  find_user app_id none = pure none
  find_user app_id (some key) = d.store.get_user app_id key

  -- `!!user?.authPublicKey && verifyAuthSignature(…)`
  unfoldable pub auth_signature_valid : Option UserData → Js → Text → Bool
  auth_signature_valid none signature challenge = false
  auth_signature_valid (some user) signature challenge =
      truthy user.auth_public_key
      && verify_auth_signature d.platform (text_of user.auth_public_key) signature challenge

  unfoldable pub consume_if : Bool → Text → Option Text → Text → Act S Bool
  consume_if false app_id key challenge = pure false
  consume_if true app_id none challenge = pure false
  consume_if true app_id (some key) challenge =
      consume_challenge d.platform d.store app_id key challenge

  unfoldable pub sign_in : Request → UserData → ℕ → Act S Response
  unfolding ◌>>=◌
  sign_in req user status = do
    token ← issue_session d.platform d.store user d.config (issue_fingerprint d req)
    pure (json (as_result user token) status)

  -- A failed attempt is charged, and only that.
  unfoldable pub refuse_attempt : Request → Text → Text → Text → Act S Response
  unfolding ◌>>=◌
  refuse_attempt req endpoint app_id identifier = do
    limited ← rate_limited d req (some (bucket endpoint (some app_id) identifier))
    answer_or limited (pure (error "Invalid credentials" 401))

  -- The response to an attempt of a user whose signature and challenge were checked.
  unfoldable pub finish_login : Request → SignedInput → Option UserData → Bool → Act S Response
  unfolding ◌>>=◌ refuse_attempt
  finish_login req i (some user) true = sign_in req user 200
  finish_login req i user consumed = do
    identifier ← lift (bucket_id d.platform (str i.name))
    refuse_attempt req (codes "login") i.app_id identifier

  unfoldable pub login_with : Request → SignedInput → Act S Response
  unfolding ◌>>=◌ auth_signature_valid consume_if finish_login
  login_with req i = do
    key ← d.store.get_public_key_by_email i.app_id i.name
    user ← find_user i.app_id key
    consumed ←
        consume_if (auth_signature_valid user i.signature i.challenge) i.app_id key i.challenge
    finish_login req i user consumed

  unfoldable pub login : Request → Act S Response
  unfolding read_login login_with
  login req = with_input (read_login (body_of (read_json d.parser req))) (login_with req)

  unfoldable pub read_wallet_login : Js → Result Response SignedInput
  read_wallet_login body =
      let key = prop "publicKey" body in
      let signature = prop "signature" body in
      let challenge = prop "challenge" body in
      let app_id = app_id_of d (prop "appId" body) in
      if not (truthy key) || (not (truthy signature) || not (truthy challenge))
      then err (error "publicKey, signature and challenge required" 400)
      else refuse_or (validate_app_id app_id d.config) (
          refuse_or (validate_public_key d.platform key) (
            ok (record {
              app_id = text_of app_id;
              name = text_of key;
              signature = signature;
              challenge = to_text d.platform.number_text challenge;
            })))

  -- Verify first, then consume: a forged signature never reaches the challenge.
  unfoldable pub prove_key : SignedInput → Act S Bool
  prove_key i =
      if verify_solana_signature d.platform i.name i.signature i.challenge d.config.origin
      then consume_challenge d.platform d.store i.app_id i.name i.challenge
      else pure false

  unfoldable pub login_wallet_with : Request → SignedInput → Act S Response
  unfolding ◌>>=◌ prove_key refuse_attempt sign_in
  login_wallet_with req i = do
    proved ← prove_key i
    if not proved then refuse_attempt req (codes "login") i.app_id i.name else do
      user ← d.store.get_user i.app_id i.name
      elim user [ none ↦ pure (error "Wallet not registered" 422) | some u ↦ sign_in req u 200 ]

  unfoldable pub login_wallet : Request → Act S Response
  unfolding read_wallet_login login_wallet_with
  login_wallet req =
      with_input (read_wallet_login (body_of (read_json d.parser req))) (login_wallet_with req)
