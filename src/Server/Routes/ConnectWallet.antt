-- ===== src/Server/Routes/ConnectWallet.antt =====
-- The `connectWallet` handler of server/routes.ts: login or registration of a wallet in one request.
pub mod Sound
use tetrac_login_sdk.Prelude.{
  ℕ, Bool, true, false, not, ◌&&◌, ◌||◌, Option, none, some, List, [], ◌∷◌, Text, codes,
  if◌then◌else◌, Result, ok, err,
}
use tetrac_login_sdk.Core.Js.{Js, undefined, prop, truthy, to_text}
use tetrac_login_sdk.Core.Types.{UserData, wallet, EncryptedWallet}
use tetrac_login_sdk.Core.Offchain.{OffchainEnvelope}
use tetrac_login_sdk.Effect.{Act, pure, ◌>>=◌, ◌>>◌}
use tetrac_login_sdk.Server.Http.{Request, Response, error, read_json}
use tetrac_login_sdk.Server.Validate.{validate_app_id, validate_public_key, valid_envelope}
use tetrac_login_sdk.Server.Routes.{
  Deployment, answer_or, with_input, refuse_or, text_of, app_id_of, account_creation_limited,
  body_of,
}
use tetrac_login_sdk.Server.Routes.Login.{SignedInput, prove_key, refuse_attempt, sign_in}
use tetrac_login_sdk.Server.Routes.Register.{optional, optional_wallets, with_wallets}

pub record ConnectInput : Type 0 where
  pub signed : SignedInput
  pub wallets : List EncryptedWallet
  pub offchain_envelope : Option OffchainEnvelope

abbrev pub is_wallet_user : UserData → Bool
is_wallet_user user = elim user.auth_method [ wallet ↦ true | _ ↦ false ]

abbrev pub has_none : List EncryptedWallet → Bool
has_none [] = true
has_none (w ∷ ws) = false

module _ {S : Type 0} (d : Deployment S) where
  unfoldable pub read_connect : Js → Result Response ConnectInput
  read_connect body =
      let key = prop "publicKey" body in
      let signature = prop "signature" body in
      let challenge = prop "challenge" body in
      let app_id = app_id_of d (prop "appId" body) in
      let envelope = prop "offchainEnvelope" body in
      if not (truthy key) || (not (truthy signature) || not (truthy challenge))
      then err (error "publicKey, signature and challenge required" 400)
      else refuse_or (validate_app_id app_id d.config) (
          refuse_or (validate_public_key d.platform key) (
            refuse_or (optional "Invalid offchainEnvelope" envelope (valid_envelope envelope)) (
              with_wallets (optional_wallets (prop "wallets" body)) (λ wallets. ok (record {
                signed = record {
                  app_id = text_of app_id;
                  name = text_of key;
                  signature = signature;
                  challenge = to_text d.platform.number_text challenge;
                };
                wallets = wallets;
                offchain_envelope = valid_envelope envelope;
              })))))

  -- One slot-scoped write for each wallet.
  unfoldable pub put_slots : Text → Text → List EncryptedWallet → Act S (Unit {0})
  unfolding ◌>>◌
  put_slots app_id key [] = pure tt
  put_slots app_id key (w ∷ ws) = do d.store.put_wallet_slot app_id key w; put_slots app_id key ws

  abbrev new_wallet_user : ConnectInput → ℕ → UserData
  new_wallet_user i now = record {
    app_id = i.signed.app_id;
    public_key = i.signed.name;
    email = undefined;
    auth_public_key = undefined;
    auth_method = wallet;
    wallets = i.wallets;
    created_at = now;
    pbkdf2_iterations = none;
    offchain_envelope = i.offchain_envelope;
    auth_token_hash = none;
    auth_token = undefined;
  }

  unfoldable pub connect_new : Request → ConnectInput → Act S Response
  unfolding ◌>>=◌ ◌>>◌
  connect_new req i = do
    capped ← account_creation_limited d req
    answer_or capped (λ w.
        (do d.store.put_user (new_wallet_user i w.now); sign_in d req (new_wallet_user i w.now) 201)
          w)

  -- A record with no wallets yet gets those of the client; any other keeps its own.
  unfoldable pub connect_known : Request → ConnectInput → UserData → Act S Response
  unfolding ◌>>◌ put_slots
  connect_known req i user =
      if not (is_wallet_user user)
      then pure (error "Invalid credentials" 401)
      else if has_none user.wallets && not (has_none i.wallets)
      then (do
        put_slots user.app_id user.public_key i.wallets
        sign_in d req (record user { wallets = i.wallets }) 200)
      else sign_in d req user 200

  unfoldable pub connect_with : Request → ConnectInput → Act S Response
  unfolding ◌>>=◌ connect_new connect_known
  connect_with req i = do
    proved ← prove_key d i.signed
    if not proved then refuse_attempt d req (codes "connect") i.signed.app_id i.signed.name else do
      user ← d.store.get_user i.signed.app_id i.signed.name
      elim user [ none ↦ connect_new req i | some u ↦ connect_known req i u ]

  unfoldable pub connect_wallet : Request → Act S Response
  unfolding read_connect connect_with
  connect_wallet req =
      with_input (read_connect (body_of (read_json d.parser req))) (connect_with req)
