-- ===== src/Tests/Handlers.antt =====
-- The handlers' theorems at requests that succeed.
use tetrac_login_sdk.Prelude.{
  ℕ, ◌≡◌, refl, Text, codes, ok, err, Result, Option, some, none, arith, true, false, [],
}
use tetrac_login_sdk.Effect.{World, Fault, type_error}
use tetrac_login_sdk.Core.Types.{UserData}
use tetrac_login_sdk.Core.Js.{bool, undefined, str, nullish}
use tetrac_login_sdk.Storage.Memory.{Memory}
use tetrac_login_sdk.Server.Http.{Response, error, json, user_record}
use tetrac_login_sdk.Server.Routes.{Deployment, header_app_id}
use tetrac_login_sdk.Server.Routes.Login.{login_wallet}
use tetrac_login_sdk.Server.Routes.Login.Wallet.{WalletEvidence, login_wallet_sound}
use tetrac_login_sdk.Server.Routes.ConnectWallet.{connect_wallet}
use tetrac_login_sdk.Server.Routes.ConnectWallet.Sound.{ConnectEvidence, connect_wallet_sound}
use tetrac_login_sdk.Server.Routes.Register.{register, read_register, RegisterInput}
use tetrac_login_sdk.Server.Routes.Register.Sound.{RegisterEvidence, register_sound}
use tetrac_login_sdk.Server.Routes.Register.Faults.{register-type_error}
use tetrac_login_sdk.Server.Routes.Account.{user_data}
use tetrac_login_sdk.Server.Routes.Account.Sound.{Authenticated, user_data_sound}
use tetrac_login_sdk.Server.Sessions.{verify_session}
use tetrac_login_sdk.Server.Sessions.Sound.{SessionEvidence, verify_session_sound}
use tetrac_login_sdk.Tests.Setup.{
  deployment, platform, request, key, with_alice, with_challenge, wallet_body, register_body,
  falsy_email_body, session_request, signed_in_alice, alice,
}

abbrev answer_of : Result Fault Response → Response
answer_of (ok r) = r
answer_of (err e) = error "" 500

abbrev wallet_run : Result Fault Response × World Memory
wallet_run = login_wallet (deployment wallet_body) request with_alice

login_wallet_sound_example :
    WalletEvidence Memory
      (deployment wallet_body)
      request
      with_alice
      (answer_of wallet_run.0)
      wallet_run.1
unfolding login_wallet tetrac_login_sdk.Core.Js.truthy tetrac_login_sdk.Core.Js.prop
    tetrac_login_sdk.Server.Http.read_json tetrac_login_sdk.Server.Validate.validate_app_id
    tetrac_login_sdk.Core.Js.default_to tetrac_login_sdk.Prelude.text_eq
    tetrac_login_sdk.Storage.Map.lookup tetrac_login_sdk.Storage.Kv.get_user
    tetrac_login_sdk.Storage.Memory.hgetall tetrac_login_sdk.Storage.Keys.app_scoped
    tetrac_login_sdk.Storage.Kv.is_wallet_field tetrac_login_sdk.Core.Crypto.is_hex
    tetrac_login_sdk.Prelude.lacks tetrac_login_sdk.Server.Sessions.consume_challenge
    tetrac_login_sdk.Server.Sessions.is_hex64 tetrac_login_sdk.Server.Sessions.issue_session
    tetrac_login_sdk.Core.Js.to_text tetrac_login_sdk.Storage.Kv.take_challenge
    tetrac_login_sdk.Storage.Memory.getdel tetrac_login_sdk.Storage.Kv.put_session
    tetrac_login_sdk.Storage.Memory.set tetrac_login_sdk.Storage.Kv.set_session_pointer
    tetrac_login_sdk.Storage.Memory.hset tetrac_login_sdk.Server.Validate.validate_public_key
    tetrac_login_sdk.Server.Signature.verify_solana_signature
    tetrac_login_sdk.Core.Messages.wallet_login_message tetrac_login_sdk.Core.Config.parse_origin
    tetrac_login_sdk.Core.Messages.is_siws_address tetrac_login_sdk.Core.Messages.is_siws_nonce
    tetrac_login_sdk.Tests.Setup.parse_site
login_wallet_sound_example =
    login_wallet_sound (deployment wallet_body) request with_alice refl refl

abbrev connect_run : Result Fault Response × World Memory
connect_run = connect_wallet (deployment wallet_body) request with_challenge

connect_wallet_sound_example :
    ConnectEvidence Memory
      (deployment wallet_body)
      request
      with_challenge
      (answer_of connect_run.0)
      connect_run.1
unfolding connect_wallet tetrac_login_sdk.Core.Js.truthy tetrac_login_sdk.Core.Js.prop
    tetrac_login_sdk.Server.Http.read_json tetrac_login_sdk.Server.Validate.validate_app_id
    tetrac_login_sdk.Core.Js.default_to tetrac_login_sdk.Prelude.text_eq
    tetrac_login_sdk.Storage.Map.lookup tetrac_login_sdk.Storage.Kv.get_user
    tetrac_login_sdk.Storage.Memory.hgetall tetrac_login_sdk.Storage.Keys.app_scoped
    tetrac_login_sdk.Core.Crypto.is_hex tetrac_login_sdk.Prelude.lacks
    tetrac_login_sdk.Server.Sessions.consume_challenge tetrac_login_sdk.Server.Sessions.is_hex64
    tetrac_login_sdk.Server.Sessions.issue_session tetrac_login_sdk.Core.Js.to_text
    tetrac_login_sdk.Storage.Kv.take_challenge tetrac_login_sdk.Storage.Memory.getdel
    tetrac_login_sdk.Storage.Kv.put_session tetrac_login_sdk.Storage.Memory.set
    tetrac_login_sdk.Storage.Kv.set_session_pointer tetrac_login_sdk.Storage.Memory.hset
    tetrac_login_sdk.Server.Validate.validate_public_key tetrac_login_sdk.Core.Js.nullish
    tetrac_login_sdk.Server.Routes.Register.optional_wallets
    tetrac_login_sdk.Server.Routes.Login.login_wallet_with
    tetrac_login_sdk.Server.Signature.verify_solana_signature
    tetrac_login_sdk.Core.Messages.wallet_login_message tetrac_login_sdk.Core.Config.parse_origin
    tetrac_login_sdk.Core.Messages.is_siws_address tetrac_login_sdk.Core.Messages.is_siws_nonce
    tetrac_login_sdk.Tests.Setup.parse_site tetrac_login_sdk.Server.Routes.account_creation_limited
    tetrac_login_sdk.Server.Sessions.check_rate_limit tetrac_login_sdk.Storage.Kv.hit_rate_limit
    tetrac_login_sdk.Storage.Kv.rate_limit_key tetrac_login_sdk.Storage.Memory.incr
    tetrac_login_sdk.Storage.Memory.expire tetrac_login_sdk.Storage.Map.insert
    tetrac_login_sdk.Storage.Map.remove tetrac_login_sdk.Storage.Kv.put_user
connect_wallet_sound_example =
    connect_wallet_sound (deployment wallet_body) request with_challenge refl (omega arith)

abbrev register_run : Result Fault Response × World Memory
register_run = register (deployment register_body) request with_challenge

register_sound_example :
    RegisterEvidence Memory
      (deployment register_body)
      request
      with_challenge
      (answer_of register_run.0)
      register_run.1
unfolding register tetrac_login_sdk.Core.Js.truthy tetrac_login_sdk.Core.Js.prop
    tetrac_login_sdk.Server.Http.read_json tetrac_login_sdk.Server.Validate.validate_app_id
    tetrac_login_sdk.Core.Js.default_to tetrac_login_sdk.Server.Validate.validate_email
    tetrac_login_sdk.Prelude.text_eq tetrac_login_sdk.Storage.Kv.get_public_key_by_email
    tetrac_login_sdk.Storage.Memory.hget tetrac_login_sdk.Storage.Map.lookup
    tetrac_login_sdk.Storage.Kv.get_user tetrac_login_sdk.Storage.Memory.hgetall
    tetrac_login_sdk.Storage.Keys.app_scoped tetrac_login_sdk.Core.Crypto.is_hex
    tetrac_login_sdk.Prelude.lacks tetrac_login_sdk.Server.Routes.bucket_id
    tetrac_login_sdk.Server.Sessions.consume_challenge
    tetrac_login_sdk.Server.Sessions.issue_session tetrac_login_sdk.Core.Js.to_text
    tetrac_login_sdk.Storage.Kv.take_challenge tetrac_login_sdk.Storage.Memory.getdel
    tetrac_login_sdk.Storage.Kv.put_session tetrac_login_sdk.Storage.Memory.set
    tetrac_login_sdk.Storage.Kv.set_session_pointer tetrac_login_sdk.Storage.Memory.hset
    tetrac_login_sdk.Server.Validate.validate_public_key tetrac_login_sdk.Core.Js.nullish
    tetrac_login_sdk.Server.Validate.valid_auth_method
    tetrac_login_sdk.Server.Validate.validate_auth_public_key
    tetrac_login_sdk.Server.Signature.verify_solana_signature
    tetrac_login_sdk.Core.Messages.wallet_login_message tetrac_login_sdk.Core.Config.parse_origin
    tetrac_login_sdk.Core.Messages.is_siws_address tetrac_login_sdk.Core.Messages.is_siws_nonce
    tetrac_login_sdk.Tests.Setup.parse_site tetrac_login_sdk.Server.Routes.account_creation_limited
    tetrac_login_sdk.Server.Sessions.check_rate_limit tetrac_login_sdk.Storage.Kv.hit_rate_limit
    tetrac_login_sdk.Storage.Kv.rate_limit_key tetrac_login_sdk.Storage.Memory.incr
    tetrac_login_sdk.Storage.Memory.expire tetrac_login_sdk.Storage.Map.insert
    tetrac_login_sdk.Storage.Map.remove tetrac_login_sdk.Storage.Kv.put_user
    tetrac_login_sdk.Storage.Memory.hsetnx
register_sound_example =
    register_sound (deployment register_body) request with_challenge refl (omega arith)

abbrev signed_alice : UserData
signed_alice = record alice { auth_token_hash = some (codes "token") }

verify_session_sound_example :
    SessionEvidence Memory platform
      (deployment undefined).store
      (codes "ttc")
      (some (codes "token"))
      (some key)
      none
      signed_in_alice
      signed_alice
      signed_in_alice
unfolding tetrac_login_sdk.Server.Sessions.verify_session
    tetrac_login_sdk.Server.Sessions.verify_pair
    tetrac_login_sdk.Server.Sessions.fingerprint_refused
    tetrac_login_sdk.Server.Sessions.check_pointer tetrac_login_sdk.Storage.Kv.get_session
    tetrac_login_sdk.Storage.Kv.decode_session tetrac_login_sdk.Storage.Kv.get_user
    tetrac_login_sdk.Storage.Kv.read_record tetrac_login_sdk.Storage.Kv.read_profile
    tetrac_login_sdk.Storage.Kv.parse_wallets tetrac_login_sdk.Storage.Kv.is_wallet_field
    tetrac_login_sdk.Storage.Memory.get tetrac_login_sdk.Storage.Memory.alive
    tetrac_login_sdk.Storage.Memory.hgetall tetrac_login_sdk.Storage.Memory.hash_of
    tetrac_login_sdk.Storage.Memory.is_expired tetrac_login_sdk.Storage.Map.lookup
    tetrac_login_sdk.Storage.Keys.app_scoped tetrac_login_sdk.Prelude.text_eq
    tetrac_login_sdk.Prelude.split_first tetrac_login_sdk.Effect.◌>>=◌
    tetrac_login_sdk.Core.Types.sort_wallets_by_slot
verify_session_sound_example =
    verify_session_sound platform (deployment undefined).store (codes "ttc") (some (codes "token"))
      (some key) none signed_in_alice refl

user_data_sound_example :
    (u : UserData) × (app_id : Text) × (header_app_id (deployment undefined) session_request
      ≡ some app_id)
    × Authenticated (deployment undefined) session_request app_id signed_in_alice u signed_in_alice
    × (json (user_record alice) 200
        ≡ json (user_record (record u { auth_token_hash = none; auth_token = undefined })) 200)
unfolding tetrac_login_sdk.Server.Sessions.verify_session
    tetrac_login_sdk.Server.Sessions.verify_pair
    tetrac_login_sdk.Server.Sessions.fingerprint_refused
    tetrac_login_sdk.Server.Sessions.check_pointer tetrac_login_sdk.Storage.Kv.get_session
    tetrac_login_sdk.Storage.Kv.decode_session tetrac_login_sdk.Storage.Kv.get_user
    tetrac_login_sdk.Storage.Kv.read_record tetrac_login_sdk.Storage.Kv.read_profile
    tetrac_login_sdk.Storage.Kv.parse_wallets tetrac_login_sdk.Storage.Kv.is_wallet_field
    tetrac_login_sdk.Storage.Memory.get tetrac_login_sdk.Storage.Memory.alive
    tetrac_login_sdk.Storage.Memory.hgetall tetrac_login_sdk.Storage.Memory.hash_of
    tetrac_login_sdk.Storage.Memory.is_expired tetrac_login_sdk.Storage.Map.lookup
    tetrac_login_sdk.Storage.Keys.app_scoped tetrac_login_sdk.Prelude.text_eq
    tetrac_login_sdk.Prelude.split_first tetrac_login_sdk.Effect.◌>>=◌
    tetrac_login_sdk.Core.Types.sort_wallets_by_slot
    tetrac_login_sdk.Server.Routes.Account.user_data
    tetrac_login_sdk.Server.Routes.Account.authenticate tetrac_login_sdk.Server.Routes.header_app_id
    tetrac_login_sdk.Server.Validate.validate_app_id tetrac_login_sdk.Server.Validate.is_app_id
    tetrac_login_sdk.Server.Validate.includes tetrac_login_sdk.Server.Routes.request_fingerprint
    tetrac_login_sdk.Server.Routes.hash_user_agent tetrac_login_sdk.Server.Routes.public_user
user_data_sound_example =
    user_data_sound (deployment undefined) session_request signed_in_alice refl refl

abbrev input_of : Result Response RegisterInput → RegisterInput
input_of (ok i) = i
input_of (err e) = record {
  app_id = codes "";
  key = codes "";
  email = undefined;
  auth_public_key = undefined;
  auth_method = none;
  wallets = [];
  signature = undefined;
  challenge = undefined;
  pbkdf2_iterations = none;
  offchain_envelope = none;
}

register-type_error_example :
    register (deployment falsy_email_body) request with_challenge ≡ (err type_error, with_challenge)
unfolding tetrac_login_sdk.Server.Http.read_json tetrac_login_sdk.Server.Http.read_bounded
    tetrac_login_sdk.Server.Routes.Register.read_register tetrac_login_sdk.Core.Js.truthy
    tetrac_login_sdk.Core.Js.prop tetrac_login_sdk.Core.Js.default_to
    tetrac_login_sdk.Core.Js.nullish tetrac_login_sdk.Server.Validate.validate_app_id
    tetrac_login_sdk.Server.Validate.is_app_id tetrac_login_sdk.Server.Validate.includes
    tetrac_login_sdk.Server.Validate.validate_public_key tetrac_login_sdk.Prelude.text_eq
    tetrac_login_sdk.Server.Routes.Register.optional_wallets
    tetrac_login_sdk.Server.Validate.valid_iterations
    tetrac_login_sdk.Server.Validate.valid_envelope
    tetrac_login_sdk.Server.Validate.valid_auth_method
register-type_error_example =
    register-type_error (deployment falsy_email_body) request
      (input_of (read_register (deployment falsy_email_body) falsy_email_body)) with_challenge refl
      refl (λ s e. absurd (ground arith))
