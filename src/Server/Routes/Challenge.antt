-- ===== src/Server/Routes/Challenge.antt =====
-- The `challenge` handler of server/routes.ts.
use tetrac_login_sdk.Prelude.{
  ℕ, not, ◌&&◌, Option, none, some, Text, codes, is_some, if◌then◌else◌, Result, ok,
}
use tetrac_login_sdk.Core.Js.{Js, prop, truthy}
use tetrac_login_sdk.Core.Types.{UserData}
use tetrac_login_sdk.Core.Config.{pbkdf2_iterations}
use tetrac_login_sdk.Core.Offchain.{OffchainEnvelope}
use tetrac_login_sdk.Effect.{Act, pure, ◌>>=◌}
use tetrac_login_sdk.Storage.Adapter.{RateLimitBucket}
use tetrac_login_sdk.Server.Http.{Request, Response, json, error, challenge_for, read_json}
use tetrac_login_sdk.Server.Sessions.{random_token, issue_challenge}
use tetrac_login_sdk.Server.Validate.{validate_app_id, validate_public_key, validate_email}
use tetrac_login_sdk.Server.Routes.{
  Deployment, bucket, answer_or, with_input, refuse_or, text_of, app_id_of, rate_limited,
  requester_ip, is_present, body_of,
}

pub record ChallengeInput : Type 0 where
  pub app_id : Text
  -- The key of the request, unless it is falsy.
  pub key : Option Text
  pub email : Option Text

-- The text of a truthy value that a validator accepted.
abbrev pub given : Js → Option Text
given v = if truthy v then some (text_of v) else none

module _ {S : Type 0} (d : Deployment S) where
  unfoldable pub read_challenge : Js → Result Response ChallengeInput
  read_challenge body =
      let app_id = app_id_of d (prop "appId" body) in
      let key = prop "publicKey" body in
      let email = prop "email" body in
      refuse_or (validate_app_id app_id d.config) (
        refuse_or (if truthy key then validate_public_key d.platform key else none) (
          refuse_or (if truthy email then validate_email email else none)
            (ok (record { app_id = text_of app_id; key = given key; email = given email }))))

  -- The identity: the key that was given, or the one of the address.
  unfoldable pub resolve_key : ChallengeInput → Act S (Option Text)
  resolve_key i = elim i.key [
    | some key ↦ pure (some key)
    | none ↦ elim i.email [
      | none ↦ pure none
      | some email ↦ d.store.get_public_key_by_email i.app_id email
    ]
  ]

  abbrev user_of_key : Text → Option Text → Act S (Option UserData)
  user_of_key app_id none = pure none
  user_of_key app_id (some key) = d.store.get_user app_id key

  -- A known account has its own bucket; all that is unknown shares one.
  abbrev target_bucket : Text → Option Text → Option UserData → RateLimitBucket
  target_bucket app_id (some key) (some user) = bucket (codes "challenge") (some app_id) key
  target_bucket app_id key user = bucket (codes "challenge-unknown") none (codes "global")

  unfoldable pub limit_target :
      Request → Text → Option Text → Option UserData → Act S (Option Response)
  limit_target req app_id key user =
      if is_present (requester_ip d req)
      then pure none
      else rate_limited d req (some (target_bucket app_id key user))

  abbrev pinned_iterations : Option UserData → ℕ
  pinned_iterations none = pbkdf2_iterations d.config.security_level
  pinned_iterations (some user) = elim user.pbkdf2_iterations [
    | none ↦ pbkdf2_iterations d.config.security_level
    | some n ↦ n
  ]

  abbrev pinned_envelope : Option UserData → Option OffchainEnvelope
  pinned_envelope none = none
  pinned_envelope (some user) = user.offchain_envelope

  -- An unknown address is answered in the shape of a real account, and nothing is stored.
  unfoldable pub answer_challenge : Text → Option Text → Option UserData → Act S Response
  unfolding ◌>>=◌
  answer_challenge app_id none user = do
    challenge ← random_token d.platform d.store
    pure (json (challenge_for challenge (pbkdf2_iterations d.config.security_level) none) 200)
  answer_challenge app_id (some key) user = do
    challenge ← issue_challenge d.platform d.store app_id key d.config
    pure (json (challenge_for challenge (pinned_iterations user) (pinned_envelope user)) 200)

  unfoldable pub challenge_after_limit : Request → ChallengeInput → Act S Response
  unfolding ◌>>=◌ resolve_key limit_target answer_challenge
  challenge_after_limit req i = do
    key ← resolve_key i
    if not (is_some key) && not (is_some i.email)
        then pure (error "publicKey or email required" 400)
        else do
          user ← user_of_key i.app_id key
          limited ← limit_target req i.app_id key user
          answer_or limited (answer_challenge i.app_id key user)

  unfoldable pub challenge : Request → Act S Response
  unfolding ◌>>=◌ read_challenge challenge_after_limit
  challenge req = with_input (read_challenge (body_of (read_json d.parser req))) (λ i. do
    ip_limited ← rate_limited d req none
    answer_or ip_limited (challenge_after_limit req i))
