-- ===== src/Server/Routes.antt =====
-- server/routes.ts: what the handlers share. A deployment is the argument of `createAuthHandlers`
-- with the platform; the handlers are in the modules below.
pub mod Challenge
pub mod Register
pub mod Login
pub mod ConnectWallet
pub mod Account
pub mod Refusals
use tetrac_login_sdk.Prelude.{
  Bool, true, false, not, Option, none, some, String, [], Text, codes, lacks, text_eq,
  if◌then◌else◌, Result, ok, err,
}
use tetrac_login_sdk.Core.Platform.{Platform}
use tetrac_login_sdk.Core.Js.{Js, str, undefined, default_to}
use tetrac_login_sdk.Core.Types.{UserData}
use tetrac_login_sdk.Core.Config.{AuthConfig, RateLimitConfig}
use tetrac_login_sdk.Effect.{Act, Fault, type_error, pure, throw, ◌>>=◌, ◌>>◌}
use tetrac_login_sdk.Storage.Adapter.{AuthStore, RateLimitBucket, RateLimitResult}
use tetrac_login_sdk.Storage.Kv.{normalize_email}
use tetrac_login_sdk.Server.Http.{
  Request, Response, Payload, BodyParser, json, error, signed_in, client_ip,
}
use tetrac_login_sdk.Server.Sessions.{check_rate_limit, falsy_text}
use tetrac_login_sdk.Server.Validate.{validate_app_id}

pub record Deployment (S : Type 0) : Type 0 where
  pub platform : Platform
  pub parser : BodyParser
  pub store : AuthStore S
  pub config : AuthConfig
  -- `beforeCreateAccount`, where `none` inside is a throw.
  pub gate : Option (Request → Option Bool)

abbrev pub rate_limit_exceeded : Response
rate_limit_exceeded = error "Rate limit exceeded" 429

abbrev pub bucket : Text → Option Text → Text → RateLimitBucket
bucket endpoint app_id identifier = record {
  endpoint = endpoint;
  app_id = app_id;
  identifier = identifier;
}

-- `if (limited) return limited;`
abbrev pub answer_or : {S : Type 0} → Option Response → Act S Response → Act S Response
answer_or none rest = rest
answer_or (some r) rest = pure r

-- A refusal of the input, before any effect.
abbrev pub with_input : {S I : Type 0} → Result Response I → (I → Act S Response) → Act S Response
with_input (err r) rest = pure r
with_input (ok i) rest = rest i

-- `if (message) return error(message);`
abbrev pub refuse_or : {I : Type 0} → Option String → Result Response I → Result Response I
refuse_or none rest = rest
refuse_or (some message) rest = err (error message 400)

-- `if (ip)`
abbrev pub is_present : Option Text → Bool
is_present none = false
is_present (some t) = not (text_eq t [])

-- `readJson` answers `null` for a body that it refuses; no field of that is there.
abbrev pub body_of : Option Js → Js
body_of none = undefined
body_of (some v) = v

abbrev pub text_of : Js → Text
text_of (str s) = s
text_of _ = []

unfoldable pub public_user : UserData → UserData
public_user user = record user { auth_token_hash = none; auth_token = undefined }

abbrev pub as_result : UserData → Text → Payload
as_result user token = signed_in user.public_key token (public_user user)

-- `hashUserAgent`, which skips a missing or empty header.
unfoldable pub hash_user_agent : Platform → Option Text → Option Text
hash_user_agent p agent = elim agent [
  | none ↦ none
  | some a ↦ (if text_eq a [] then none else some (p.sha256_hex a))
]

-- `value.includes("@") ? normalizeEmail(value) : value`. A value that is no text has no `includes`.
unfoldable pub bucket_id : Platform → Js → Result Fault Text
bucket_id p (str s) = if lacks b'@' s then ok s else ok (normalize_email p s)
bucket_id p _ = err type_error

module _ {S : Type 0} (d : Deployment S) where
  unfoldable pub requester_ip : Request → Option Text
  requester_ip req =
      if d.config.trust_proxy_headers then client_ip req true d.config.trusted_proxy_hops else none

  unfoldable pub charge : Option RateLimitBucket → RateLimitConfig → Act S (Option Response)
  unfolding ◌>>=◌
  charge none limit = pure none
  charge (some b) limit = do
    r ← check_rate_limit d.platform d.store b limit
    pure (if r.allowed then none else some rate_limit_exceeded)

  -- `if (ip)`: no leg for a missing or empty address.
  abbrev pub ip_bucket : Option Text → Option RateLimitBucket
  ip_bucket none = none
  ip_bucket (some ip) = if text_eq ip [] then none else some (bucket (codes "ip") none ip)

  unfoldable pub rate_limited : Request → Option RateLimitBucket → Act S (Option Response)
  unfolding ◌>>=◌ charge requester_ip
  rate_limited req target = do
    by_ip ← charge (ip_bucket (requester_ip req)) d.config.ip_rate_limit
    elim by_ip [ some r ↦ pure (some r) | none ↦ charge target d.config.rate_limit ]

  -- A gate that is absent lets everybody pass, and one that throws nobody.
  abbrev gate_passes : Request → Bool
  gate_passes req = elim d.gate [
    | none ↦ true
    | some g ↦ elim (g req) [ none ↦ false | some b ↦ b ]
  ]

  abbrev pub creation_bucket : Option Text → RateLimitBucket
  creation_bucket none = bucket (codes "create") none (codes "global")
  creation_bucket (some ip) =
      if text_eq ip []
      then bucket (codes "create") none (codes "global")
      else bucket (codes "create") none ip

  unfoldable pub account_creation_limited : Request → Act S (Option Response)
  unfolding ◌>>=◌ requester_ip
  account_creation_limited req =
      if not (gate_passes req) then pure (some (error "Account creation refused" 403)) else do
        r ←
            check_rate_limit d.platform d.store (creation_bucket (requester_ip req))
              d.config.account_creation_rate_limit
        pure (
            if r.allowed
            then none
            else some (error "Too many new accounts right now — try again shortly" 429))

  unfoldable pub request_fingerprint : Request → Option Text
  unfolding hash_user_agent
  request_fingerprint req = hash_user_agent d.platform (req.header "user-agent")

  unfoldable pub issue_fingerprint : Request → Option Text
  unfolding request_fingerprint
  issue_fingerprint req =
      if d.config.bind_session_to_user_agent then request_fingerprint req else none

  abbrev header_or_default : Option Text → Text
  header_or_default none = d.config.app_id
  header_or_default (some a) = a

  unfoldable pub header_app_id : Request → Option Text
  header_app_id req =
      elim (validate_app_id (str (header_or_default (req.header "ttc-app-id"))) d.config) [
        | none ↦ some (header_or_default (req.header "ttc-app-id"))
        | some message ↦ none
      ]

  -- `body?.appId ?? config.appId`
  abbrev pub app_id_of : Js → Js
  app_id_of value = default_to value (str d.config.app_id)
