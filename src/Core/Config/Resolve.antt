-- ===== src/Core/Config/Resolve.antt =====
-- `resolveConfig` of core/config.ts. A key of the override that is absent is `none`; a key that is
-- there with the value undefined, which a spread would copy, is left out, and so is `webauthn`.
use tetrac_login_sdk.Prelude.{ℕ, Bool, Option, none, some, List, [], ◌∷◌, Text}
use tetrac_login_sdk.Core.Platform.{Platform}
use tetrac_login_sdk.Core.Config.{
  KeyPrefixes, RateLimitConfig, SecurityLevel, AuthConfig, default_config, normalize_origin,
}

pub record PartialPrefixes : Type 0 where
  pub challenge : Option Text
  pub pub_key : Option Text
  pub session : Option Text
  pub email : Option Text
  pub rate_limit : Option Text

pub record PartialRateLimit : Type 0 where
  pub window_seconds : Option ℕ
  pub max_attempts : Option ℕ

pub record Override : Type 0 where
  pub app_id : Option Text
  pub origin : Option Text
  pub allowed_app_ids : Option (List Text)
  pub security_level : Option SecurityLevel
  pub challenge_ttl_seconds : Option ℕ
  pub session_ttl_seconds : Option ℕ
  pub bind_session_to_user_agent : Option Bool
  pub trust_proxy_headers : Option Bool
  pub trusted_proxy_hops : Option ℕ
  pub key_prefixes : PartialPrefixes
  pub rate_limit : PartialRateLimit
  pub ip_rate_limit : PartialRateLimit
  pub account_creation_rate_limit : PartialRateLimit
  pub auto_lock_ms : Option ℕ
  pub lock_on_hide : Option Bool
  pub reveal_requires_reauth : Option Bool

abbrev pub or_default : {A : Type 0} → Option A → A → A
or_default none d = d
or_default (some a) d = a

abbrev or_else : {A : Type 0} → Option A → Option A → Option A
or_else none o = o
or_else (some a) o = some a

unfoldable pub merge_prefixes : KeyPrefixes → PartialPrefixes → KeyPrefixes
merge_prefixes d o = record {
  challenge = or_default o.challenge d.challenge;
  pub_key = or_default o.pub_key d.pub_key;
  session = or_default o.session d.session;
  email = or_default o.email d.email;
  rate_limit = or_default o.rate_limit d.rate_limit;
}

unfoldable pub merge_rate_limit : RateLimitConfig → PartialRateLimit → RateLimitConfig
merge_rate_limit d o = record {
  window_seconds = or_default o.window_seconds d.window_seconds;
  max_attempts = or_default o.max_attempts d.max_attempts;
}

unfoldable pub merge : AuthConfig → Override → AuthConfig
unfolding merge_prefixes merge_rate_limit
merge d o = record {
  app_id = or_default o.app_id d.app_id;
  origin = d.origin;
  allowed_app_ids = or_else o.allowed_app_ids d.allowed_app_ids;
  security_level = or_default o.security_level d.security_level;
  challenge_ttl_seconds = or_default o.challenge_ttl_seconds d.challenge_ttl_seconds;
  session_ttl_seconds = or_default o.session_ttl_seconds d.session_ttl_seconds;
  bind_session_to_user_agent = or_default o.bind_session_to_user_agent d.bind_session_to_user_agent;
  trust_proxy_headers = or_default o.trust_proxy_headers d.trust_proxy_headers;
  trusted_proxy_hops = or_default o.trusted_proxy_hops d.trusted_proxy_hops;
  key_prefixes = merge_prefixes d.key_prefixes o.key_prefixes;
  rate_limit = merge_rate_limit d.rate_limit o.rate_limit;
  ip_rate_limit = merge_rate_limit d.ip_rate_limit o.ip_rate_limit;
  account_creation_rate_limit =
      merge_rate_limit d.account_creation_rate_limit o.account_creation_rate_limit;
  auto_lock_ms = or_default o.auto_lock_ms d.auto_lock_ms;
  lock_on_hide = or_default o.lock_on_hide d.lock_on_hide;
  reveal_requires_reauth = or_default o.reveal_requires_reauth d.reveal_requires_reauth;
}

-- `none` is the thrown error: neither the override nor a page gives an origin, or it is empty.
unfoldable pub resolve_config : Platform → Option Text → Override → Option AuthConfig
unfolding merge
resolve_config p browser_origin o = elim (or_else o.origin browser_origin) [
  | none ↦ none
  | some [] ↦ none
  | some (c ∷ site) ↦ some (merge (default_config (normalize_origin p (c ∷ site))) o)
]
