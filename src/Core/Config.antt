-- ===== src/Core/Config.antt =====
-- core/config.ts: the configuration and its defaults, and origins.
pub mod Resolve
use tetrac_login_sdk.Prelude.{
  ℕ, Bool, true, false, ◌&&◌, ◌||◌, List, [], ◌∷◌, Option, none, some, Text, codes, reverse, leb,
  ◌==◌, if◌then◌else◌, lacks, text_eq, then?,
}
use tetrac_login_sdk.Core.Platform.{Platform, Url}

abbrev pub auth_token_header : Text
auth_token_header = codes "ttc-auth-token"

abbrev pub public_key_header : Text
public_key_header = codes "ttc-public-key"

abbrev pub app_id_header : Text
app_id_header = codes "ttc-app-id"

pub record KeyPrefixes : Type 0 where
  pub challenge : Text
  pub pub_key : Text
  pub session : Text
  pub email : Text
  pub rate_limit : Text

pub record RateLimitConfig : Type 0 where
  pub window_seconds : ℕ
  pub max_attempts : ℕ

pub data SecurityLevel : Type 0 where
  level1 level2 level3 : SecurityLevel

abbrev pub pbkdf2_iterations : SecurityLevel → ℕ
pbkdf2_iterations level1 = 100000
pbkdf2_iterations level2 = 600000
pbkdf2_iterations level3 = 1000000

-- `webauthn` is read by the browser side only, and left out.
pub record AuthConfig : Type 0 where
  pub app_id : Text
  pub origin : Text
  pub allowed_app_ids : Option (List Text)
  pub security_level : SecurityLevel
  pub challenge_ttl_seconds : ℕ
  pub session_ttl_seconds : ℕ
  pub bind_session_to_user_agent : Bool
  pub trust_proxy_headers : Bool
  pub trusted_proxy_hops : ℕ
  pub key_prefixes : KeyPrefixes
  pub rate_limit : RateLimitConfig
  pub ip_rate_limit : RateLimitConfig
  pub account_creation_rate_limit : RateLimitConfig
  pub auto_lock_ms : ℕ
  pub lock_on_hide : Bool
  pub reveal_requires_reauth : Bool

-- The defaults, for a given origin.
abbrev pub default_config : Text → AuthConfig
default_config site = record {
  app_id = codes "ttc";
  origin = site;
  allowed_app_ids = none;
  security_level = level2;
  challenge_ttl_seconds = 300;
  session_ttl_seconds = 86400;
  bind_session_to_user_agent = false;
  trust_proxy_headers = false;
  trusted_proxy_hops = 0;
  key_prefixes = record {
    challenge = codes "challenge:";
    pub_key = codes "pubKey:";
    session = codes "session:";
    email = codes "email:";
    rate_limit = codes "ratelimit:";
  };
  rate_limit = record { window_seconds = 60; max_attempts = 10 };
  ip_rate_limit = record { window_seconds = 60; max_attempts = 100 };
  account_creation_rate_limit = record { window_seconds = 60; max_attempts = 2 };
  auto_lock_ms = 15000;
  lock_on_hide = true;
  reveal_requires_reauth = true;
}

-- The white space of `trim` and of `\s`.
unfoldable pub is_space : ℕ → Bool
is_space c =
    (leb 9 c && leb c 13)
    || ((c == 32)
        || ((c == 0xa0)
            || ((c == 0x1680)
                || ((leb 0x2000 c && leb c 0x200a)
                    || ((c == 0x2028)
                        || ((c == 0x2029)
                            || ((c == 0x202f)
                                || ((c == 0x205f) || ((c == 0x3000) || (c == 0xfeff))))))))))

unfoldable pub drop_while : (ℕ → Bool) → Text → Text
drop_while p [] = []
drop_while p (c ∷ s) = let rest = drop_while p s in if p c then rest else c ∷ s

-- `s.replace(/p+$/, "")` for a class of characters `p`.
abbrev pub drop_while_end : (ℕ → Bool) → Text → Text
drop_while_end p s = reverse (drop_while p (reverse s))

unfoldable pub trim : Text → Text
unfolding drop_while is_space
trim s = drop_while_end is_space (drop_while is_space s)

module _ (p : Platform) where
  unfoldable pub normalize_origin : Text → Text
  unfolding trim drop_while
  normalize_origin origin = drop_while_end (λ c. c == b'/') (p.to_lower_case (trim origin))

  -- `!url || … || /[?#]/.test(site)` is the refusal.
  is_bare_origin : Text → Url → Bool
  is_bare_origin site url =
      (text_eq url.protocol (codes "https:") || text_eq url.protocol (codes "http:"))
      && (text_eq url.username []
          && (text_eq url.password []
              && (text_eq url.pathname (codes "/") && (lacks b'?' site && lacks b'#' site))))

  -- `none` is the thrown error.
  unfoldable pub parse_origin : Text → Option Url
  unfolding normalize_origin is_bare_origin
  parse_origin origin =
      let site = normalize_origin origin in
      then? (p.parse_url site) (λ url. if is_bare_origin site url then some url else none)
