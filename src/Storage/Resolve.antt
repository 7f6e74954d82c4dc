-- ===== src/Storage/Resolve.antt =====
-- storage/resolve.ts: the backend that the environment selects.
use tetrac_login_sdk.Prelude.{
  Bool, false, not, ◌&&◌, Option, none, some, [], Text, codes, text_eq, if◌then◌else◌, Result, ok,
  err,
}

pub data StorageBackend : Type 0 where
  upstash : StorageBackend
  ioredis : Text → StorageBackend

pub data NoBackend : Type 0 where
  no_backend_in_production : NoBackend

-- `process.env`
abbrev pub Env : Type 0
Env = Text → Option Text

-- A variable that is set and not empty.
abbrev pub is_set : Option Text → Bool
is_set none = false
is_set (some v) = not (text_eq v [])

abbrev pub default_redis_url : Text
default_redis_url = codes "redis://localhost:6379"

abbrev url_of : Option Text → Text
url_of none = default_redis_url
url_of (some url) = url

abbrev pub in_production : Option Text → Bool
in_production none = false
in_production (some v) = text_eq v (codes "production")

unfoldable pub select_storage_backend : Env → Result NoBackend StorageBackend
select_storage_backend env =
    if is_set (env (codes "UPSTASH_REDIS_REST_URL"))
      && is_set (env (codes "UPSTASH_REDIS_REST_TOKEN"))
    then ok upstash
    else if in_production (env (codes "NODE_ENV")) && not (is_set (env (codes "REDIS_URL")))
    then err no_backend_in_production
    else ok (ioredis (url_of (env (codes "REDIS_URL"))))
