-- ===== src/Storage/Adapter.antt =====
-- storage/adapter.ts and the port of storage/store.ts: what the code above asks of a backend. The
-- optional `sweepExpired` and `close` are called by no other code of the program.
use tetrac_login_sdk.Prelude.{ℕ, Bool, Option, Text}
use tetrac_login_sdk.Core.Types.{EncryptedWallet, UserData}
use tetrac_login_sdk.Effect.{Act}
use tetrac_login_sdk.Storage.Map.{Map}

pub record StorageAdapter (S : Type 0) : Type 0 where
  pub get : Text → Act S (Option Text)
  -- With the seconds to live.
  pub set : Text → Text → Option ℕ → Act S (Unit {0})
  pub del : Text → Act S (Unit {0})
  pub incr : Text → Act S ℕ
  pub expire : Text → ℕ → Act S (Unit {0})
  pub getdel : Text → Act S (Option Text)
  pub hget : Text → Text → Act S (Option Text)
  pub hset : Text → Text → Text → Act S (Unit {0})
  pub hsetnx : Text → Text → Text → Act S Bool
  pub hdel : Text → Text → Act S (Unit {0})
  pub hgetall : Text → Act S (Map Text)

pub record SessionValue : Type 0 where
  pub public_key : Text
  pub fingerprint : Option Text

pub record RateLimitResult : Type 0 where
  pub allowed : Bool
  pub remaining : ℕ

pub record RateLimitBucket : Type 0 where
  pub endpoint : Text
  pub app_id : Option Text
  pub identifier : Text

pub record AuthStore (S : Type 0) : Type 0 where
  pub get_user : Text → Text → Act S (Option UserData)
  pub put_user : UserData → Act S (Unit {0})
  pub put_wallet_slot : Text → Text → EncryptedWallet → Act S (Unit {0})
  pub set_session_pointer : Text → Text → Text → Act S (Unit {0})
  pub get_public_key_by_email : Text → Text → Act S (Option Text)
  pub put_challenge : Text → Text → Text → ℕ → Act S (Unit {0})
  pub take_challenge : Text → Text → Text → Act S Bool
  pub put_session : Text → Text → SessionValue → ℕ → Act S (Unit {0})
  pub get_session : Text → Text → Act S (Option SessionValue)
  pub delete_session : Text → Text → Act S (Unit {0})
  pub hit_rate_limit : RateLimitBucket → ℕ → ℕ → Act S RateLimitResult
