-- ===== src/Storage/Redis.antt =====
-- storage/redis.ts: the adapter over an ioredis client. The client is a parameter.
use tetrac_login_sdk.Prelude.{ℕ, zero, suc, ◌==◌, Bool, Option, none, some, [], Text}
use tetrac_login_sdk.Effect.{Act, pure, ◌>>=◌}
use tetrac_login_sdk.Storage.Map.{Map}
use tetrac_login_sdk.Storage.Adapter.{StorageAdapter}

-- What a command answers beyond what the adapter reads is left out.
pub record RedisLike (S : Type 0) : Type 0 where
  pub get : Text → Act S (Option Text)
  pub set : Text → Text → Act S (Unit {0})
  -- SET key value EX seconds
  pub set_ex : Text → Text → ℕ → Act S (Unit {0})
  pub del : Text → Act S (Unit {0})
  pub incr : Text → Act S ℕ
  pub expire : Text → ℕ → Act S (Unit {0})
  pub getdel : Text → Act S (Option Text)
  pub hget : Text → Text → Act S (Option Text)
  pub hset : Text → Text → Text → Act S (Unit {0})
  pub hsetnx : Text → Text → Text → Act S ℕ
  pub hdel : Text → Text → Act S (Unit {0})
  -- `none` is null.
  pub hgetall : Text → Act S (Option (Map Text))

module _ {S : Type 0} (client : RedisLike S) where
  -- `opts?.exSeconds` is read as absent where it is 0.
  unfoldable pub set : Text → Text → Option ℕ → Act S (Unit {0})
  set key value none = client.set key value
  set key value (some zero) = client.set key value
  set key value (some (suc n)) = client.set_ex key value (suc n)

  unfoldable pub hsetnx : Text → Text → Text → Act S Bool
  unfolding ◌>>=◌
  hsetnx key field value = client.hsetnx key field value >>= λ n. pure (n == 1)

  abbrev or_empty : Option (Map Text) → Map Text
  or_empty none = []
  or_empty (some m) = m

  unfoldable pub hgetall : Text → Act S (Map Text)
  unfolding ◌>>=◌
  hgetall key = client.hgetall key >>= λ m. pure (or_empty m)

  unfoldable pub redis_adapter : StorageAdapter S
  unfolding set hsetnx hgetall
  redis_adapter = record {
    get = client.get;
    set = set;
    del = client.del;
    incr = client.incr;
    expire = client.expire;
    getdel = client.getdel;
    hget = client.hget;
    hset = client.hset;
    hsetnx = hsetnx;
    hdel = client.hdel;
    hgetall = hgetall;
  }
