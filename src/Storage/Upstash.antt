-- ===== src/Storage/Upstash.antt =====
-- storage/kv.ts: the adapter over an Upstash client, which may read a stored text as JSON. The client
-- and `JSON.stringify` are parameters.
use tetrac_login_sdk.Prelude.{ℕ, zero, suc, ◌==◌, Option, none, some, [], ◌∷◌, Text}
use tetrac_login_sdk.Core.Js.{Js, undefined, null, str}
use tetrac_login_sdk.Effect.{Act, pure, ◌>>=◌}
use tetrac_login_sdk.Storage.Map.{Map, insert}
use tetrac_login_sdk.Storage.Adapter.{StorageAdapter}

pub record KvLike (S : Type 0) : Type 0 where
  pub get : Text → Act S Js
  -- With `{ ex }` or undefined.
  pub set : Text → Text → Option ℕ → Act S (Unit {0})
  pub del : Text → Act S (Unit {0})
  pub incr : Text → Act S ℕ
  pub expire : Text → ℕ → Act S (Unit {0})
  pub getdel : Text → Act S Js
  pub hget : Text → Text → Act S Js
  -- A map of one field.
  pub hset : Text → Text → Text → Act S (Unit {0})
  pub hsetnx : Text → Text → Text → Act S ℕ
  pub hdel : Text → Text → Act S (Unit {0})
  -- `none` is null.
  pub hgetall : Text → Act S (Option (Map Js))

module _ {S : Type 0} (stringify : Js → Text) (client : KvLike S) where
  unfoldable pub coerce : Js → Option Text
  coerce undefined = none
  coerce null = none
  coerce (str s) = some s
  coerce v = some (stringify v)

  abbrev coerced : Act S Js → Act S (Option Text)
  coerced m = m >>= λ v. pure (coerce v)

  -- `opts?.exSeconds ? { ex } : undefined`
  abbrev expiry : Option ℕ → Option ℕ
  expiry none = none
  expiry (some zero) = none
  expiry (some (suc n)) = some (suc n)

  abbrev with_field : Text → Option Text → Map Text → Map Text
  with_field field none out = out
  with_field field (some text) out = insert field text out

  unfoldable pub coerce_fields : Map Js → Map Text → Map Text
  unfolding coerce
  coerce_fields [] out = out
  coerce_fields ((field, value) ∷ all) out = coerce_fields all (with_field field (coerce value) out)

  abbrev fields_of : Option (Map Js) → Map Text
  fields_of none = []
  fields_of (some all) = coerce_fields all []

  unfoldable pub upstash_adapter : StorageAdapter S
  unfolding ◌>>=◌ coerce coerce_fields
  upstash_adapter = record {
    get = λ key. coerced (client.get key);
    set = λ key value ttl. client.set key value (expiry ttl);
    del = client.del;
    incr = client.incr;
    expire = client.expire;
    getdel = λ key. coerced (client.getdel key);
    hget = λ key field. coerced (client.hget key field);
    hset = client.hset;
    hsetnx = λ key field value. client.hsetnx key field value >>= λ n. pure (n == 1);
    hdel = client.hdel;
    hgetall = λ key. client.hgetall key >>= λ all. pure (fields_of all);
  }
