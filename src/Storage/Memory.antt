-- ===== src/Storage/Memory.antt =====
-- storage/memory.ts: the in-memory adapter.
pub mod Laws
pub mod Later
use tetrac_login_sdk.Prelude.{
  ℕ, zero, suc, ◌+◌, ◌*◌, Bool, true, false, Option, none, some, [], ◌∷◌, Text, leb, is_some,
  if◌then◌else◌, ok,
}
use tetrac_login_sdk.Effect.{Act, World, pure, ◌>>=◌}
use tetrac_login_sdk.Storage.Map.{Map, lookup, insert, remove}
use tetrac_login_sdk.Storage.Decimal.{to_decimal, parse_int}
use tetrac_login_sdk.Storage.Adapter.{StorageAdapter}

pub record Entry : Type 0 where
  pub value : Text
  pub expires_at : Option ℕ

pub record Memory : Type 0 where
  pub store : Map Entry
  pub hstore : Map (Map Text)

abbrev pub empty_memory : Memory
empty_memory = record { store = []; hstore = [] }

-- `e.expiresAt != null && e.expiresAt <= now`
unfoldable pub is_expired : Option ℕ → ℕ → Bool
is_expired none now = false
is_expired (some t) now = leb t now

unfoldable pub put_entry : Text → Entry → World Memory → World Memory
put_entry key e w = record w { state = record w.state { store = insert key e w.state.store } }

unfoldable pub drop_entry : Text → World Memory → World Memory
drop_entry key w = record w { state = record w.state { store = remove key w.state.store } }

-- The entry of a key that has not expired; one that has is deleted.
alive_from : Text → Option Entry → Act Memory (Option Entry)
alive_from key none w = (ok none, w)
alive_from key (some e) w =
    if is_expired e.expires_at w.now then (ok none, drop_entry key w) else (ok (some e), w)

unfoldable pub alive : Text → Act Memory (Option Entry)
unfolding alive_from is_expired drop_entry
alive key w = alive_from key (lookup key w.state.store) w

abbrev pub value_of : Option Entry → Option Text
value_of none = none
value_of (some e) = some e.value

unfoldable pub get : Text → Act Memory (Option Text)
unfolding ◌>>=◌ alive
get key = do e ← alive key; pure (value_of e)

-- `opts?.exSeconds ? now + exSeconds * 1000 : undefined`: no expiry for 0 seconds.
abbrev pub deadline : Option ℕ → ℕ → Option ℕ
deadline none now = none
deadline (some zero) now = none
deadline (some (suc n)) now = some (now + suc n * 1000)

unfoldable pub set : Text → Text → Option ℕ → Act Memory (Unit {0})
unfolding put_entry
set key value ttl w =
    (ok tt, put_entry key (record { value = value; expires_at = deadline ttl w.now }) w)

unfoldable pub del : Text → Act Memory (Unit {0})
del key w = (
  ok tt,
  record w {
    state = record { store = remove key w.state.store; hstore = remove key w.state.hstore };
  },
)

abbrev pub count_of : Option Entry → ℕ
count_of none = 0
count_of (some e) = parse_int e.value

abbrev pub expiry_of : Option Entry → Option ℕ
expiry_of none = none
expiry_of (some e) = e.expires_at

unfoldable pub store_count : Text → Option Entry → Act Memory ℕ
unfolding put_entry
store_count key current w =
    let next = count_of current + 1 in
    (ok next, put_entry key (record { value = to_decimal next; expires_at = expiry_of current }) w)

unfoldable pub incr : Text → Act Memory ℕ
unfolding ◌>>=◌ alive store_count
incr key = do current ← alive key; store_count key current

unfoldable pub stamp : Text → ℕ → Option Entry → Act Memory (Unit {0})
unfolding put_entry
stamp key seconds none w = (ok tt, w)
stamp key seconds (some e) w =
    (ok tt, put_entry key (record e { expires_at = some (w.now + seconds * 1000) }) w)

unfoldable pub expire : Text → ℕ → Act Memory (Unit {0})
unfolding ◌>>=◌ alive stamp
expire key seconds = do e ← alive key; stamp key seconds e

unfoldable pub delete_key : Text → Option Entry → Act Memory (Option Text)
unfolding drop_entry
delete_key key e w = (ok (value_of e), drop_entry key w)

unfoldable pub getdel : Text → Act Memory (Option Text)
unfolding ◌>>=◌ alive delete_key
getdel key = do e ← alive key; delete_key key e

-- The hash of a key: an absent one has no field.
unfoldable pub hash_of : Text → Map (Map Text) → Map Text
hash_of key hs = elim (lookup key hs) [ none ↦ [] | some h ↦ h ]

unfoldable pub put_hash : Text → Map Text → World Memory → World Memory
put_hash key h w = record w { state = record w.state { hstore = insert key h w.state.hstore } }

unfoldable pub hget : Text → Text → Act Memory (Option Text)
unfolding hash_of
hget key field w = (ok (lookup field (hash_of key w.state.hstore)), w)

unfoldable pub hset : Text → Text → Text → Act Memory (Unit {0})
unfolding hash_of put_hash
hset key field value w = (ok tt, put_hash key (insert field value (hash_of key w.state.hstore)) w)

unfoldable pub hsetnx : Text → Text → Text → Act Memory Bool
unfolding hash_of put_hash
hsetnx key field value w =
    let h = hash_of key w.state.hstore in
    if is_some (lookup field h)
    then (ok false, w)
    else (ok true, put_hash key (insert field value h) w)

unfoldable pub drop_field : Text → Text → Option (Map Text) → World Memory → World Memory
unfolding put_hash
drop_field key field none w = w
drop_field key field (some h) w = elim (remove field h) [
  | [] ↦ record w { state = record w.state { hstore = remove key w.state.hstore } }
  | kept ∷ more ↦ put_hash key (kept ∷ more) w
]

unfoldable pub hdel : Text → Text → Act Memory (Unit {0})
unfolding drop_field
hdel key field w = (ok tt, drop_field key field (lookup key w.state.hstore) w)

unfoldable pub hgetall : Text → Act Memory (Map Text)
unfolding hash_of
hgetall key w = (ok (hash_of key w.state.hstore), w)

-- One pass over the entries. With no limit all expired entries go.
sweep : ℕ → Option ℕ → ℕ → Map Entry → ℕ × Map Entry
sweep now limit removed [] = (removed, [])
sweep now limit removed ((k, e) ∷ m) =
    let stop : Bool = elim limit [ none ↦ false | some n ↦ leb n removed ] in
    let expired = is_expired e.expires_at now in
    let (gone, rest) = sweep now limit (if expired then removed + 1 else removed) m in
    if stop then (removed, (k, e) ∷ m) else if expired then (gone, rest) else (gone, (k, e) ∷ rest)

unfoldable pub sweep_expired : Option ℕ → Act Memory ℕ
unfolding sweep is_expired
sweep_expired limit w =
    let (removed, kept) = sweep w.now limit 0 w.state.store in
    (ok removed, record w { state = record w.state { store = kept } })

abbrev pub memory_adapter : StorageAdapter Memory
memory_adapter = record {
  get = get;
  set = set;
  del = del;
  incr = incr;
  expire = expire;
  getdel = getdel;
  hget = hget;
  hset = hset;
  hsetnx = hsetnx;
  hdel = hdel;
  hgetall = hgetall;
}
