-- ===== src/Storage/Conformance/Cases.antt =====
-- The suite's cases on rate limits and hostile texts (storage/conformance.ts).
use tetrac_login_sdk.Prelude.{
  is_some, ℕ, zero, suc, Bool, true, false, not, ◌==◌, Option, none, some, Text, codes, Result, ok,
  err,
}
use tetrac_login_sdk.Effect.{Act, Fault, pure, ◌>>=◌, ◌>>◌}
use tetrac_login_sdk.Storage.Adapter.{AuthStore, SessionValue, RateLimitBucket}
use tetrac_login_sdk.Storage.Conformance.{assert, same_text, app1, app2}

abbrev bucket : Text → Text → Text → RateLimitBucket
bucket endpoint app_id identifier = record {
  endpoint = endpoint;
  app_id = some app_id;
  identifier = identifier;
}

abbrev owner_of : Option SessionValue → Option Text
owner_of none = none
owner_of (some s) = some s.public_key

abbrev verdict : {A : Type 0} → Result Fault A → Bool
verdict (ok a) = false
verdict (err e) = true

module _ {S A : Type 0} where
  -- Whether a call throws.
  unfoldable pub threw : Act S A → Act S Bool
  threw fn w = let r = fn w in (ok (verdict r.0), r.1)

  unfoldable pub assert_throws : Act S A → Act S (Unit {0})
  unfolding ◌>>=◌ threw assert
  assert_throws fn = threw fn >>= assert

module _ {S : Type 0} (store : AuthStore S) (advance : ℕ → Act S (Unit {0})) where
  unfoldable pub hits : ℕ → RateLimitBucket → ℕ → ℕ → Act S (Unit {0})
  hits zero b window cap = pure tt
  hits (suc n) b window cap = store.hit_rate_limit b window cap >> hits n b window cap

  unfoldable pub allowed_after_window : Act S (Unit {0})
  unfolding ◌>>=◌ ◌>>◌ assert hits
  allowed_after_window =
      let b = bucket (codes "login") app1 (codes "victim@example.com") in
      (do
        hits 3 b 1 3
        blocked ← store.hit_rate_limit b 1 3
        assert (not blocked.allowed)
        advance 1000
        after ← store.hit_rate_limit b 1 3
        assert after.allowed
        assert (after.remaining == 2))

  unfoldable pub window_is_not_extended : Act S (Unit {0})
  unfolding ◌>>=◌ ◌>>◌ assert
  window_is_not_extended =
      let b = bucket (codes "login") app1 (codes "drift@example.com") in
      (do
        store.hit_rate_limit b 2 10
        advance 1000
        store.hit_rate_limit b 2 10
        advance 1500
        r ← store.hit_rate_limit b 2 10
        assert (r.remaining == 9))

  unfoldable pub buckets_are_isolated : Act S (Unit {0})
  unfolding ◌>>=◌ ◌>>◌ assert hits
  buckets_are_isolated =
      let alice = codes "alice@example.com" in
      let base = bucket (codes "login") app1 alice in
      (do
        hits 5 base 60 5
        limited ← store.hit_rate_limit base 60 5
        assert (not limited.allowed)
        other ← store.hit_rate_limit (bucket (codes "login") app1 (codes "bob@example.com")) 60 5
        assert other.allowed
        challenge ← store.hit_rate_limit (bucket (codes "challenge") app1 alice) 60 5
        assert challenge.allowed
        tenant ← store.hit_rate_limit (bucket (codes "login") app2 alice) 60 5
        assert tenant.allowed)

  -- One hostile text as a challenge, as the owner of a session, and as a rate-limit identifier.
  unfoldable pub is_inert : Text → Text → Text → Act S (Unit {0})
  unfolding ◌>>=◌ ◌>>◌ assert
  is_inert pk hash payload = do
    store.put_challenge app1 pk payload 300
    taken ← store.take_challenge app1 pk payload
    assert taken
    store.put_session app1 hash (record { public_key = payload; fingerprint = none }) 300
    s ← store.get_session app1 hash
    assert (same_text (owner_of s) (some payload))
    r ← store.hit_rate_limit (bucket (codes "login") app1 payload) 60 5
    assert r.allowed

  unfoldable pub hostile_texts : Act S (Unit {0})
  unfolding ◌>>=◌ ◌>>◌ assert is_inert
  hostile_texts = do
    is_inert (codes "pk-0") (codes "h-0") (codes "' OR 1=1 --")
    is_inert (codes "pk-1") (codes "h-1") (codes "{\"$gt\":\"\"}")
    is_inert (codes "pk-2") (codes "h-2") (codes "{\"$ne\":null}")
    is_inert (codes "pk-3") (codes "h-3") (codes "'; DROP TABLE ttc_kv; --")
    is_inert (codes "pk-4") (codes "h-4") (codes "$where")
    is_inert (codes "pk-5") (codes "h-5") (codes "a.b.c")
    none_found ← store.get_session app1 (codes "{\"$gt\":\"\"}")
    assert (not (is_some none_found))
