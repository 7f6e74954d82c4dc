-- ===== src/Storage/Conformance/Faults.antt =====
-- The suite's cases on a store whose backend fails every read (storage/conformance.ts), over any SQL
-- driver.
use tetrac_login_sdk.Prelude.{
  ◌+◌, ◌*◌, ℕ, ◌≡◌, refl, Bool, true, false, some, List, [], ◌∷◌, Text, codes, ok, err, All, Result,
}
use tetrac_login_sdk.Core.Platform.{Platform}
use tetrac_login_sdk.Effect.{World, Act, Fault, continue, ◌>>=◌, ◌>>◌}
use tetrac_login_sdk.Storage.Adapter.{AuthStore, RateLimitBucket}
use tetrac_login_sdk.Storage.Kv.{JsonCodec, normalize_email}
use tetrac_login_sdk.Storage.Sql.{
  Statement, SqlDriver, consume_challenge, lock_challenge, select_user, select_session,
  select_holder, upsert_rate,
}
use tetrac_login_sdk.Storage.Sql.Engine.{
  sql_store, get_user, get_session, get_public_key_by_email, take_challenge, hit_rate_limit,
  count_hit, lock_and_delete, transaction, settle, attempt, bucket_app,
}
use tetrac_login_sdk.Storage.Conformance.{assert, repeated, pk_a, app1}
use tetrac_login_sdk.Storage.Conformance.Cases.{threw, assert_throws}

abbrev victim : RateLimitBucket
victim = record {
  endpoint = codes "login";
  app_id = some app1;
  identifier = codes "victim@example.com";
}

-- The five calls, each of which has to throw.
unfoldable pub fail_cases : {S : Type 0} → AuthStore S → List (Act S (Unit {0}))
unfolding assert_throws
fail_cases store =
    assert_throws (store.get_user app1 pk_a)
    ∷ assert_throws (store.get_session app1 (codes "hash-1"))
    ∷ assert_throws (store.get_public_key_by_email app1 (codes "a@example.com"))
    ∷ assert_throws (store.take_challenge app1 pk_a (repeated "a"))
    ∷ assert_throws (store.hit_rate_limit victim 60 5)
    ∷ []

module _ {S : Type 0} where
  -- An action that throws from every world.
  abbrev pub Throws : {A : Type 0} → Act S A → Type 0
  Throws m = (w : World S) → (e : Fault) × ((m w).0 ≡ err e)

  Throws-assert_throws :
      {A : Type 0} (m : Act S A) → Throws m → (w : World S) → (assert_throws m w).0 ≡ ok tt
  unfolding assert_throws threw assert ◌>>=◌
  Throws-assert_throws m h w = rw ((h w).1) refl

  Throws->>= : {A B : Type 0} (m : Act S A) (f : A → Act S B) → Throws m → Throws (m >>= f)
  unfolding ◌>>=◌
  Throws->>= m f h w = ((h w).0, rw ((h w).1) refl)

  Throws->> : {A B : Type 0} (m : Act S A) (n : Act S B) → Throws m → Throws (m >> n)
  unfolding ◌>>◌
  Throws->> m n h w = ((h w).0, rw ((h w).1) refl)

  -- A transaction throws when what runs in it does, whether or not it begins.
  transaction-Throws :
      {A : Type 0} (driver : SqlDriver S) (fn : Act S A)
      → Throws fn
      → Throws (transaction driver fn)
  unfolding transaction settle ◌>>=◌ ◌>>◌
  transaction-Throws {A} driver fn h w = begun (driver.begin w).1 (driver.begin w).0
    where
      begun :
          (v : World S) (r : Result Fault (Unit {0}))
          → (e : Fault) × ((continue r (λ _. attempt driver fn) v).0 ≡ err e)
      begun v (ok _) = ((h v).0, rw ((h v).1) refl)
      begun v (err e) = (e, refl)

module _ {S : Type 0} (p : Platform) (json : JsonCodec) (driver : SqlDriver S)
    (fails : (st : Statement) → Throws (driver.query st)) where
  lock_and_delete-Throws :
      (returning : Bool) (a k c : Text) (now : ℕ)
      → Throws (lock_and_delete p json driver returning a k c now)
  unfolding lock_and_delete ◌>>=◌
  lock_and_delete-Throws returning a k c now w =
      let (e, thrown) = fails (lock_challenge a k c now) w in (e, rw thrown refl)

  take_challenge-Throws :
      (returning : Bool) (a k c : Text) → Throws (take_challenge p json driver returning a k c)
  unfolding take_challenge ◌>>=◌
  take_challenge-Throws true a k c w =
      let (e, thrown) = fails (consume_challenge a k c w.now) w in (e, rw thrown refl)
  take_challenge-Throws false a k c w =
      transaction-Throws driver (lock_and_delete p json driver false a k c w.now)
        (lock_and_delete-Throws false a k c w.now) w

  count_hit-Throws :
      (returning : Bool) (b : RateLimitBucket) (now fresh : ℕ)
      → Throws (count_hit p json driver returning b now fresh)
  unfolding count_hit ◌>>=◌
  count_hit-Throws true b now fresh w =
      let (e, thrown) =
        fails (upsert_rate b.endpoint (bucket_app b) b.identifier now fresh true) w in
      (e, rw thrown refl)
  count_hit-Throws false b now fresh w =
      transaction-Throws driver _
        (Throws->> _ _ (fails (upsert_rate b.endpoint (bucket_app b) b.identifier now fresh false)))
        w

  hit_rate_limit-Throws :
      (returning : Bool) (b : RateLimitBucket) (window cap : ℕ)
      → Throws (hit_rate_limit p json driver returning b window cap)
  unfolding hit_rate_limit ◌>>=◌
  hit_rate_limit-Throws returning b window cap w =
      let (e, thrown) = count_hit-Throws returning b w.now (w.now + window * 1000) w in
      (e, rw thrown refl)

  get_user-Throws : (returning : Bool) (a k : Text) → Throws (get_user p json driver returning a k)
  unfolding get_user ◌>>=◌
  get_user-Throws returning a k w =
      let (e, thrown) = fails (select_user a k) w in (e, rw thrown refl)

  get_session-Throws :
      (returning : Bool) (a h : Text) → Throws (get_session p json driver returning a h)
  unfolding get_session ◌>>=◌
  get_session-Throws returning a h w =
      let (e, thrown) = fails (select_session a h w.now) w in (e, rw thrown refl)

  get_public_key_by_email-Throws :
      (returning : Bool) (a address : Text)
      → Throws (get_public_key_by_email p json driver returning a address)
  unfolding get_public_key_by_email ◌>>=◌
  get_public_key_by_email-Throws returning a address w =
      let (e, thrown) = fails (select_holder (normalize_email p address) a) w in (e, rw thrown refl)

  -- Over a driver whose queries all throw, whatever its transactions do, the SQL store passes every
  -- case of the suite on failing backends: a read that failed throws, and is never answered as
  -- absent, as not outstanding or as allowed.
  pub failing_driver_passes :
      (returning : Bool) (w : World S)
      → All (λ case. (case w).0 ≡ ok tt) (fail_cases (sql_store p json driver returning))
  unfolding fail_cases
  failing_driver_passes returning w = (
    Throws-assert_throws (get_user p json driver returning app1 pk_a)
        (get_user-Throws returning app1 pk_a) w,
    (
      Throws-assert_throws (get_session p json driver returning app1 (codes "hash-1"))
          (get_session-Throws returning app1 (codes "hash-1")) w,
      (
        Throws-assert_throws
            (get_public_key_by_email p json driver returning app1 (codes "a@example.com"))
            (get_public_key_by_email-Throws returning app1 (codes "a@example.com")) w,
        (
          Throws-assert_throws (take_challenge p json driver returning app1 pk_a (repeated "a"))
              (take_challenge-Throws returning app1 pk_a (repeated "a")) w,
          (
            Throws-assert_throws (hit_rate_limit p json driver returning victim 60 5)
                (hit_rate_limit-Throws returning victim 60 5) w,
            tt,
          ),
        ),
      ),
    ),
  )
