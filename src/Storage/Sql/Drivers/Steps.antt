-- ===== src/Storage/Sql/Drivers/Steps.antt =====
-- A pool (storage/sql/drivers.ts) as a driver in the steps that `SqlDriver` has for transactions.
use tetrac_login_sdk.Prelude.{◌≡◌, refl, Option, none, some, List, Result, ok, err}
use tetrac_login_sdk.Effect.{World, Act, Fault, backend_failed, pure, throw, continue, ◌>>=◌, ◌>>◌}
use tetrac_login_sdk.Storage.Sql.{Statement, Row, SqlDriver}
use tetrac_login_sdk.Storage.Sql.Engine.{transaction, settle, attempt}
use tetrac_login_sdk.Storage.Sql.Drivers.{Pool, finally, undo, on_connection, pool_transaction}

module _ {S : Type 0} (pool : Pool S) where
  -- What is left to do where BEGIN or COMMIT throws, and where it does not.
  abbrev failed_begin : Result Fault (Unit {0}) → Act S (Unit {0})
  failed_begin (ok _) w = (ok tt, w)
  failed_begin (err e) w = finally pool.release (err e) (pool.rollback w).1

  abbrev done_commit : Result Fault (Unit {0}) → Act S (Unit {0})
  done_commit (ok _) w = finally pool.release (ok tt) w
  done_commit (err e) w = (err e, w)

  abbrev checked_out : Act S (Unit {0}) → Act S (Unit {0})
  checked_out connect = connect >> (λ w. let b = pool.begin w in failed_begin b.0 b.1)

  -- The checkout and BEGIN, which is rolled back where it throws; COMMIT and ROLLBACK give the
  -- connection back.
  abbrev pub pool_driver : (Statement → Act S (List Row)) → SqlDriver S
  pool_driver query = record {
    query = query;
    begin = elim pool.connect [ none ↦ throw backend_failed | some connect ↦ checked_out connect ];
    commit = λ w. let r = pool.commit w in done_commit r.0 r.1;
    rollback = λ w. finally pool.release (ok tt) (pool.rollback w).1;
  }

  module _ {A : Type 0} (query : Statement → Act S (List Row))
      (releases : (w : World S) → (pool.release w).0 ≡ ok tt) where
    -- The end of a transaction on a connection, and of one in steps.
    abbrev closing : Result Fault A × World S → Result Fault A × World S
    closing r = let u = undo pool r.0 r.1 in finally pool.release u.0 u.1

    abbrev stepping : Result Fault A × World S → Result Fault A × World S
    stepping r = settle (pool_driver query) r.0 r.1

    closing_thrown : (e : Fault) (v : World S) → closing (err e, v) ≡ stepping (err e, v)
    unfolding undo finally settle
    closing_thrown e v = rw (releases (pool.rollback v).1) refl

    closing_commit :
        (a : A) (c : Result Fault (Unit {0})) (v : World S)
        → closing (continue c (λ _. pure a) v)
          ≡ stepping (continue (done_commit c v).0 (λ _. pure a) (done_commit c v).1)
    unfolding undo finally settle
    closing_commit a (ok _) v = rw (releases v) refl
    closing_commit a (err e) v = closing_thrown e v

    closing_callback :
        (r : Result Fault A) (v : World S)
        → closing (continue r (λ a. pool.commit >> pure a) v)
          ≡ stepping (continue r (λ a. (pool_driver query).commit >> pure a) v)
    unfolding ◌>>◌
    closing_callback (ok a) v = closing_commit a (pool.commit v).0 (pool.commit v).1
    closing_callback (err e) v = closing_thrown e v

    closing_begin :
        (fn : Act S A) (b : Result Fault (Unit {0})) (v : World S)
        → closing (continue b (λ _. fn >>= λ a. pool.commit >> pure a) v)
          ≡ continue (failed_begin b v).0 (λ _. attempt (pool_driver query) fn) (failed_begin b v).1
    unfolding ◌>>=◌ undo finally
    closing_begin fn (ok _) v = closing_callback (fn v).0 (fn v).1
    closing_begin fn (err e) v = rw (releases (pool.rollback v).1) refl

    by_connect :
        (fn : Act S A) (k : Result Fault (Unit {0})) (v : World S)
        → continue k (λ _. on_connection pool fn) v ≡ (
            let r = continue k (λ _ w. let b = pool.begin w in failed_begin b.0 b.1) v in
            continue r.0 (λ _. attempt (pool_driver query) fn) r.1)
    unfolding on_connection ◌>>◌
    by_connect fn (ok _) v = closing_begin fn (pool.begin v).0 (pool.begin v).1
    by_connect fn (err e) v = refl

  -- Where the release does not throw, a transaction of a pool is one in these steps, whatever the
  -- checkout, BEGIN, the callback, COMMIT and ROLLBACK do.
  pool_transaction_lem :
      {A : Type 0} (query : Statement → Act S (List Row))
      → ((w : World S) → (pool.release w).0 ≡ ok tt)
      → (fn : Act S A) (w : World S)
      → pool_transaction pool fn w ≡ transaction (pool_driver query) fn w
  unfolding pool_transaction transaction ◌>>◌ ◌>>=◌
  pool_transaction_lem {A} query releases fn w = by_client pool.connect
    where
      by_client :
          (o : Option (Act S (Unit {0})))
          → (elim o as (λ _. Act S A) [
            | none ↦ throw backend_failed
            | some connect ↦ connect >> on_connection pool fn
          ])
              w
            ≡ (let r =
                  (elim o as (λ _. Act S (Unit {0})) [
                    | none ↦ throw backend_failed
                    | some connect ↦ checked_out connect
                  ])
                    w in
                continue r.0 (λ _. attempt (pool_driver query) fn) r.1)
      by_client none = refl
      by_client (some connect) = by_connect query releases fn (connect w).0 (connect w).1
