-- ===== src/Storage/Sql/Serves.antt =====
-- Drivers that serve a database: what the engine relies on of a driver, and what follows for the
-- operations of the store.
use tetrac_login_sdk.Prelude.{
  ℕ, ◌+◌, ◌≡◌, refl, sym, ap, Bool, true, false, Text, List, [], ◌∷◌, if◌then◌else◌, Result, ok,
  err,
}
use tetrac_login_sdk.Core.Platform.{Platform}
use tetrac_login_sdk.Effect.{World, Act, Fault, pure, continue, ◌>>=◌, ◌>>◌}
use tetrac_login_sdk.Storage.Kv.{JsonCodec}
use tetrac_login_sdk.Storage.Contract.{
  Operation, issue, consume, open_session, look_up, revoke, wait, Answer, done, was_outstanding,
  session, store_step, store_run,
}
use tetrac_login_sdk.Storage.Sql.{Statement, Row, SqlDriver}
use tetrac_login_sdk.Storage.Sql.Engine.{
  sql_store, clock, settle, attempt, transaction, lock_and_delete, put_challenge, take_challenge,
  put_session, get_session, delete_session, is_empty, not_empty, session_of,
}
use tetrac_login_sdk.Storage.Sql.Tables.{Db, database}

-- An action on the driver's world does what one on the database's does.
abbrev pub SameEffect :
    {S A : Type 0} → (World S → World Db) → Act S A → Act Db A → World S → Type 0
SameEffect view m m' w = ((m w).0 ≡ (m' (view w)).0) × (view (m w).1 ≡ (m' (view w)).1)

-- The driver answers each statement as SQL says of the tables that a view shows, its transactions
-- begin, commit and roll back, and time passes on both sides alike.
pub record Serves (S : Type 0) (driver : SqlDriver S) : Type 0 where
  pub view : World S → World Db
  pub now : (w : World S) → (view w).now ≡ w.now
  pub waits :
      (ms : ℕ) (w : World S)
      → view (record w { now = w.now + ms }) ≡ record (view w) { now = (view w).now + ms }
  pub answers :
      (st : Statement) (w : World S) → SameEffect view (driver.query st) (database.query st) w
  pub begins : (w : World S) → SameEffect view driver.begin database.begin w
  pub commits : (w : World S) → SameEffect view driver.commit database.commit w
  pub rolls_back : (w : World S) → SameEffect view driver.rollback database.rollback w

module _ {S : Type 0} {driver : SqlDriver S} (serves : Serves S driver) where
  pub record Simulates (A : Type 0) (m : Act S A) (m' : Act Db A) : Type 0 where
    pub at : (w : World S) → SameEffect serves.view m m' w

  pure-Simulates : {A : Type 0} (r : Result Fault A) → Simulates A (λ w. (r, w)) (λ w. (r, w))
  pure-Simulates r = record { at = λ w. (refl, refl) }

  query-Simulates : (st : Statement) → Simulates (List Row) (driver.query st) (database.query st)
  query-Simulates st = record { at = serves.answers st }

  clock-Simulates : Simulates ℕ clock clock
  clock-Simulates = record { at = λ w. (ap ok (sym (serves.now w)), refl) }

  module _ {A B : Type 0} where
    -- What comes after an action goes by its answer.
    Simulates-with :
        {m : Act S A} {m' : Act Db A} (g : Result Fault A → Act S B)
        (g' : Result Fault A → Act Db B)
        → Simulates A m m'
        → ((r : Result Fault A) → Simulates B (g r) (g' r))
        → Simulates B (λ w. g (m w).0 (m w).1) (λ w. g' (m' w).0 (m' w).1)
    Simulates-with {m} {m'} g g' sm sg = record {
      at = λ w. rw (sym (sm.at w).0, sym (sm.at w).1) ((sg (m w).0).at (m w).1);
    }

    Simulates->>= :
        {m : Act S A} {m' : Act Db A} {f : A → Act S B} {f' : A → Act Db B}
        → Simulates A m m'
        → ((a : A) → Simulates B (f a) (f' a))
        → Simulates B (m >>= f) (m' >>= f')
    unfolding ◌>>=◌
    Simulates->>= {m} {m'} {f} {f'} sm sf =
        Simulates-with (λ r. continue r f) (λ r. continue r f') sm cases
      where
        cases : (r : Result Fault A) → Simulates B (continue r f) (continue r f')
        cases (ok a) = record { at = (sf a).at }
        cases (err e) = record { at = λ w. (refl, refl) }

    Simulates->> :
        {m : Act S A} {m' : Act Db A} {n : Act S B} {n' : Act Db B}
        → Simulates A m m'
        → Simulates B n n'
        → Simulates B (m >> n) (m' >> n')
    unfolding ◌>>◌ ◌>>=◌
    Simulates->> {m} {m'} {n} {n'} sm sn =
        Simulates->>= {m = m} {m' = m'} {f = λ a. n} {f' = λ a. n'} sm (λ a. sn)

  either-Simulates :
      {A : Type 0} {m n : Act S A} {m' n' : Act Db A} (b : Bool)
      → Simulates A m m'
      → Simulates A n n'
      → Simulates A (if b then m else n) (if b then m' else n')
  either-Simulates true sm sn = sm
  either-Simulates false sm sn = sn

  settle-Simulates :
      {A : Type 0} (r : Result Fault A) → Simulates A (settle driver r) (settle database r)
  unfolding settle
  settle-Simulates (ok a) = record { at = λ w. (refl, refl) }
  settle-Simulates (err e) = record { at = λ w. (refl, (serves.rolls_back w).1) }

  transaction-Simulates :
      {A : Type 0} {fn : Act S A} {fn' : Act Db A}
      → Simulates A fn fn'
      → Simulates A (transaction driver fn) (transaction database fn')
  unfolding transaction
  transaction-Simulates {A} {fn} {fn'} sf =
      Simulates->> {m = driver.begin} {m' = database.begin} {n = attempt driver fn}
        {n' = attempt database fn'} (record { at = serves.begins })
        (record {
          at =
              (Simulates-with (settle driver) (settle database)
                (Simulates->>= {m = fn} {m' = fn'} sf (λ a.
                  Simulates->> {m = driver.commit} {m' = database.commit} {n = pure a} {n' = pure a}
                    (record { at = serves.commits }) (pure-Simulates (ok a))))
                settle-Simulates).at;
        })

  module _ (p : Platform) (json : JsonCodec) (returning : Bool) where
    lock_and_delete-Simulates :
        (a k c : Text) (now : ℕ)
        → Simulates Bool
            (lock_and_delete p json driver returning a k c now)
            (lock_and_delete p json database returning a k c now)
    unfolding lock_and_delete
    lock_and_delete-Simulates a k c now = Simulates->>= (query-Simulates _) (λ rows.
        either-Simulates (is_empty rows) (pure-Simulates (ok false))
          (Simulates->> (query-Simulates _) (pure-Simulates (ok true))))

    take_challenge-Simulates :
        (a k c : Text)
        → Simulates Bool
            (take_challenge p json driver returning a k c)
            (take_challenge p json database returning a k c)
    unfolding take_challenge
    take_challenge-Simulates a k c = Simulates->>= clock-Simulates (λ now.
        either-Simulates returning
          (Simulates->>= (query-Simulates _) (λ rows. pure-Simulates (ok (not_empty rows))))
          (transaction-Simulates (lock_and_delete-Simulates a k c now)))

    step-Simulates :
        (op : Operation)
        → Simulates Answer
            (store_step (sql_store p json driver returning) op)
            (store_step (sql_store p json database returning) op)
    unfolding store_step put_challenge put_session get_session delete_session
    step-Simulates (issue a k c seconds) =
        Simulates->>
          (Simulates->>= clock-Simulates
            (λ now. Simulates->> (query-Simulates _) (pure-Simulates (ok tt))))
          (pure-Simulates (ok done))
    step-Simulates (consume a k c) =
        Simulates->>= (take_challenge-Simulates a k c)
          (λ b. pure-Simulates (ok (was_outstanding b)))
    step-Simulates (open_session a h v seconds) =
        Simulates->>
          (Simulates->>= clock-Simulates
            (λ now. Simulates->> (query-Simulates _) (pure-Simulates (ok tt))))
          (pure-Simulates (ok done))
    step-Simulates (look_up a h) =
        Simulates->>=
          (Simulates->>= clock-Simulates (λ now.
            Simulates->>= (query-Simulates _) (λ rows. pure-Simulates (ok (session_of rows)))))
          (λ s. pure-Simulates (ok (session s)))
    step-Simulates (revoke a h) =
        Simulates->> (Simulates->> (query-Simulates _) (pure-Simulates (ok tt)))
          (pure-Simulates (ok done))
    step-Simulates (wait ms) = record { at = λ w. (refl, serves.waits ms w) }

    pub run-Simulates :
        (ops : List Operation)
        → Simulates
            (List Answer)
            (store_run (sql_store p json driver returning) ops)
            (store_run (sql_store p json database returning) ops)
    unfolding store_run
    run-Simulates [] = pure-Simulates (ok [])
    run-Simulates (op ∷ ops) =
        Simulates->>= (step-Simulates op)
          (λ a. Simulates->>= (run-Simulates ops) (λ answers. pure-Simulates (ok (a ∷ answers))))
