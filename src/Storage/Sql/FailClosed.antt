-- ===== src/Storage/Sql/FailClosed.antt =====
-- `getUser` and `hitRateLimit` (storage/sql/engine.ts) over an arbitrary driver, whatever it answers.
use tetrac_login_sdk.Prelude.{
  ℕ, ◌+◌, ◌-◌, ◌*◌, ◌≡◌, refl, ap, ◌∙◌, Bool, true, false, Option, none, some, List, ◌∷◌, Text, leb,
  Result, ok, err, arith,
}
use tetrac_login_sdk.Core.Platform.{Platform}
use tetrac_login_sdk.Core.Types.{UserData}
use tetrac_login_sdk.Effect.{
  World, Act, Fault, parse_error, continue, pure, throw, ◌>>=◌, ◌>>◌, >>=-eq_ok, >>-eq_ok,
}
use tetrac_login_sdk.Storage.Adapter.{RateLimitBucket, RateLimitResult}
use tetrac_login_sdk.Storage.Kv.{JsonCodec, lift}
use tetrac_login_sdk.Storage.Sql.{
  Statement, select_user, select_wallets, upsert_rate, select_count, Row, user_row, count_row,
  SqlDriver,
}
use tetrac_login_sdk.Storage.Sql.Engine.{
  first, bucket_app, get_user, read_user, read_wallets_of, assemble, hit_rate_limit, count_hit,
  count_or_fail_closed, transaction, settle, attempt,
}

-- A row of `users` with its data.
abbrev pub has_data : Option Row → Bool
has_data (some (user_row (some text) token)) = true
has_data _ = false

module _ {S : Type 0} (p : Platform) (json : JsonCodec) (driver : SqlDriver S)
    (returning : Bool) where
  assembled :
      (token : Option Text) (user : UserData) (rows : List Row)
      → assemble p json driver returning token user rows ≡ ok none
      → ⊥
  unfolding assemble
  assembled token user rows h = ground arith

  read :
      (app_id pk : Text) (row : Option Row) (w v : World S)
      → read_user p json driver returning app_id pk row w ≡ (ok none, v)
      → has_data row ≡ false
  unfolding read_user read_wallets_of
  read app_id pk (some (user_row (some text) token)) w v h = absurd (at (json.parse_profile text) h)
    where
      at :
          (o : Option UserData)
          → (elim o as (λ _. Act S (Option UserData)) [
            | none ↦ throw parse_error
            | some user ↦
                (driver.query (select_wallets app_id pk) >>= λ rows.
                lift (assemble p json driver returning token user rows))
          ])
              w
            ≡ (ok none, v)
          → ⊥
      at none h = ground arith
      at (some user) h =
          let (rows, u, asked, answered) =
            >>=-eq_ok (driver.query (select_wallets app_id pk))
              (λ rows. lift (assemble p json driver returning token user rows)) w h in
          assembled token user rows (ap (λ r. r.0) answered)
  read app_id pk _ w v h = refl

  -- `getUser` answers that a record is absent only where the backend has answered the query of
  -- `users`, with no row or with a row without data. A query that throws, a record or a wallet that
  -- does not parse are never an absent record.
  get_user_absent :
      (app_id pk : Text) (w : World S)
      → (get_user p json driver returning app_id pk w).0 ≡ ok none
      → (rows : List Row) × (u : World S) × (driver.query (select_user app_id pk) w ≡ (ok rows, u))
        × (has_data (first rows) ≡ false)
  unfolding get_user
  get_user_absent app_id pk w h =
      let (rows, u, asked, answered) =
        >>=-eq_ok (driver.query (select_user app_id pk))
          (λ rows. read_user p json driver returning app_id pk (first rows)) w
          {v = (get_user p json driver returning app_id pk w).1}
          (ap (λ r. (r, (get_user p json driver returning app_id pk w).1)) h) in
      (rows, u, asked, read app_id pk (first rows) u _ answered)

  -- Some query of the driver has answered a first row with the count.
  abbrev pub Answered : ℕ → Type 0
  Answered n =
      (st : Statement) × (u v : World S) × (rest : List Row) × (driver.query st u
        ≡ (ok (count_row (some n) ∷ rest), v))

  counted_rows :
      (st : Statement) (n : ℕ) (u v : World S) (rows : List Row)
      → driver.query st u ≡ (ok rows, v)
      → count_or_fail_closed (first rows) ≡ ok n
      → Answered n
  unfolding count_or_fail_closed
  counted_rows st n u v (count_row (some m) ∷ rest) asked h =
      (st, u, v, rest, asked ∙ ap (λ k. (ok (count_row (some k) ∷ rest), v)) (ground arith))
  counted_rows st n u v _ asked h = absurd (ground arith)

  asked_count :
      (st : Statement) (n : ℕ) (w v : World S)
      → (driver.query st >>= λ rows. lift (count_or_fail_closed (first rows))) w ≡ (ok n, v)
      → Answered n
  asked_count st n w v h =
      let (rows, u, asked, answered) =
        >>=-eq_ok (driver.query st) (λ rows. lift (count_or_fail_closed (first rows))) w h in
      counted_rows st n w u rows asked (ap (λ r. r.0) answered)

  committed :
      {A : Type 0} (fn : Act S A) (u v : World S) {a : A}
      → (fn >>= λ b. driver.commit >> pure b) u ≡ (ok a, v)
      → (y : World S) × (fn u ≡ (ok a, y))
  committed fn u v h =
      let (b, y, returned, rest) = >>=-eq_ok fn (λ b. driver.commit >> pure b) u h in
      let (x, z, done, same) = >>-eq_ok driver.commit (pure b) y rest in
      (y, returned ∙ ap (λ r. (r, y)) (ap (λ r. r.0) same))

  -- What a transaction returns, its body has returned.
  transaction_returns :
      {A : Type 0} (fn : Act S A) (w v : World S) {a : A}
      → transaction driver fn w ≡ (ok a, v)
      → (u : World S) × (y : World S) × (fn u ≡ (ok a, y))
  unfolding transaction settle
  transaction_returns {A} fn w v {a} h =
      let (x, u, begun, rest) = >>-eq_ok driver.begin (attempt driver fn) w h in
      let (y, returned) = at u ((fn >>= λ b. driver.commit >> pure b) u) refl rest in
      (u, y, returned)
    where
      at :
          (u : World S) (r : Result Fault A × World S)
          → (fn >>= λ b. driver.commit >> pure b) u ≡ r
          → settle driver r.0 r.1 ≡ (ok a, v)
          → (y : World S) × (fn u ≡ (ok a, y))
      at u (ok b, z) e h = committed fn u z (e ∙ ap (λ s. (s, z)) (ap (λ s. s.0) h))
      at u (err f, z) e h = absurd (ground arith)

  count_hit-Answered :
      (b : Bool) (bucket : RateLimitBucket) (now fresh n : ℕ) (w v : World S)
      → count_hit p json driver b bucket now fresh w ≡ (ok n, v)
      → Answered n
  unfolding count_hit
  count_hit-Answered true bucket now fresh n w v h =
      asked_count (upsert_rate bucket.endpoint (bucket_app bucket) bucket.identifier now fresh true)
        n w v h
  count_hit-Answered false bucket now fresh n w v h =
      let up = upsert_rate bucket.endpoint (bucket_app bucket) bucket.identifier now fresh false in
      let back = select_count bucket.endpoint (bucket_app bucket) bucket.identifier in
      let reading : Act S ℕ =
        driver.query back >>= λ rows. lift (count_or_fail_closed (first rows)) in
      let (u, y, returned) = transaction_returns (driver.query up >> reading) w v h in
      let (x, z, upserted, read_back) = >>-eq_ok (driver.query up) reading u returned in
      asked_count back n z y read_back

  -- `hitRateLimit` decides only by a count that the backend has answered: where it does not throw, the
  -- last answer of its queries holds a usable count, and the decision is that count's.
  hit_counted :
      (bucket : RateLimitBucket) (seconds max_attempts : ℕ) (w : World S) {r : RateLimitResult}
      → (hit_rate_limit p json driver returning bucket seconds max_attempts w).0 ≡ ok r
      → (n : ℕ) × Answered n
        × (r ≡ record { allowed = leb n max_attempts; remaining = max_attempts - n })
  unfolding hit_rate_limit ◌>>=◌
  hit_counted bucket seconds max_attempts w {r} h =
      at (count_hit p json driver returning bucket w.now (w.now + seconds * 1000) w) refl h
    where
      at :
          (c : Result Fault ℕ × World S)
          → count_hit p json driver returning bucket w.now (w.now + seconds * 1000) w ≡ c
          → (continue c.0
              (λ n. pure (record { allowed = leb n max_attempts; remaining = max_attempts - n }))
              c.1).0
            ≡ ok r
          → (n : ℕ) × Answered n
            × (r ≡ record { allowed = leb n max_attempts; remaining = max_attempts - n })
      at (ok n, v) e h = (
        n,
        count_hit-Answered returning bucket w.now (w.now + seconds * 1000) n w v e,
        ground arith,
      )
      at (err x, v) e h = absurd (ground arith)
