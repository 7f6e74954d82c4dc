-- ===== src/Storage/Sql/RateLimit.antt =====
-- `hitRateLimit` (storage/sql/engine.ts) over a database: the fixed window it keeps.
use tetrac_login_sdk.Prelude.{
  ℕ, ◌+◌, ◌-◌, ◌*◌, ◌≤◌, ◌<◌, ◌≡◌, refl, ap, ◌∙◌, Bool, true, false, Option, none, some, List, [],
  ◌∷◌, map, length, text_eq_refl, ltb, leb, if◌then◌else◌, Result, ok, All, arith,
}
use tetrac_login_sdk.Core.Platform.{Platform}
use tetrac_login_sdk.Effect.{World, Fault, ◌>>=◌, ◌>>◌}
use tetrac_login_sdk.Storage.Adapter.{RateLimitBucket, RateLimitResult}
use tetrac_login_sdk.Storage.Kv.{JsonCodec}
use tetrac_login_sdk.Storage.Sql.{count_row}
use tetrac_login_sdk.Storage.Sql.Engine.{
  hit_rate_limit, count_hit, count_or_fail_closed, bucket_app, transaction, settle, first,
}
use tetrac_login_sdk.Storage.Sql.Tables.{
  Db, Rate, database, execute, query, begin, commit, is_rate, bump, count_column,
}
use tetrac_login_sdk.Storage.Sql.Query.{rows_where, find, find-upsert, upsert}
use tetrac_login_sdk.Storage.Sql.Lookups.{first-rows_where}

module _ (p : Platform) (json : JsonCodec) (returning : Bool) (bucket : RateLimitBucket)
    (seconds max_attempts : ℕ) where
  abbrev mine : Rate → Bool
  mine = is_rate bucket.endpoint (bucket_app bucket) bucket.identifier

  -- The bucket's row.
  abbrev pub stored : World Db → Option Rate
  stored w = find mine w.state.tables.rates

  abbrev fresh_row : ℕ → Rate
  fresh_row now = record {
    endpoint = bucket.endpoint;
    app_id = bucket_app bucket;
    identifier = bucket.identifier;
    count = 1;
    expires_at = now + seconds * 1000;
  }

  abbrev next_row : ℕ → Option Rate → Rate
  next_row now none = fresh_row now
  next_row now (some r) = bump now (now + seconds * 1000) r

  abbrev pub hit : World Db → Result Fault RateLimitResult × World Db
  hit w = hit_rate_limit p json database returning bucket seconds max_attempts w

  abbrev pub decision : ℕ → RateLimitResult
  decision n = record { allowed = leb n max_attempts; remaining = max_attempts - n }

  upserted :
      (now : ℕ) (t : List Rate)
      → find mine (upsert mine (bump now (now + seconds * 1000)) (fresh_row now) t)
        ≡ some (next_row now (find mine t))
  upserted now t =
      find-upsert mine (bump now (now + seconds * 1000)) (λ r h. h) (fresh_row now) t
        (rw
          (
            text_eq_refl bucket.endpoint,
            text_eq_refl (bucket_app bucket),
            text_eq_refl bucket.identifier,
          )
          refl)
      ∙ ap some (form (find mine t))
    where
      form :
          (o : Option Rate)
          → (elim o [ none ↦ fresh_row now | some r ↦ bump now (now + seconds * 1000) r ])
            ≡ next_row now o
      form none = refl
      form (some r) = refl

  abbrev after : World Db → List Rate
  after w = upsert mine (bump w.now (w.now + seconds * 1000)) (fresh_row w.now) w.state.tables.rates

  answered :
      (w : World Db)
      → first (map count_column (rows_where mine (after w)))
        ≡ some (count_row (some (next_row w.now (stored w)).count))
  answered w =
      first-rows_where mine count_column (after w) ∙ rw (upserted w.now w.state.tables.rates) refl

  -- A hit answers by the count of the row that it leaves.
  abbrev Counts : Bool → World Db → Type 0
  Counts b w =
      ((hit_rate_limit p json database b bucket seconds max_attempts w).0
        ≡ ok (decision (next_row w.now (stored w)).count))
      × (stored (hit_rate_limit p json database b bucket seconds max_attempts w).1
          ≡ some (next_row w.now (stored w)))

  hit-Counts : (b : Bool) (w : World Db) → Counts b w
  unfolding hit_rate_limit count_hit count_or_fail_closed ◌>>=◌ ◌>>◌ transaction settle query
      execute begin commit
  hit-Counts true w = rw (answered w) (refl, upserted w.now w.state.tables.rates)
  hit-Counts false w = rw (answered w) (refl, upserted w.now w.state.tables.rates)

  -- The same at a time.
  abbrev pub at : ℕ → World Db → World Db
  at t w = record w { now = t }

  -- The hits of a bucket at the times of a list, in order.
  unfoldable pub run : List ℕ → World Db → World Db
  run [] w = w
  run (t ∷ ts) w = run ts (hit (at t w)).1

  abbrev pub deadline : ℕ → ℕ
  deadline start = start + seconds * 1000

  -- A row of the window that was opened at `start`.
  abbrev counting : ℕ → ℕ → Rate → Rate
  counting start n r = record r { count = n; expires_at = deadline start }

  run_in_window :
      (start : ℕ) (ts : List ℕ) (w : World Db) (r : Rate) (n : ℕ)
      → stored w ≡ some (counting start n r)
      → All (λ t. t < deadline start) ts
      → stored (run ts w) ≡ some (counting start (n + length ts) r)
  unfolding run
  run_in_window start [] w r n h early = h ∙ ap (λ m. some (counting start m r)) (omega arith)
  run_in_window start (t ∷ ts) w r n h early =
      let step : some (bump t (t + seconds * 1000) (counting start n r))
          ≡ some (counting start (n + 1) r) =
        ground (arith, early.0) in
      let next : stored (hit (at t w)).1 ≡ some (counting start (n + 1) r) =
        (hit-Counts returning (at t w)).1 ∙ rw h step in
      run_in_window start ts (hit (at t w)).1 r (n + 1) next early.1
      ∙ ap (λ m. some (counting start m r)) (omega arith)

  -- A bucket with no row, or with one that has expired.
  abbrev pub IsFresh : ℕ → Option Rate → Type 0
  IsFresh now none = Unit
  IsFresh now (some r) = r.expires_at ≤ now

  -- The first hit of a window stamps its deadline and no later hit moves it, however many there are:
  -- after the hits of `ts` before the deadline, a hit is the one of number 2 + the length of `ts`
  -- before the deadline and the first of a new window from the deadline on, and it is allowed while
  -- its number is at most the cap.
  pub fixed_window :
      (w : World Db) (start : ℕ) (ts : List ℕ) (t : ℕ)
      → IsFresh start (stored w)
      → All (λ s. s < deadline start) ts
      → (hit (at t (run (start ∷ ts) w))).0
        ≡ ok (decision (if ltb t (deadline start) then length ts + 2 else 1))
  unfolding run
  fixed_window w start ts t fresh early =
      let r = next_row start (stored w) in
      let opened : stored (hit (at start w)).1 ≡ some (counting start 1 r) =
        (hit-Counts returning (at start w)).1 ∙ opens (stored w) fresh in
      let counted = run_in_window start ts (hit (at start w)).1 r 1 opened early in
      (hit-Counts returning (at t (run (start ∷ ts) w))).0
      ∙ rw counted (ap (λ n. ok (decision n)) number)
    where
      opens :
          (o : Option Rate)
          → IsFresh start o
          → some (next_row start o) ≡ some (counting start 1 (next_row start o))
      opens none fresh = refl
      opens (some r) fresh = ground arith

      number :
          (if leb (deadline start) t then 1 else 1 + length ts + 1)
          ≡ (if ltb t (deadline start) then length ts + 2 else 1)
      number = ground arith
