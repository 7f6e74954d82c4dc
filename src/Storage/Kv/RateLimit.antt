-- ===== src/Storage/Kv/RateLimit.antt =====
-- `hitRateLimit` (storage/store.ts) over the in-memory adapter: the fixed window it keeps.
use tetrac_login_sdk.Prelude.{
  ℕ, suc, ◌+◌, ◌-◌, ◌*◌, ◌≤◌, ◌<◌, ◌≡◌, refl, ap, ◌∙◌, Bool, true, ◌||◌, Option, none, some, List,
  [], ◌∷◌, Text, length, text_eq_refl, leb, ◌==◌, if◌then◌else◌, Result, ok, All, Bool-cases, inl,
  inr, arith,
}
use tetrac_login_sdk.Core.Platform.{Platform}
use tetrac_login_sdk.Core.Config.{KeyPrefixes}
use tetrac_login_sdk.Effect.{World, Fault}
use tetrac_login_sdk.Storage.Map.{lookup}
use tetrac_login_sdk.Storage.Decimal.{to_decimal, parse_int-to_decimal}
use tetrac_login_sdk.Storage.Adapter.{RateLimitBucket, RateLimitResult}
use tetrac_login_sdk.Storage.Memory.{
  Entry, Memory, memory_adapter, is_expired, count_of, expiry_of, incr,
}
use tetrac_login_sdk.Storage.Memory.Laws.{
  live, unless_expired, counted, incr_lem, live-incr, live-expire, lookup_of_live, now-incr,
  expire_ok,
}
use tetrac_login_sdk.Storage.Kv.{JsonCodec, rate_limit_key, hit_rate_limit, stamp_window}

module _ (p : Platform) (json : JsonCodec) (prefixes : KeyPrefixes) (bucket : RateLimitBucket)
    (seconds max_attempts : ℕ) where
  -- A window is never of no length.
  abbrev window : ℕ
  window = suc seconds

  abbrev key : Text
  key = rate_limit_key prefixes bucket

  abbrev pub hit : World Memory → Result Fault RateLimitResult × World Memory
  hit w = hit_rate_limit p json memory_adapter prefixes bucket window max_attempts w

  -- The count that a hit brings a live entry to.
  abbrev pub count_at : Option Entry → ℕ
  count_at e = count_of e + 1

  abbrev pub stamps : ℕ → Bool
  stamps count = (count == 1) || (count == max_attempts + 1)

  -- The entry that a hit leaves: the deadline is set by the first hit and by the first one too many.
  abbrev pub next_entry : ℕ → Option Entry → Entry
  next_entry now e = record {
    value = to_decimal (count_at e);
    expires_at = if stamps (count_at e) then some (now + window * 1000) else expiry_of e;
  }

  stamp_ok :
      (count : ℕ) (w : World Memory)
      → (stamp_window p json memory_adapter prefixes key window max_attempts count w).0 ≡ ok tt
  unfolding stamp_window
  stamp_ok count w = ground (arith, expire_ok key window w)

  -- The counter is live after it was incremented.
  live-counted : (w : World Memory) → live key (incr key w).1 ≡ some (counted (live key w))
  live-counted w = live-incr key w key ∙ rw (text_eq_refl key)

  live-stamp :
      (w : World Memory)
      → live key
          (stamp_window p json memory_adapter prefixes key window max_attempts
            (count_at (live key w))
            (incr key w).1).1
        ≡ some (next_entry w.now (live key w))
  unfolding stamp_window
  live-stamp w =
      let fresh = live-expire key (incr key w).1 seconds key in
      ground (arith, fresh, live-counted w, now-incr key w, text_eq_refl key)

  decision : ℕ → RateLimitResult
  decision count = record { allowed = leb count max_attempts; remaining = max_attempts - count }

  hit_steps :
      (w : World Memory)
      → ((hit w).0 ≡ ok (decision (count_at (live key w))))
        × (live key (hit w).1 ≡ some (next_entry w.now (live key w)))
  unfolding hit_rate_limit decision
  hit_steps w =
      rw (incr_lem key w)
        (rw (stamp_ok (count_at (live key w)) _) (refl, rw (incr_lem key w) at (live-stamp w)))

  -- A hit at a time, from the world that the earlier hits left.
  abbrev pub at : ℕ → World Memory → World Memory
  at t w = record w { now = t }

  -- The hits of a bucket at the times of a list, in order.
  unfoldable pub run : List ℕ → World Memory → World Memory
  run [] w = w
  run (t ∷ ts) w = run ts (hit (at t w)).1

  -- The stored entry of the bucket.
  abbrev pub stored : World Memory → Option Entry
  stored w = lookup key w.state.store

  stored-hit : (w : World Memory) → stored (hit w).1 ≡ some (next_entry w.now (live key w))
  stored-hit w = lookup_of_live key (hit w).1 (next_entry w.now (live key w)) (hit_steps w).1

  -- A counter past the cap keeps its deadline: no hit before the deadline moves it.
  over_keeps :
      (w : World Memory) (t deadline count : ℕ)
      → stored w ≡ some (record { value = to_decimal count; expires_at = some deadline })
      → max_attempts < count
      → t < deadline
      → stored (hit (at t w)).1
        ≡ some (record { value = to_decimal (count + 1); expires_at = some deadline })
  unfolding live unless_expired is_expired
  over_keeps w t deadline count h over early =
      stored-hit (at t w) ∙ (rw h (ground (arith, parse_int-to_decimal count)))

  over_run :
      (ts : List ℕ) (w : World Memory) (deadline count : ℕ)
      → stored w ≡ some (record { value = to_decimal count; expires_at = some deadline })
      → max_attempts < count
      → All (λ t. t < deadline) ts
      → (c : ℕ) × (stored (run ts w)
          ≡ some (record { value = to_decimal c; expires_at = some deadline }))
  unfolding run
  over_run [] w deadline count h over early = (count, h)
  over_run (t ∷ ts) w deadline count h over early =
      over_run ts (hit (at t w)).1 deadline (count + 1)
        (over_keeps w t deadline count h over early.0) (omega arith) early.1

  -- An identifier past the cap is let in again at its deadline, however often it was hit before:
  -- the hits in between cannot move the deadline.
  pub recovers :
      (w : World Memory) (ts : List ℕ) (deadline count t : ℕ)
      → stored w ≡ some (record { value = to_decimal count; expires_at = some deadline })
      → max_attempts < count
      → All (λ s. s < deadline) ts
      → deadline ≤ t
      → 1 ≤ max_attempts
      → (hit (at t (run ts w))).0 ≡ ok (record { allowed = true; remaining = max_attempts - 1 })
  unfolding decision live unless_expired is_expired
  recovers w ts deadline count t h over early late some_attempts =
      let (c, stays) = over_run ts w deadline count h over early in
      (hit_steps (at t (run ts w))).0 ∙ rw stays (ground arith)

  -- The times of a window that the first hit opened at `start`.
  abbrev pub Within : ℕ → ℕ → Type 0
  Within start t = (start ≤ t) × (t < start + window * 1000)

  step_in_window :
      (w : World Memory) (start t count deadline : ℕ)
      → stored w ≡ some (record { value = to_decimal count; expires_at = some deadline })
      → 1 ≤ count
      → start + window * 1000 ≤ deadline
      → Within start t
      → (d : ℕ) × (start + window * 1000 ≤ d)
        × (stored (hit (at t w)).1
            ≡ some (record { value = to_decimal (count + 1); expires_at = some d }))
  unfolding live unless_expired is_expired
  step_in_window w start t count deadline h some_hits late within =
      elim (Bool-cases (count + 1 == max_attempts + 1)) [
        | inl last ↦ (
          t + window * 1000,
          omega arith,
          stored-hit (at t w) ∙ (rw h (ground (arith, parse_int-to_decimal count))),
        )
        | inr other ↦ (
          deadline,
          late,
          stored-hit (at t w) ∙ (rw h (ground (arith, parse_int-to_decimal count))),
        )
      ]

  run_in_window :
      (ts : List ℕ) (w : World Memory) (start count deadline : ℕ)
      → stored w ≡ some (record { value = to_decimal count; expires_at = some deadline })
      → 1 ≤ count
      → start + window * 1000 ≤ deadline
      → All (Within start) ts
      → (d : ℕ) × (start + window * 1000 ≤ d)
        × (stored (run ts w)
            ≡ some (record { value = to_decimal (count + length ts); expires_at = some d }))
  unfolding run
  run_in_window [] w start count deadline h some_hits late within = (
    deadline,
    late,
    h ∙ ap (λ n. some (record { value = to_decimal n; expires_at = some deadline })) (omega arith),
  )
  run_in_window (t ∷ ts) w start count deadline h some_hits late within =
      let (d, later, step) = step_in_window w start t count deadline h some_hits late within.0 in
      let (d', latest, rest) =
        run_in_window ts (hit (at t w)).1 start (count + 1) d step (omega arith) later within.1 in
      (
        d',
        latest,
        rest ∙ ap (λ n. some (record { value = to_decimal n; expires_at = some d' })) (omega arith),
      )

  counted_by :
      (w : World Memory) (n d t : ℕ)
      → stored w ≡ some (record { value = to_decimal (1 + n); expires_at = some d })
      → t < d
      → (hit (at t w)).0 ≡ ok (decision (n + 2))
  unfolding live unless_expired is_expired
  counted_by w n d t h early =
      (hit_steps (at t w)).0 ∙ (rw h (ground (arith, parse_int-to_decimal (1 + n))))

  -- Within a window every hit is decided by its number: the hit after the first and those of `ts`
  -- is the one of number 2 + the length of `ts`, and is allowed while that is at most the cap.
  pub decided_by_number :
      (w : World Memory) (start : ℕ) (ts : List ℕ) (t : ℕ)
      → live key (at start w) ≡ none
      → All (Within start) ts
      → Within start t
      → (hit (at t (run (start ∷ ts) w))).0
        ≡ ok (record {
          allowed = leb (length ts + 2) max_attempts;
          remaining = max_attempts - (length ts + 2);
        })
  unfolding run decision live
  decided_by_number w start ts t fresh within last =
      let first : stored (hit (at start w)).1
          ≡ some (record { value = to_decimal 1; expires_at = some (start + window * 1000) }) =
        stored-hit (at start w) ∙ rw fresh (ground arith) in
      let (d, later, counted_all) =
        run_in_window ts (hit (at start w)).1 start 1 (start + window * 1000) first (omega arith)
          (omega arith) within in
      counted_by (run ts (hit (at start w)).1) (length ts) d t counted_all (omega arith)
