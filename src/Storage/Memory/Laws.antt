-- ===== src/Storage/Memory/Laws.antt =====
-- The adapter through its live entries: an expired key reads as an absent one everywhere.
use tetrac_login_sdk.Prelude.{
  ℕ, zero, suc, ◌+◌, ◌*◌, ◌≡◌, refl, ◌∙◌, Option, none, some, Text, text_eq, text_eq_iff,
  if◌then◌else◌, ok, arith,
}
use tetrac_login_sdk.Effect.{World}
use tetrac_login_sdk.Storage.Map.{lookup, lookup-insert, lookup-remove}
use tetrac_login_sdk.Storage.Decimal.{to_decimal}
use tetrac_login_sdk.Storage.Memory.{
  Entry, Memory, is_expired, put_entry, drop_entry, alive, value_of, deadline, get, set, del, incr,
  expire, getdel, count_of, expiry_of, store_count, stamp, delete_key,
}

unfoldable pub unless_expired : ℕ → Option Entry → Option Entry
unless_expired now none = none
unless_expired now (some e) = if is_expired e.expires_at now then none else some e

-- The entry that a read of the key sees.
unfoldable pub live : Text → World Memory → Option Entry
live key w = unless_expired w.now (lookup key w.state.store)

-- The world a read leaves: an expired entry of its key is gone.
unfoldable pub purged : Text → World Memory → World Memory
unfolding alive
purged key w = (alive key w).1

module _ (key : Text) (w : World Memory) where
  pub alive_lem : alive key w ≡ (ok (live key w), purged key w)
  unfolding alive live unless_expired purged
  alive_lem = ground arith

  pub now-purged : (purged key w).now ≡ w.now
  unfolding purged
  now-purged = ground arith

  pub draws-purged : (purged key w).draws ≡ w.draws
  unfolding purged
  draws-purged = ground arith

  pub hstore-purged : (purged key w).state.hstore ≡ w.state.hstore
  unfolding purged
  hstore-purged = ground arith

  -- Dropping an expired entry changes no live entry.
  pub live-purged : (j : Text) → live j (purged key w) ≡ live j w
  unfolding live unless_expired purged
  live-purged j = ground (arith, lookup-remove j key w.state.store, text_eq_iff key j)

  live-put :
      (e : Entry) (j : Text)
      → live j (put_entry key e w)
        ≡ (if text_eq key j then unless_expired w.now (some e) else live j w)
  unfolding live put_entry unless_expired
  live-put e j = ground (arith, lookup-insert j key e w.state.store)

  live-drop : (j : Text) → live j (drop_entry key w) ≡ (if text_eq key j then none else live j w)
  unfolding live drop_entry unless_expired
  live-drop j = ground (arith, lookup-remove j key w.state.store)

  pub get_lem : get key w ≡ (ok (value_of (live key w)), purged key w)
  unfolding get
  get_lem = rw alive_lem

  -- A key that is set is live for as long as it was given, and no other key changes.
  pub live-set :
      (value : Text) (ttl : Option ℕ) (j : Text)
      → live j (set key value ttl w).1 ≡ (
          if text_eq key j
          then some (record { value = value; expires_at = deadline ttl w.now })
          else live j w)
  unfolding set
  live-set value none j = live-put _ j ∙ (unfold unless_expired is_expired in refl)
  live-set value (some zero) j = live-put _ j ∙ (unfold unless_expired is_expired in refl)
  live-set value (some (suc n)) j =
      live-put _ j ∙ (unfold unless_expired is_expired in ground arith)

  pub live-del : (j : Text) → live j (del key w).1 ≡ (if text_eq key j then none else live j w)
  unfolding del live unless_expired
  live-del j = ground (arith, lookup-remove j key w.state.store)

abbrev pub counted : Option Entry → Entry
counted current = record {
  value = to_decimal (count_of current + 1);
  expires_at = expiry_of current;
}

still_live :
    (key : Text) (w : World Memory) (value : Text)
    → unless_expired w.now (some (record { value = value; expires_at = expiry_of (live key w) }))
      ≡ some (record { value = value; expires_at = expiry_of (live key w) })
unfolding live unless_expired is_expired
still_live key w value = ground arith

module _ (key : Text) (w : World Memory) where
  -- The counter of a dead key starts at one with no deadline; that of a live key keeps its own.
  pub incr_lem :
      incr key w
      ≡ (ok (count_of (live key w) + 1), put_entry key (counted (live key w)) (purged key w))
  unfolding incr
  incr_lem = rw (alive_lem key w) (unfold store_count in refl)

  pub live-incr :
      (j : Text)
      → live j (incr key w).1 ≡ (if text_eq key j then some (counted (live key w)) else live j w)
  live-incr j = rw incr_lem (
      live-put key (purged key w) (counted (live key w)) j
      ∙ simp (now-purged key w, live-purged key w, still_live key w))

  abbrev stamped : ℕ → Option Entry → Option Entry
  stamped deadline none = none
  stamped deadline (some e) = some (record e { expires_at = some deadline })

  at_some :
      (e : Entry) (n : ℕ) (j : Text)
      → live j (stamp key (suc n) (some e) (purged key w)).1 ≡ (
          if text_eq key j
          then some (record e { expires_at = some (w.now + suc n * 1000) })
          else live j w)
  unfolding stamp
  at_some e n j =
      live-put key (purged key w)
        (record e { expires_at = some ((purged key w).now + suc n * 1000) }) j
      ∙ simp (now-purged key w, live-purged key w)
          (unfold unless_expired is_expired in ground arith)

  -- A dead key is left alone; a live one gets a new deadline.
  pub live-expire :
      (n : ℕ) (j : Text)
      → live j (expire key (suc n) w).1
        ≡ (if text_eq key j then stamped (w.now + suc n * 1000) (live key w) else live j w)
  unfolding expire stamp
  live-expire n j = rw (alive_lem key w) (at (live key w) refl)
    where
      at :
          (e : Option Entry)
          → live key w ≡ e
          → live j (stamp key (suc n) e (purged key w)).1
            ≡ (if text_eq key j then stamped (w.now + suc n * 1000) e else live j w)
      at none p = live-purged key w j ∙ ground (arith, text_eq_iff key j)
      at (some e) p = at_some e n j

  pub getdel_lem : getdel key w ≡ (ok (value_of (live key w)), drop_entry key (purged key w))
  unfolding getdel
  getdel_lem = rw (alive_lem key w) (unfold delete_key in refl)

  pub live-getdel :
      (j : Text) → live j (getdel key w).1 ≡ (if text_eq key j then none else live j w)
  live-getdel j = rw getdel_lem (rw (live-drop key (purged key w) j) (rw (live-purged key w j)))

-- A live entry is stored as it is read.
pub lookup_of_live :
    (key : Text) (w : World Memory) (e : Entry)
    → live key w ≡ some e
    → lookup key w.state.store ≡ some e
unfolding live unless_expired
lookup_of_live key w e h = ground arith

-- `incr` and `expire` let no time pass.
pub now-incr : (key : Text) (w : World Memory) → (incr key w).1.now ≡ w.now
unfolding put_entry
now-incr key w = rw (incr_lem key w) (now-purged key w)

pub now-expire : (key : Text) (n : ℕ) (w : World Memory) → (expire key n w).1.now ≡ w.now
unfolding expire stamp
now-expire key n w = rw (alive_lem key w) (at (live key w))
  where
    at : (e : Option Entry) → (stamp key n e (purged key w)).1.now ≡ w.now
    at none = now-purged key w
    at (some e) = now-purged key w

-- `expire` answers, whatever the key.
pub expire_ok : (key : Text) (n : ℕ) (w : World Memory) → (expire key n w).0 ≡ ok tt
unfolding expire stamp
expire_ok key n w = rw (alive_lem key w) (at (live key w))
  where
    at : (e : Option Entry) → (stamp key n e (purged key w)).0 ≡ ok tt
    at none = refl
    at (some e) = refl
