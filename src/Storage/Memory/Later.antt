-- ===== src/Storage/Memory/Later.antt =====
-- What later reads see of the adapter's entries after one of its operations.
use tetrac_login_sdk.Prelude.{
  ℕ, suc, ◌+◌, ◌*◌, ◌≤◌, ◌≡◌, ap, ◌∙◌, Option, none, some, Text, text_eq, text_eq_iff, leb,
  if◌then◌else◌, ok, arith,
}
use tetrac_login_sdk.Effect.{World}
use tetrac_login_sdk.Storage.Map.{lookup, lookup-insert, lookup-remove}
use tetrac_login_sdk.Storage.Memory.{
  Entry, Memory, is_expired, put_entry, drop_entry, get, set, del, getdel, value_of,
}
use tetrac_login_sdk.Storage.Memory.Laws.{
  unless_expired, live, purged, now-purged, get_lem, getdel_lem,
}

-- The entry that a read of the key sees at a time.
abbrev pub seen : ℕ → Text → World Memory → Option Entry
seen t key w = unless_expired t (lookup key w.state.store)

module _ (key : Text) (w : World Memory) (t : ℕ) (j : Text) where
  pub seen-set :
      (value : Text) (n : ℕ)
      → seen t j (set key value (some (suc n)) w).1 ≡ (
          if text_eq key j
          then (if leb (w.now + suc n * 1000) t
              then none
              else some (record { value = value; expires_at = some (w.now + suc n * 1000) }))
          else seen t j w)
  unfolding set put_entry unless_expired is_expired
  seen-set value n = ground (
    arith,
    lookup-insert j key (record { value = value; expires_at = some (w.now + suc n * 1000) })
        w.state.store,
  )

  pub seen-del : seen t j (del key w).1 ≡ (if text_eq key j then none else seen t j w)
  unfolding del unless_expired
  seen-del = ground (arith, lookup-remove j key w.state.store)

  module _ (later : w.now ≤ t) where
    seen-purged : seen t j (purged key w) ≡ seen t j w
    unfolding purged unless_expired is_expired
    seen-purged = ground (arith, lookup-remove j key w.state.store, text_eq_iff key j)

    pub seen-get : seen t j (get key w).1 ≡ seen t j w
    seen-get = rw (get_lem key w) seen-purged

    pub seen-getdel : seen t j (getdel key w).1 ≡ (if text_eq key j then none else seen t j w)
    unfolding drop_entry unless_expired
    seen-getdel = rw (getdel_lem key w) (
        ap (unless_expired t) (lookup-remove j key (purged key w).state.store)
        ∙ ground (arith, seen-purged))

module _ (key : Text) (w : World Memory) where
  pub now-get : (get key w).1.now ≡ w.now
  now-get = rw (get_lem key w) (now-purged key w)

  pub now-getdel : (getdel key w).1.now ≡ w.now
  unfolding drop_entry
  now-getdel = rw (getdel_lem key w) (now-purged key w)

  -- The answer apart from the world that is left.
  pub get_answer : get key w ≡ (ok (value_of (seen w.now key w)), (get key w).1)
  unfolding live
  get_answer = ap (λ r. (r.0, (get key w).1)) (get_lem key w)

  pub getdel_answer : getdel key w ≡ (ok (value_of (seen w.now key w)), (getdel key w).1)
  unfolding live
  getdel_answer = ap (λ r. (r.0, (getdel key w).1)) (getdel_lem key w)
