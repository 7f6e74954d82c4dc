-- ===== src/Storage/Sql/Engine.antt =====
-- storage/sql/engine.ts: `SqlAuthStore`, over any driver.
use tetrac_login_sdk.Prelude.{
  ℕ, ◌+◌, ◌-◌, ◌*◌, Bool, true, false, Option, none, some, List, [], ◌∷◌, Text, text_eq, leb,
  if◌then◌else◌, Result, ok, err,
}
use tetrac_login_sdk.Core.Platform.{Platform}
use tetrac_login_sdk.Core.Js.{Js, str, truthy}
use tetrac_login_sdk.Core.Types.{EncryptedWallet, UserData, sort_wallets_by_slot}
use tetrac_login_sdk.Effect.{
  Act, Fault, type_error, parse_error, email_taken, backend_failed, pure, throw, ◌>>=◌, ◌>>◌,
}
use tetrac_login_sdk.Storage.Adapter.{AuthStore, SessionValue, RateLimitBucket, RateLimitResult}
use tetrac_login_sdk.Storage.Kv.{
  JsonCodec, normalize_email, profile_of, chain_text, role_text, lift,
}
use tetrac_login_sdk.Prelude.{◌%◌, ◌^◌, max, ltb, length}
use tetrac_login_sdk.Storage.Sql.{
  Expiring, of_sessions, of_challenges, of_rates, delete_expired, affected_row, select_user,
  select_wallets, upsert_user, upsert_wallet, select_holder, insert_email, update_pointer,
  upsert_challenge, consume_challenge, lock_challenge, upsert_session, select_session, upsert_rate,
  select_count, drop_challenge, drop_session, Row, user_row, wallet_row, key_row, session_row,
  count_row, SqlDriver,
}

-- `this.now()`, the application's clock.
abbrev pub clock : {S : Type 0} → Act S ℕ
clock w = (ok w.now, w)

-- `rows[0]`
abbrev pub first : List Row → Option Row
first [] = none
first (r ∷ rs) = some r

abbrev pub is_empty : List Row → Bool
is_empty [] = true
is_empty (r ∷ rs) = false

-- `rows.length > 0`
abbrev pub not_empty : List Row → Bool
not_empty rows = if is_empty rows then false else true

unfoldable pub affected_of : List Row → ℕ
affected_of (affected_row n ∷ rs) = n
affected_of _ = 0

-- `Math.max(1, limit | 0)`: the limit as a signed number of 32 bits.
unfoldable pub row_limit : ℕ → ℕ
row_limit limit = let n = limit % 2 ^ 32 in if ltb n (2 ^ 31) then max 1 n else 1

-- `rows[0]?.public_key`
abbrev pub holder_of : List Row → Option Text
holder_of (key_row pk ∷ rs) = some pk
holder_of _ = none

-- `bucket.appId ?? ""`
abbrev pub bucket_app : RateLimitBucket → Text
bucket_app b = elim b.app_id [ none ↦ [] | some a ↦ a ]

-- No usable count throws, and is never read as the first hit of a window.
unfoldable pub count_or_fail_closed : Option Row → Result Fault ℕ
count_or_fail_closed (some (count_row (some n))) = ok n
count_or_fail_closed _ = err backend_failed

-- `JSON.parse(String(w.data))` of every row.
unfoldable pub parse_rows : JsonCodec → List Row → Result Fault (List EncryptedWallet)
parse_rows json [] = ok []
parse_rows json (wallet_row text ∷ rows) =
    let rest = parse_rows json rows in
    elim (json.parse_wallet text) [
      | none ↦ err parse_error
      | some w ↦ elim rest [ ok ws ↦ ok (w ∷ ws) | err e ↦ err e ]
    ]
parse_rows json (_ ∷ rows) = err parse_error

abbrev pub session_of : List Row → Option SessionValue
session_of (session_row pk fingerprint ∷ rs) =
    some (record { public_key = pk; fingerprint = fingerprint })
session_of _ = none

module _ {S A : Type 0} (driver : SqlDriver S) where
  -- A transaction of storage/sql/drivers.ts: what throws, a failing COMMIT included, is rolled back
  -- and thrown again. A failing ROLLBACK is ignored.
  unfoldable pub settle : Result Fault A → Act S A
  settle (ok a) = pure a
  settle (err e) = λ w. (err e, (driver.rollback w).1)

  abbrev pub attempt : Act S A → Act S A
  attempt fn w = let r = (fn >>= λ a. driver.commit >> pure a) w in settle r.0 r.1

  unfoldable pub transaction : Act S A → Act S A
  unfolding ◌>>=◌ ◌>>◌ settle
  transaction fn = driver.begin >> attempt fn

module _ {S : Type 0} (p : Platform) (json : JsonCodec) (driver : SqlDriver S)
    (supports_returning : Bool) where
  -- The record of a row of `users` and the rows of its wallets.
  unfoldable pub assemble : Option Text → UserData → List Row → Result Fault (Option UserData)
  unfolding parse_rows
  assemble token user rows = elim (parse_rows json rows) [
    | err e ↦ err e
    | ok ws ↦ ok (
        some (record user {
          wallets = sort_wallets_by_slot ws;
          auth_token_hash = elim token [ none ↦ user.auth_token_hash | some t ↦ some t ];
        }))
  ]

  unfoldable pub read_wallets_of : Text → Text → Text → Option Text → Act S (Option UserData)
  unfolding ◌>>=◌ assemble
  read_wallets_of app_id pk text token = elim (json.parse_profile text) [
    | none ↦ throw parse_error
    | some user ↦ (do
      rows ← driver.query (select_wallets app_id pk)
      lift (assemble token user rows))
  ]

  -- `row?.data == null` is an absent record.
  unfoldable pub read_user : Text → Text → Option Row → Act S (Option UserData)
  unfolding read_wallets_of
  read_user app_id pk (some (user_row (some text) token)) = read_wallets_of app_id pk text token
  read_user app_id pk _ = pure none

  unfoldable pub get_user : Text → Text → Act S (Option UserData)
  unfolding ◌>>=◌ read_user
  get_user app_id pk = do
    rows ← driver.query (select_user app_id pk)
    read_user app_id pk (first rows)

  unfoldable pub put_wallet_slot : Text → Text → EncryptedWallet → Act S (Unit {0})
  unfolding ◌>>◌
  put_wallet_slot app_id pk w =
      driver.query
        (upsert_wallet app_id pk (chain_text w.chain) (role_text w.role) (json.wallet_text w))
      >> pure tt

  unfoldable pub put_wallets : Text → Text → List EncryptedWallet → Act S (Unit {0})
  unfolding ◌>>◌ put_wallet_slot
  put_wallets app_id pk [] = pure tt
  put_wallets app_id pk (w ∷ ws) = put_wallet_slot app_id pk w >> put_wallets app_id pk ws

  -- `try { … } catch { throw new EmailTakenError(…) }`
  abbrev pub as_taken : {A : Type 0} → Act S A → Act S (Unit {0})
  as_taken m w = let r = m w in (elim r.0 [ ok a ↦ ok tt | err e ↦ err email_taken ], r.1)

  unfoldable pub claim_email : Text → Text → Text → Act S (Unit {0})
  unfolding ◌>>=◌
  claim_email email app_id pk = do
    held ← driver.query (select_holder email app_id)
    elim (holder_of held) [
      | none ↦ as_taken (driver.query (insert_email email app_id pk))
      | some holder ↦ (if text_eq holder pk then pure tt else throw email_taken)
    ]

  unfoldable pub index_email : Js → Text → Text → Act S (Unit {0})
  unfolding claim_email
  index_email (str email) app_id pk =
      if text_eq email [] then pure tt else claim_email (normalize_email p email) app_id pk
  index_email v app_id pk = if truthy v then throw type_error else pure tt

  unfoldable pub write_record : UserData → Act S (Unit {0})
  unfolding ◌>>◌ put_wallets
  write_record user =
      driver.query (
        upsert_user user.app_id user.public_key (json.profile_text (profile_of user))
          user.auth_token_hash)
      >> put_wallets user.app_id user.public_key user.wallets

  -- The record, its wallets and the email index, in one transaction.
  unfoldable pub write_user : UserData → Act S (Unit {0})
  unfolding ◌>>◌ write_record index_email
  write_user user = write_record user >> index_email user.email user.app_id user.public_key

  unfoldable pub put_user : UserData → Act S (Unit {0})
  unfolding transaction write_user
  put_user user = transaction driver (write_user user)

  unfoldable pub set_session_pointer : Text → Text → Text → Act S (Unit {0})
  unfolding ◌>>◌
  set_session_pointer app_id pk token_hash =
      driver.query (update_pointer token_hash app_id pk) >> pure tt

  unfoldable pub get_public_key_by_email : Text → Text → Act S (Option Text)
  unfolding ◌>>=◌
  get_public_key_by_email app_id email = do
    rows ← driver.query (select_holder (normalize_email p email) app_id)
    pure (holder_of rows)

  unfoldable pub put_challenge : Text → Text → Text → ℕ → Act S (Unit {0})
  unfolding ◌>>◌ ◌>>=◌
  put_challenge app_id pk challenge ttl = do
    now ← clock
    driver.query (upsert_challenge app_id pk challenge (now + ttl * 1000))
    pure tt

  -- Lock the row, read it, delete it.
  unfoldable pub lock_and_delete : Text → Text → Text → ℕ → Act S Bool
  unfolding ◌>>=◌ ◌>>◌
  lock_and_delete app_id pk presented now = do
    rows ← driver.query (lock_challenge app_id pk presented now)
    if is_empty rows
        then pure false
        else (driver.query (drop_challenge app_id pk presented) >> pure true)

  unfoldable pub take_challenge : Text → Text → Text → Act S Bool
  unfolding ◌>>=◌ transaction lock_and_delete
  take_challenge app_id pk presented = do
    now ← clock
    if supports_returning
        then (driver.query (consume_challenge app_id pk presented now) >>= λ rows.
            pure (not_empty rows))
        else transaction driver (lock_and_delete app_id pk presented now)

  unfoldable pub put_session : Text → Text → SessionValue → ℕ → Act S (Unit {0})
  unfolding ◌>>=◌ ◌>>◌
  put_session app_id token_hash value ttl = do
    now ← clock
    driver.query
        (upsert_session app_id token_hash value.public_key value.fingerprint (now + ttl * 1000))
    pure tt

  unfoldable pub get_session : Text → Text → Act S (Option SessionValue)
  unfolding ◌>>=◌
  get_session app_id token_hash = do
    now ← clock
    rows ← driver.query (select_session app_id token_hash now)
    pure (session_of rows)

  unfoldable pub delete_session : Text → Text → Act S (Unit {0})
  unfolding ◌>>◌
  delete_session app_id token_hash = driver.query (drop_session app_id token_hash) >> pure tt

  -- The upsert, and the count that it returns or that is read back in its transaction.
  unfoldable pub count_hit : RateLimitBucket → ℕ → ℕ → Act S ℕ
  unfolding ◌>>=◌ ◌>>◌ transaction count_or_fail_closed
  count_hit b now fresh =
      if supports_returning
      then (do
        rows ← driver.query (upsert_rate b.endpoint (bucket_app b) b.identifier now fresh true)
        lift (count_or_fail_closed (first rows)))
      else transaction driver (do
        driver.query (upsert_rate b.endpoint (bucket_app b) b.identifier now fresh false)
        rows ← driver.query (select_count b.endpoint (bucket_app b) b.identifier)
        lift (count_or_fail_closed (first rows)))

  unfoldable pub hit_rate_limit : RateLimitBucket → ℕ → ℕ → Act S RateLimitResult
  unfolding ◌>>=◌ count_hit
  hit_rate_limit bucket window_seconds max_attempts = do
    now ← clock
    count ← count_hit bucket now (now + window_seconds * 1000)
    pure (record { allowed = leb count max_attempts; remaining = max_attempts - count })

  -- `rows.length` with RETURNING, `Number(rows[0]?.affected ?? 0)` without.
  unfoldable pub removed_of : List Row → ℕ
  unfolding affected_of
  removed_of rows = if supports_returning then length rows else affected_of rows

  unfoldable pub sweep_table : Expiring → ℕ → ℕ → Act S ℕ
  unfolding ◌>>=◌ removed_of row_limit
  sweep_table table limit now = do
    rows ← driver.query (delete_expired table (row_limit limit) now supports_returning)
    pure (removed_of rows)

  unfoldable pub sweep_expired : ℕ → Act S ℕ
  unfolding ◌>>=◌ sweep_table
  sweep_expired limit = do
    now ← clock
    a ← sweep_table of_sessions limit now
    b ← sweep_table of_challenges limit now
    c ← sweep_table of_rates limit now
    pure (a + b + c)

  abbrev pub sql_store : AuthStore S
  sql_store = record {
    get_user = get_user;
    put_user = put_user;
    put_wallet_slot = put_wallet_slot;
    set_session_pointer = set_session_pointer;
    get_public_key_by_email = get_public_key_by_email;
    put_challenge = put_challenge;
    take_challenge = take_challenge;
    put_session = put_session;
    get_session = get_session;
    delete_session = delete_session;
    hit_rate_limit = hit_rate_limit;
  }
