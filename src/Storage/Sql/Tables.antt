-- ===== src/Storage/Sql/Tables.antt =====
-- The tables of the schema (the `ddl` of storage/sql/dialects), the statements run on them as SQL says,
-- and the driver of such a database, for one request at a time. The databases are no code of the
-- repository: this is the documented meaning of each statement on the schema's primary keys.
use tetrac_login_sdk.Prelude.{
  ℕ, ◌+◌, Bool, ◌&&◌, Option, none, some, List, [], ◌∷◌, ◌++◌, map, Text, text_eq, ltb, leb,
  if◌then◌else◌, ok, err,
}
use tetrac_login_sdk.Effect.{Act, backend_failed}
use tetrac_login_sdk.Storage.Contract.{same_challenge, same_session}
use tetrac_login_sdk.Prelude.{true, false, ◌-◌, length, replicate}
use tetrac_login_sdk.Storage.Sql.{
  of_sessions, of_challenges, of_rates, delete_expired, affected_row, Statement, select_user,
  select_wallets, upsert_user, upsert_wallet, select_holder, insert_email, update_pointer,
  upsert_challenge, consume_challenge, lock_challenge, drop_challenge, upsert_session,
  select_session, drop_session, upsert_rate, select_count, Row, user_row, wallet_row, key_row,
  challenge_row, session_row, count_row, SqlDriver,
}
use tetrac_login_sdk.Storage.Sql.Query.{
  rows_where, delete_where, change_where, delete_up_to, some_row, upsert,
}

pub record User : Type 0 where
  pub app_id : Text
  pub public_key : Text
  pub profile : Text
  pub auth_token_hash : Option Text

pub record Wallet : Type 0 where
  pub app_id : Text
  pub public_key : Text
  pub chain : Text
  pub role : Text
  pub contents : Text

pub record Email : Type 0 where
  pub email : Text
  pub app_id : Text
  pub public_key : Text

pub record Challenge : Type 0 where
  pub app_id : Text
  pub public_key : Text
  pub challenge : Text
  pub expires_at : ℕ

pub record Session : Type 0 where
  pub app_id : Text
  pub token_hash : Text
  pub public_key : Text
  pub fingerprint : Option Text
  pub expires_at : ℕ

pub record Rate : Type 0 where
  pub endpoint : Text
  pub app_id : Text
  pub identifier : Text
  pub count : ℕ
  pub expires_at : ℕ

pub record Tables : Type 0 where
  pub users : List User
  pub wallets : List Wallet
  pub emails : List Email
  pub challenges : List Challenge
  pub sessions : List Session
  pub rates : List Rate

abbrev pub no_rows : Tables
no_rows = record {
  users = [];
  wallets = [];
  emails = [];
  challenges = [];
  sessions = [];
  rates = [];
}

abbrev pub is_user : Text → Text → User → Bool
is_user a k r = text_eq r.app_id a && text_eq r.public_key k

abbrev pub is_wallet_of : Text → Text → Wallet → Bool
is_wallet_of a k r = text_eq r.app_id a && text_eq r.public_key k

abbrev pub is_wallet : Text → Text → Text → Text → Wallet → Bool
is_wallet a k chain role r = is_wallet_of a k r && (text_eq r.chain chain && text_eq r.role role)

abbrev pub is_address : Text → Text → Email → Bool
is_address e a r = text_eq r.email e && text_eq r.app_id a

abbrev pub is_challenge : Text → Text → Text → Challenge → Bool
is_challenge a k c r = same_challenge a k c r.app_id r.public_key r.challenge

abbrev pub is_live_challenge : Text → Text → Text → ℕ → Challenge → Bool
is_live_challenge a k c now r = is_challenge a k c r && ltb now r.expires_at

abbrev pub is_session : Text → Text → Session → Bool
is_session a h r = same_session a h r.app_id r.token_hash

abbrev pub is_live_session : Text → Text → ℕ → Session → Bool
is_live_session a h now r = is_session a h r && ltb now r.expires_at

abbrev pub is_rate : Text → Text → Text → Rate → Bool
is_rate e a i r = text_eq r.endpoint e && (text_eq r.app_id a && text_eq r.identifier i)

abbrev pub expired_challenge : ℕ → Challenge → Bool
expired_challenge now r = leb r.expires_at now

abbrev pub expired_session : ℕ → Session → Bool
expired_session now r = leb r.expires_at now

abbrev pub expired_rate : ℕ → Rate → Bool
expired_rate now r = leb r.expires_at now

-- The two CASE expressions of the rate-limit upsert.
abbrev pub bump : ℕ → ℕ → Rate → Rate
bump now fresh r = record r {
  count = if leb r.expires_at now then 1 else r.count + 1;
  expires_at = if leb r.expires_at now then fresh else r.expires_at;
}

abbrev pub challenge_name : Challenge → Row
challenge_name r = challenge_row r.challenge

abbrev pub session_columns : Session → Row
session_columns r = session_row r.public_key r.fingerprint

abbrev pub count_column : Rate → Row
count_column r = count_row (some r.count)

abbrev pub holder_column : Email → Row
holder_column r = key_row r.public_key

-- What a deletion answers: a row for each deleted one, or their number.
abbrev deleted : Bool → ℕ → ℕ → List Row
deleted true before after = replicate (before - after) (affected_row 1)
deleted false before after = affected_row (before - after) ∷ []

-- The rows that a statement answers and the tables it leaves; `none` is a violated primary key.
unfoldable pub execute : Statement → Tables → Option (List Row × Tables)
unfolding rows_where delete_where change_where delete_up_to some_row upsert
execute (select_user a k) t =
    some
      (map (λ r. user_row (some r.profile) r.auth_token_hash) (rows_where (is_user a k) t.users), t)
execute (select_wallets a k) t =
    some (map (λ r. wallet_row r.contents) (rows_where (is_wallet_of a k) t.wallets), t)
execute (upsert_user a k profile token) t = some (
  [],
  record t {
    users =
        upsert (is_user a k) (λ r. record r { profile = profile; auth_token_hash = token })
          (record { app_id = a; public_key = k; profile = profile; auth_token_hash = token })
          t.users;
  },
)
execute (upsert_wallet a k chain role contents) t = some (
  [],
  record t {
    wallets =
        upsert (is_wallet a k chain role) (λ r. record r { contents = contents })
          (record { app_id = a; public_key = k; chain = chain; role = role; contents = contents })
          t.wallets;
  },
)
execute (select_holder e a) t = some (map holder_column (rows_where (is_address e a) t.emails), t)
execute (insert_email e a k) t =
    if some_row (is_address e a) t.emails
    then none
    else some (
      [],
      record t { emails = t.emails ++ (record { email = e; app_id = a; public_key = k } ∷ []) },
    )
execute (update_pointer token a k) t = some (
  [],
  record t {
    users = change_where (is_user a k) (λ r. record r { auth_token_hash = some token }) t.users;
  },
)
execute (upsert_challenge a k c deadline) t = some (
  [],
  record t {
    challenges =
        upsert (is_challenge a k c) (λ r. record r { expires_at = deadline })
          (record { app_id = a; public_key = k; challenge = c; expires_at = deadline })
          t.challenges;
  },
)
execute (consume_challenge a k c now) t = some (
  map challenge_name (rows_where (is_live_challenge a k c now) t.challenges),
  record t { challenges = delete_where (is_live_challenge a k c now) t.challenges },
)
execute (lock_challenge a k c now) t =
    some (map challenge_name (rows_where (is_live_challenge a k c now) t.challenges), t)
execute (drop_challenge a k c) t =
    some ([], record t { challenges = delete_where (is_challenge a k c) t.challenges })
execute (upsert_session a h k fingerprint deadline) t = some (
  [],
  record t {
    sessions =
        upsert (is_session a h)
          (λ r. record r { public_key = k; fingerprint = fingerprint; expires_at = deadline })
          (record {
            app_id = a;
            token_hash = h;
            public_key = k;
            fingerprint = fingerprint;
            expires_at = deadline;
          })
          t.sessions;
  },
)
execute (select_session a h now) t =
    some (map session_columns (rows_where (is_live_session a h now) t.sessions), t)
execute (drop_session a h) t =
    some ([], record t { sessions = delete_where (is_session a h) t.sessions })
execute (upsert_rate e a i now fresh returning) t =
    let rates =
      upsert (is_rate e a i) (bump now fresh)
        (record { endpoint = e; app_id = a; identifier = i; count = 1; expires_at = fresh })
        t.rates in
    some (
      if returning then map count_column (rows_where (is_rate e a i) rates) else [],
      record t { rates = rates },
    )
execute (select_count e a i) t = some (map count_column (rows_where (is_rate e a i) t.rates), t)
execute (delete_expired of_sessions n now returning) t =
    let rest = delete_up_to n (expired_session now) t.sessions in
    some (deleted returning (length t.sessions) (length rest), record t { sessions = rest })
execute (delete_expired of_challenges n now returning) t =
    let rest = delete_up_to n (expired_challenge now) t.challenges in
    some (deleted returning (length t.challenges) (length rest), record t { challenges = rest })
execute (delete_expired of_rates n now returning) t =
    let rest = delete_up_to n (expired_rate now) t.rates in
    some (deleted returning (length t.rates) (length rest), record t { rates = rest })

-- The committed tables are set aside while a transaction is open.
pub record Db : Type 0 where
  pub tables : Tables
  pub saved : Option Tables

abbrev pub answer_with : Option (List Row × Tables) → Act Db (List Row)
answer_with none w = (err backend_failed, w)
answer_with (some (rows, t)) w = (ok rows, record w { state = record w.state { tables = t } })

unfoldable pub query : Statement → Act Db (List Row)
unfolding execute
query st w = answer_with (execute st w.state.tables) w

unfoldable pub begin : Act Db (Unit {0})
begin w = (ok tt, record w { state = record w.state { saved = some w.state.tables } })

unfoldable pub commit : Act Db (Unit {0})
commit w = (ok tt, record w { state = record w.state { saved = none } })

abbrev restored : Option Tables → Db → Db
restored none d = d
restored (some t) d = record { tables = t; saved = none }

unfoldable pub rollback : Act Db (Unit {0})
rollback w = (ok tt, record w { state = restored w.state.saved w.state })

abbrev pub database : SqlDriver Db
database = record { query = query; begin = begin; commit = commit; rollback = rollback }
