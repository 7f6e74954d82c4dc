-- ===== src/Storage/Sql/Users.antt =====
-- `putUser` and `getPublicKeyByEmail` (storage/sql/engine.ts) over a database.
mod Claimed
use tetrac_login_sdk.Prelude.{
  ◌≡◌, refl, sym, ap, ◌∙◌, Bool, Option, none, some, List, [], ◌∷◌, ◌++◌, append-nil, map, Text,
  Result, ok, err, arith,
}
use tetrac_login_sdk.Core.Platform.{Platform}
use tetrac_login_sdk.Core.Types.{UserData}
use tetrac_login_sdk.Effect.{World, Act, Fault, ◌>>=◌, ◌>>◌}
use tetrac_login_sdk.Storage.Kv.{JsonCodec, normalize_email}
use tetrac_login_sdk.Storage.Sql.Engine.{
  put_user, write_user, get_public_key_by_email, transaction, settle, holder_of,
}
use tetrac_login_sdk.Storage.Sql.Tables.{
  Db, Tables, Email, database, execute, query, begin, commit, rollback, is_address, holder_column,
}
use tetrac_login_sdk.Storage.Sql.Query.{rows_where, find, find-append_found}
use tetrac_login_sdk.Storage.Sql.Extends.{Extends, write_user-Extends}

abbrev key_of : Option Email → Option Text
key_of none = none
key_of (some r) = some r.public_key

ok_eq : {A : Type 0} {a b : A} → ◌≡◌ {A = Result Fault A} (ok a) (ok b) → a ≡ b
ok_eq h = ground arith

holder_of-rows_where :
    (q : Email → Bool) (t : List Email)
    → holder_of (map holder_column (rows_where q t)) ≡ key_of (find q t)
unfolding rows_where find
holder_of-rows_where q [] = refl
holder_of-rows_where q (r ∷ t) = ground (arith, holder_of-rows_where q t)

abbrev begun : World Db → World Db
begun w = (begin w).1

module _ (A : Type 0) (tables : Tables) where
  -- A transaction commits what it did when it returns, and nothing when it throws.
  abbrev closed : Result Fault A × World Db → Result Fault A × World Db
  closed (ok a, v) = (ok a, record v { state = record { tables = v.state.tables; saved = none } })
  closed (err e, v) = (err e, record v { state = record { tables = tables; saved = none } })

transaction_lem :
    {A : Type 0} (fn : Act Db A) (w : World Db)
    → Extends A fn
    → transaction database fn w ≡ closed A w.state.tables (fn (begun w))
unfolding transaction settle ◌>>=◌ ◌>>◌ begin commit rollback
transaction_lem {A} fn w ext = at (fn (begun w)) refl ((ext.extends (begun w)).0)
  where
    at :
        (r : Result Fault A × World Db)
        → fn (begun w) ≡ r
        → r.1.state.saved ≡ some w.state.tables
        → transaction database fn w ≡ closed A w.state.tables r
    at (ok a, v) e saved = rw e refl
    at (err x, v) e saved = rw e (rw saved refl)

module _ (p : Platform) (json : JsonCodec) (returning : Bool) where
  put_lem :
      (user : UserData) (w : World Db)
      → put_user p json database returning user w
        ≡ closed Unit w.state.tables (write_user p json database returning user (begun w))
  unfolding put_user
  put_lem user w = transaction_lem _ w (write_user-Extends p json returning user)

  -- A `putUser` that throws, on a taken address or on any failure, leaves every table as it was.
  pub put_user_atomic :
      (user : UserData) (w : World Db) {e : Fault}
      → (put_user p json database returning user w).0 ≡ err e
      → (put_user p json database returning user w).1.state.tables ≡ w.state.tables
  put_user_atomic user w {e} h =
      ap (λ r. r.1.state.tables) (put_lem user w)
      ∙ at (write_user p json database returning user (begun w))
          (ap (λ r. r.0) (sym (put_lem user w)) ∙ h)
    where
      at :
          (r : Result Fault (Unit {0}) × World Db)
          → (closed Unit w.state.tables r).0 ≡ err e
          → (closed Unit w.state.tables r).1.state.tables ≡ w.state.tables
      at (ok a, v) h = absurd (ground arith)
      at (err x, v) h = refl

  abbrev holder : Text → Text → World Db → Result Fault (Option Text)
  holder app_id email w = (get_public_key_by_email p json database returning app_id email w).0

  abbrev held_by : Text → Text → Tables → Option Text
  held_by app_id email t = key_of (find (is_address (normalize_email p email) app_id) t.emails)

  holder_lem :
      (app_id email : Text) (w : World Db)
      → holder app_id email w ≡ ok (held_by app_id email w.state.tables)
  unfolding get_public_key_by_email ◌>>=◌ query execute
  holder_lem app_id email w =
      ap ok
        (holder_of-rows_where (is_address (normalize_email p email) app_id) w.state.tables.emails)

  -- The emails of every outcome are those of before and some more.
  abbrev Grown : World Db → Tables → Type 0
  Grown w t = (more : List Email) × (t.emails ≡ w.state.tables.emails ++ more)

  put_user_grows :
      (user : UserData) (w : World Db)
      → Grown w (put_user p json database returning user w).1.state.tables
  unfolding begin
  put_user_grows user w = rw (put_lem user w) (
      at (write_user p json database returning user (begun w))
        ((write_user-Extends p json returning user).extends (begun w)).1)
    where
      at :
          (r : Result Fault (Unit {0}) × World Db)
          → Grown (begun w) r.1.state.tables
          → Grown w (closed Unit w.state.tables r).1.state.tables
      at (ok a, v) grown = grown
      at (err x, v) grown = ([], sym (append-nil w.state.tables.emails))

  held_by-Grown :
      (app_id email pk : Text) (w : World Db) (t : Tables)
      → Grown w t
      → held_by app_id email w.state.tables ≡ some pk
      → held_by app_id email t ≡ some pk
  held_by-Grown app_id email pk w t (more, e) h =
      at (find (is_address (normalize_email p email) app_id) w.state.tables.emails) refl h
    where
      at :
          (o : Option Email)
          → find (is_address (normalize_email p email) app_id) w.state.tables.emails ≡ o
          → key_of o ≡ some pk
          → held_by app_id email t ≡ some pk
      at none found h = absurd (ground arith)
      at (some r) found h = rw e (
          rw
            (find-append_found (is_address (normalize_email p email) app_id) w.state.tables.emails
              more r found)
            h)

  -- Once an address of an app belongs to a key, no `putUser` of any record gives it to another or
  -- frees it, whether it returns or throws.
  pub address_kept :
      (app_id email pk : Text) (user : UserData) (w : World Db)
      → (get_public_key_by_email p json database returning app_id email w).0 ≡ ok (some pk)
      → (get_public_key_by_email p json database returning app_id email
          (put_user p json database returning user w).1).0
        ≡ ok (some pk)
  address_kept app_id email pk user w h =
      let before : held_by app_id email w.state.tables ≡ some pk =
        ok_eq (sym (holder_lem app_id email w) ∙ h) in
      holder_lem app_id email (put_user p json database returning user w).1
      ∙ ap ok (
          held_by-Grown app_id email pk w (put_user p json database returning user w).1.state.tables
            (put_user_grows user w) before)
