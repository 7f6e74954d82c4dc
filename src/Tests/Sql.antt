-- ===== src/Tests/Sql.antt =====
-- The theorems of storage/sql and of the two stores at concrete inputs.
use tetrac_login_sdk.Prelude.{
  ℕ, ◌+◌, List, ◌≡◌, refl, true, false, none, some, [], ◌∷◌, codes, ok, err, arith, lacks, text_eq,
  All,
}
use tetrac_login_sdk.Effect.{World, Act, email_taken}
use tetrac_login_sdk.Core.Config.{KeyPrefixes, default_config, trim}
use tetrac_login_sdk.Storage.Adapter.{SessionValue, RateLimitBucket}
use tetrac_login_sdk.Storage.Memory.{memory_adapter}
use tetrac_login_sdk.Storage.Kv.{kv_store, normalize_email}
use tetrac_login_sdk.Storage.Contract.{
  Operation, issue, consume, open_session, look_up, revoke, wait, done, was_outstanding, session,
  store_run, model_run, model_step,
}
use tetrac_login_sdk.Storage.Kv.Refines.{KvAllows, PrefixesApart}
use tetrac_login_sdk.Storage.Agreement.{
  fresh_memory, fresh_database, kv_run-model_run, sql_run-model_run,
}
use tetrac_login_sdk.Storage.Sql.{SqlDriver}
use tetrac_login_sdk.Storage.Sql.Engine.{sql_store, put_user, get_public_key_by_email}
use tetrac_login_sdk.Storage.Sql.Serves.{Serves}
use tetrac_login_sdk.Storage.Sql.Tables.{Db, no_rows, database, begin, commit, rollback, query}
use tetrac_login_sdk.Storage.Sql.RateLimit.{fixed_window}
use tetrac_login_sdk.Storage.Sql.RateLimit
use tetrac_login_sdk.Storage.Sql.Query
use tetrac_login_sdk.Storage.Sql.Sweep.{run-sweep_expired}
use tetrac_login_sdk.Storage.Sql.Engine.{sweep_expired}
use tetrac_login_sdk.Storage.Sql.Users.{put_user_atomic, address_kept}
use tetrac_login_sdk.Tests.Setup.{platform, codec, site, key, nonce, alice}

abbrev prefixes : KeyPrefixes
prefixes = (default_config site).key_prefixes

abbrev app : List ℕ
app = codes "ttc"

abbrev login : SessionValue
login = record { public_key = key; fingerprint = none }

-- A challenge used twice, one that expires, and a session that expires.
abbrev story : List Operation
story =
    issue app key nonce 60
    ∷ consume app key nonce
    ∷ consume app key nonce
    ∷ issue app key nonce 1
    ∷ wait 1000
    ∷ consume app key nonce
    ∷ open_session app (codes "h") login 2
    ∷ wait 1999
    ∷ look_up app (codes "h")
    ∷ wait 1
    ∷ look_up app (codes "h")
    ∷ revoke app (codes "h")
    ∷ []

apart : PrefixesApart prefixes
apart x y e = ground arith

story_allowed : All KvAllows story
unfolding lacks
story_allowed = (
  (refl, refl, omega arith),
  (
    (refl, refl),
    (
      (refl, refl),
      (
        (refl, refl, omega arith),
        (
          tt,
          (
            (refl, refl),
            ((refl, refl, λ e. ground arith, omega arith), (tt, (refl, (tt, (refl, (refl, tt)))))),
          ),
        ),
      ),
    ),
  ),
)

kv_run-model_run_example :
    (store_run (kv_store platform codec memory_adapter prefixes) story (fresh_memory 5)).0
    ≡ ok (
        done
        ∷ was_outstanding true
        ∷ was_outstanding false
        ∷ done
        ∷ done
        ∷ was_outstanding false
        ∷ done
        ∷ done
        ∷ session (some login)
        ∷ done
        ∷ session none
        ∷ done
        ∷ [])
unfolding model_run model_step text_eq
kv_run-model_run_example = kv_run-model_run platform codec prefixes apart story 5 story_allowed

-- A driver over a database that counts its queries.
record Counted : Type 0 where
  db : Db
  queries : ℕ

abbrev shown : World Counted → World Db
shown w = record { state = w.state.db; draws = w.draws; now = w.now }

abbrev counting : {A : Type 0} → ℕ → Act Db A → Act Counted A
counting n act w =
    let r = act (shown w) in
    (
      r.0,
      record {
        state = record { db = r.1.state; queries = w.state.queries + n };
        draws = r.1.draws;
        now = r.1.now;
      },
    )

abbrev counter : SqlDriver Counted
counter = record {
  query = λ st. counting 1 (database.query st);
  begin = counting 0 database.begin;
  commit = counting 0 database.commit;
  rollback = counting 0 database.rollback;
}

counter-Serves : Serves Counted counter
counter-Serves = record {
  view = shown;
  now = λ w. refl;
  waits = λ ms w. refl;
  answers = λ st w. (refl, refl);
  begins = λ w. (refl, refl);
  commits = λ w. (refl, refl);
  rolls_back = λ w. (refl, refl);
}

abbrev fresh_counter : World Counted
fresh_counter = record {
  state = record { db = (fresh_database 5).state; queries = 0 };
  draws = 0;
  now = 5;
}

sql_run-model_run_example :
    (store_run (sql_store platform codec counter false) story fresh_counter).0
    ≡ ok (
        done
        ∷ was_outstanding true
        ∷ was_outstanding false
        ∷ done
        ∷ done
        ∷ was_outstanding false
        ∷ done
        ∷ done
        ∷ session (some login)
        ∷ done
        ∷ session none
        ∷ done
        ∷ [])
unfolding model_run model_step text_eq counter-Serves
sql_run-model_run_example =
    sql_run-model_run platform codec counter-Serves false story fresh_counter 5 refl

abbrev logins : RateLimitBucket
logins = record { endpoint = codes "login"; app_id = none; identifier = codes "a@b.c" }

-- Three tries in a window of a minute, and one at its deadline.
fixed_window_example :
    (RateLimit.hit platform codec false logins 60 2 (
      RateLimit.at platform codec false logins 60 2 60100 (
        RateLimit.run platform codec false logins 60 2
          (100 ∷ 200 ∷ 60099 ∷ [])
          (fresh_database 0)))).0
    ≡ ok (record { allowed = true; remaining = 1 })
unfolding Query.find RateLimit.run
fixed_window_example =
    fixed_window platform codec false logins 60 2 (fresh_database 0) 100 (200 ∷ 60099 ∷ []) 60100 tt
      (omega arith, (omega arith, tt))

abbrev stranger : List ℕ
stranger = codes "stranger"

-- Alice's address belongs to another key.
abbrev taken : World Db
taken = record {
  state = record {
    tables = record no_rows {
      emails = record { email = codes "a@b.c"; app_id = app; public_key = stranger } ∷ [];
    };
    saved = none;
  };
  draws = 0;
  now = 5;
}

refused : (put_user platform codec database true alice taken).0 ≡ err email_taken
unfolding put_user begin commit rollback query text_eq normalize_email trim
refused = refl

put_user_atomic_example :
    (put_user platform codec database true alice taken).1.state.tables ≡ taken.state.tables
put_user_atomic_example = put_user_atomic platform codec true alice taken refused

held :
    (get_public_key_by_email platform codec database true app (codes "a@b.c") taken).0
    ≡ ok (some stranger)
unfolding get_public_key_by_email query text_eq normalize_email trim
held = refl

address_kept_example :
    (get_public_key_by_email platform codec database true app
      (codes "a@b.c")
      (put_user platform codec database true alice taken).1).0
    ≡ ok (some stranger)
address_kept_example =
    address_kept platform codec true app (codes "a@b.c") stranger alice taken held

run-sweep_expired_example :
    (store_run
      (sql_store platform codec database true)
      (consume app key nonce ∷ [])
      (sweep_expired platform codec database true 1000
        (store_run
          (sql_store platform codec database true)
          (issue app key nonce 60 ∷ wait 59999 ∷ [])
          (fresh_database 5)).1).1).0
    ≡ (store_run
        (sql_store platform codec database true)
        (consume app key nonce ∷ [])
        (store_run
          (sql_store platform codec database true)
          (issue app key nonce 60 ∷ wait 59999 ∷ [])
          (fresh_database 5)).1).0
run-sweep_expired_example =
    run-sweep_expired platform codec true (issue app key nonce 60 ∷ wait 59999 ∷ [])
      (consume app key nonce ∷ []) 1000 5
