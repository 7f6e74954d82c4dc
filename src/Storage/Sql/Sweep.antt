-- ===== src/Storage/Sql/Sweep.antt =====
-- `sweepExpired` (storage/sql/engine.ts) over a database: what it takes away is seen by no read.
use tetrac_login_sdk.Prelude.{
  ℕ, ◌≤◌, ◌≡◌, refl, sym, ap, ◌∙◌, Bool, true, false, ◌&&◌, List, ltb, leb, is_some, arith,
}
use tetrac_login_sdk.Core.Platform.{Platform}
use tetrac_login_sdk.Effect.{World, ◌>>=◌}
use tetrac_login_sdk.Storage.Kv.{JsonCodec}
use tetrac_login_sdk.Storage.Contract.{
  Model, Operation, model_after, store_run, run-model_run, run-Rel,
}
use tetrac_login_sdk.Storage.Agreement.{empty_model, fresh_database, every}
use tetrac_login_sdk.Storage.Sql.Engine.{sql_store, sweep_table, sweep_expired, row_limit}
use tetrac_login_sdk.Storage.Sql.Tables.{
  Db, database, execute, query, is_challenge, is_session, is_live_challenge, is_live_session,
  expired_challenge, expired_session, expired_rate,
}
use tetrac_login_sdk.Storage.Sql.Query.{find, delete_up_to, find-delete_up_to}
use tetrac_login_sdk.Storage.Sql.Lookups.{session_value}
use tetrac_login_sdk.Storage.Sql.Refines.{Agrees, sql_refines}

-- The world that a sweep leaves.
abbrev swept : ℕ → World Db → World Db
swept n w = record w {
  state = record w.state {
    tables = record w.state.tables {
      sessions = delete_up_to n (expired_session w.now) w.state.tables.sessions;
      challenges = delete_up_to n (expired_challenge w.now) w.state.tables.challenges;
      rates = delete_up_to n (expired_rate w.now) w.state.tables.rates;
    };
  };
}

swept-Agrees : (n : ℕ) (w : World Db) (m : Model) → Agrees w m → Agrees (swept n w) m
swept-Agrees n w m rel = (
  λ a k c t later.
      (ap is_some (
          find-delete_up_to (is_live_challenge a k c t) (expired_challenge w.now) n
            w.state.tables.challenges
            (λ r dead. past (is_challenge a k c r) r.expires_at w.now t dead later))
        ∙ rel.0 a k c t later),
  λ a h t later.
      (ap session_value (
          find-delete_up_to (is_live_session a h t) (expired_session w.now) n
            w.state.tables.sessions
            (λ r dead. past (is_session a h r) r.expires_at w.now t dead later))
        ∙ rel.1 a h t later),
)
  where
    past :
        (b : Bool) (deadline now t : ℕ)
        → leb deadline now ≡ true
        → now ≤ t
        → (b && ltb t deadline) ≡ false
    past b deadline now t dead later = ground arith

module _ (p : Platform) (json : JsonCodec) (returning : Bool) where
  sweep_lem :
      (limit : ℕ) (w : World Db)
      → (sweep_expired p json database returning limit w).1 ≡ swept (row_limit limit) w
  unfolding sweep_expired sweep_table ◌>>=◌ query execute
  sweep_lem limit w = refl

  -- After any operations on challenges and sessions, from a database without rows, a sweep changes
  -- no answer of the operations that follow, whatever its limit.
  pub run-sweep_expired :
      (before ops : List Operation) (limit now : ℕ)
      → (store_run
          (sql_store p json database returning)
          ops
          (sweep_expired p json database returning limit
            (store_run (sql_store p json database returning) before (fresh_database now)).1).1).0
        ≡ (store_run
            (sql_store p json database returning)
            ops
            (store_run (sql_store p json database returning) before (fresh_database now)).1).0
  unfolding find
  run-sweep_expired before ops limit now =
      let w = (store_run (sql_store p json database returning) before (fresh_database now)).1 in
      let m = model_after before now empty_model in
      let rel : Agrees w m =
        run-Rel (sql_refines p json returning) before (fresh_database now) empty_model
          (every before) (λ a k c t later. refl, λ a h t later. refl) in
      ap (λ v. (store_run (sql_store p json database returning) ops v).0) (sweep_lem limit w)
      ∙ (run-model_run (sql_refines p json returning) ops (swept (row_limit limit) w) m (every ops)
            (swept-Agrees (row_limit limit) w m rel)
          ∙ sym (run-model_run (sql_refines p json returning) ops w m (every ops) rel))
