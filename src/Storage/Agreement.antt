-- ===== src/Storage/Agreement.antt =====
-- The key-value store over the in-memory adapter and the SQL store over a database, started empty.
use tetrac_login_sdk.Prelude.{ℕ, ◌≡◌, refl, sym, ap, ◌∙◌, Bool, none, List, [], ◌∷◌, ok, All}
use tetrac_login_sdk.Core.Platform.{Platform}
use tetrac_login_sdk.Core.Config.{KeyPrefixes}
use tetrac_login_sdk.Effect.{World}
use tetrac_login_sdk.Storage.Map.{lookup}
use tetrac_login_sdk.Storage.Memory.{Memory, memory_adapter, empty_memory}
use tetrac_login_sdk.Storage.Memory.Laws.{unless_expired}
use tetrac_login_sdk.Storage.Kv.{JsonCodec, kv_store}
use tetrac_login_sdk.Storage.Kv.Refines.{KvAllows, PrefixesApart, kv_refines}
use tetrac_login_sdk.Storage.Sql.{SqlDriver}
use tetrac_login_sdk.Storage.Sql.Serves.{Serves, run-Simulates}
use tetrac_login_sdk.Storage.Sql.Engine.{sql_store}
use tetrac_login_sdk.Storage.Sql.Tables.{Db, database, no_rows}
use tetrac_login_sdk.Storage.Sql.Query.{find}
use tetrac_login_sdk.Storage.Sql.Refines.{sql_refines}
use tetrac_login_sdk.Storage.Contract.{Model, Operation, model_run, store_run, run-model_run}

abbrev pub empty_model : Model
empty_model = record { challenges = λ a k c. none; sessions = λ a h. none }

abbrev pub fresh_memory : ℕ → World Memory
fresh_memory now = record { state = empty_memory; draws = 0; now = now }

abbrev pub fresh_database : ℕ → World Db
fresh_database now = record {
  state = record { tables = no_rows; saved = none };
  draws = 0;
  now = now;
}

pub every : (ops : List Operation) → All (λ op. Unit {0}) ops
every [] = tt
every (op ∷ ops) = (tt, every ops)

module _ (p : Platform) (json : JsonCodec) where
  -- Where the prefixes keep the keys of challenges and sessions apart, the key-value store answers
  -- every sequence of allowed operations as the machine does: no operation throws, a challenge is
  -- outstanding until its deadline or until it is consumed, a session is current until its deadline
  -- or until it is revoked, and no operation touches what belongs to another app, key or token.
  pub kv_run-model_run :
      (prefixes : KeyPrefixes)
      → PrefixesApart prefixes
      → (ops : List Operation) (now : ℕ) → All KvAllows ops
      → (store_run (kv_store p json memory_adapter prefixes) ops (fresh_memory now)).0
        ≡ ok (model_run ops now empty_model)
  unfolding unless_expired lookup
  kv_run-model_run prefixes apart ops now allowed =
      run-model_run (kv_refines p json prefixes apart) ops (fresh_memory now) empty_model allowed
        (λ a k c t fine later. refl, λ a h t fine later. refl)

  -- Over any driver that serves a database, started from a world that shows no rows, the SQL store
  -- answers every sequence of operations as the machine does, whatever the texts, and whether the
  -- dialect has RETURNING or a challenge is taken in a locking transaction.
  pub sql_run-model_run :
      {S : Type 0} {driver : SqlDriver S} (serves : Serves S driver)
      → (returning : Bool) (ops : List Operation) (w : World S) (now : ℕ)
      → serves.view w ≡ fresh_database now
      → (store_run (sql_store p json driver returning) ops w).0 ≡ ok (model_run ops now empty_model)
  unfolding find
  sql_run-model_run serves returning ops w now fresh =
      ((run-Simulates serves p json returning ops).at w).0
      ∙ (ap (λ v. (store_run (sql_store p json database returning) ops v).0) fresh
          ∙ run-model_run (sql_refines p json returning) ops (fresh_database now) empty_model
              (every ops) (λ a k c t later. refl, λ a h t later. refl))

  -- The two stores give the same answers to every sequence of operations that the key-value store
  -- allows, with prefixes that keep the keys of challenges and sessions apart.
  pub kv_run-sql_run :
      (prefixes : KeyPrefixes)
      → PrefixesApart prefixes
      → {S : Type 0} {driver : SqlDriver S} (serves : Serves S driver)
      → (returning : Bool) (ops : List Operation) (w : World S) (now : ℕ)
      → serves.view w ≡ fresh_database now
      → All KvAllows ops
      → (store_run (kv_store p json memory_adapter prefixes) ops (fresh_memory now)).0
        ≡ (store_run (sql_store p json driver returning) ops w).0
  kv_run-sql_run prefixes apart serves returning ops w now fresh allowed =
      kv_run-model_run prefixes apart ops now allowed
      ∙ sym (sql_run-model_run serves returning ops w now fresh)
