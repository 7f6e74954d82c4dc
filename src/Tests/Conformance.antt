-- ===== src/Tests/Conformance.antt =====
-- The acceptance suite (storage/conformance.ts) on the two stores of the repository.
use tetrac_login_sdk.Prelude.{
  ℕ, ◌+◌, ◌≡◌, refl, true, false, ◌&&◌, some, List, [], ◌∷◌, codes, text_eq, leb, ok, if◌then◌else◌,
  All,
}
use tetrac_login_sdk.Core.Platform.{Platform}
use tetrac_login_sdk.Core.Js.{undefined, truthy}
use tetrac_login_sdk.Core.Config.{default_config, trim}
use tetrac_login_sdk.Core.Types.{evm, sort_wallets_by_slot, solana, funds, signing}
use tetrac_login_sdk.Effect.{World, Act, pure, throw, backend_failed}
use tetrac_login_sdk.Storage.Adapter.{AuthStore}
use tetrac_login_sdk.Storage.Memory.{Memory, memory_adapter, hset, hsetnx, hget, hgetall}
use tetrac_login_sdk.Storage.Keys.{app_scoped}
use tetrac_login_sdk.Storage.Kv.{JsonCodec, kv_store, normalize_email}
use tetrac_login_sdk.Storage.Agreement.{fresh_memory, fresh_database}
use tetrac_login_sdk.Storage.Sql.{SqlDriver}
use tetrac_login_sdk.Storage.Sql.Engine.{sql_store}
use tetrac_login_sdk.Storage.Sql.Tables.{Db, database, query, begin, commit, rollback}
use tetrac_login_sdk.Storage.Sql.Engine
use tetrac_login_sdk.Storage.Kv
use tetrac_login_sdk.Storage.Map.{lookup, insert}
use tetrac_login_sdk.Storage.Sql.Query.{find}
use tetrac_login_sdk.Storage.Sql.Refines.{sql_refines}
use tetrac_login_sdk.Storage.Conformance.{Case, suite, run_case, pk_a}
use tetrac_login_sdk.Storage.Conformance.Cases
use tetrac_login_sdk.Storage.Conformance.Records
use tetrac_login_sdk.Storage.Conformance.Passes.{refining_store_passes}
use tetrac_login_sdk.Storage.Conformance.Faults.{fail_cases, failing_driver_passes}
use tetrac_login_sdk.Tests.Setup.{platform, codec, site}

allowed_lines : (lines : Case) → All (λ line. Unit {0}) lines
allowed_lines [] = tt
allowed_lines (line ∷ lines) = (tt, allowed_lines lines)

allowed_cases : (cases : List Case) → All (λ lines. All (λ line. Unit {0}) lines) cases
allowed_cases [] = tt
allowed_cases (lines ∷ cases) = (allowed_lines lines, allowed_cases cases)

refining_store_passes_example :
    All
      (λ lines.
        (run_case (sql_store platform codec database false) lines (fresh_database 5)).0 ≡ ok tt)
      suite
unfolding find
refining_store_passes_example =
    refining_store_passes (sql_refines platform codec false) (fresh_database 5)
      (λ a k c t later. refl, λ a h t later. refl) (allowed_cases suite)

-- A driver whose connection is gone.
abbrev broken : SqlDriver Db
broken = record {
  query = λ st. throw backend_failed;
  begin = pure tt;
  commit = pure tt;
  rollback = throw backend_failed;
}

failing_driver_passes_example :
    All
      (λ case. (case (fresh_database 5)).0 ≡ ok tt)
      (fail_cases (sql_store platform codec broken false))
unfolding fail_cases
failing_driver_passes_example =
    failing_driver_passes platform codec broken (λ st w. (backend_failed, refl)) false
      (fresh_database 5)

abbrev advance : {S : Type 0} → ℕ → Act S (Unit {0})
advance ms w = (ok tt, record w { now = w.now + ms })

abbrev lower : List ℕ → List ℕ
lower [] = []
lower (c ∷ cs) = (if leb 65 c && leb c 90 then c + 32 else c) ∷ lower cs

abbrev ascii : Platform
ascii = record platform { to_lower_case = lower }

-- A record's text is its key, and a wallet's text is its secret.
abbrev keys_only : JsonCodec
keys_only = record {
  profile_text = λ u. u.public_key;
  parse_profile = λ s. some (Records.make_user (codes "app1") s undefined []);
  wallet_text = λ w. w.encrypted_secret;
  parse_wallet = λ s. some (record {
    chain = if text_eq s (codes "KEEP-ME") then solana else evm;
    role = if text_eq s (codes "NEW") then signing else funds;
    public_key = pk_a;
    encrypted_secret = s;
  });
}

abbrev sql : AuthStore Db
sql = sql_store ascii keys_only database true

abbrev kv : AuthStore Memory
kv = kv_store ascii keys_only memory_adapter (default_config site).key_prefixes

abbrev Pass : {S : Type 0} → World S → Act S (Unit {0}) → Type 0
Pass w case = (case w).0 ≡ ok tt

sql_rates : All (Pass (fresh_database 5)) (
    Cases.allowed_after_window sql advance
    ∷ Cases.window_is_not_extended sql advance
    ∷ Cases.buckets_are_isolated sql advance
    ∷ Cases.is_inert sql advance (codes "pk-0") (codes "h-0") (codes "' OR 1=1 --")
    ∷ [])
unfolding Cases.allowed_after_window Cases.window_is_not_extended Cases.buckets_are_isolated
    Cases.is_inert Engine.hit_rate_limit Engine.put_challenge Engine.take_challenge
    Engine.put_session Engine.get_session query text_eq
sql_rates = (refl, (refl, (refl, (refl, tt))))

sql_records : All (Pass (fresh_database 5)) (
    Records.index_is_per_tenant sql
    ∷ Records.index_ignores_case sql
    ∷ Records.address_is_claimed sql
    ∷ Records.own_record_rewritten sql
    ∷ Records.two_apps_one_address sql
    ∷ Records.dotted_app_ids sql
    ∷ Records.slot_and_pointer_kept sql
    ∷ Records.other_slots_kept sql
    ∷ Records.absent_user sql
    ∷ Records.tenants_by_case sql
    ∷ Records.keys_by_case sql
    ∷ [])
unfolding Records.index_is_per_tenant Records.index_ignores_case Records.address_is_claimed
    Records.own_record_rewritten Records.two_apps_one_address Records.dotted_app_ids
    Records.slot_and_pointer_kept Records.other_slots_kept Records.absent_user
    Records.tenants_by_case Records.keys_by_case query text_eq normalize_email trim begin commit
    rollback Engine.get_user Engine.put_user Engine.put_wallet_slot Engine.set_session_pointer
    Engine.get_public_key_by_email sort_wallets_by_slot truthy
sql_records =
    (refl, (refl, (refl, (refl, (refl, (refl, (refl, (refl, (refl, (refl, (refl, tt)))))))))))

kv_records : All (Pass (fresh_memory 5)) (
    Records.index_is_per_tenant kv
    ∷ Records.index_ignores_case kv
    ∷ Records.address_is_claimed kv
    ∷ Records.own_record_rewritten kv
    ∷ Records.two_apps_one_address kv
    ∷ Records.dotted_app_ids kv
    ∷ Records.slot_and_pointer_kept kv
    ∷ Records.other_slots_kept kv
    ∷ Records.absent_user kv
    ∷ Records.tenants_by_case kv
    ∷ Records.keys_by_case kv
    ∷ [])
unfolding Records.index_is_per_tenant Records.index_ignores_case Records.address_is_claimed
    Records.own_record_rewritten Records.two_apps_one_address Records.dotted_app_ids
    Records.slot_and_pointer_kept Records.other_slots_kept Records.absent_user
    Records.tenants_by_case Records.keys_by_case lookup text_eq normalize_email trim Kv.put_user
    hset hsetnx insert app_scoped Kv.get_public_key_by_email hget Kv.put_wallet_slot
    Kv.set_session_pointer Kv.get_user hgetall Kv.wallet_field Kv.is_wallet_field
    sort_wallets_by_slot truthy
kv_records =
    (refl, (refl, (refl, (refl, (refl, (refl, (refl, (refl, (refl, (refl, (refl, tt)))))))))))
