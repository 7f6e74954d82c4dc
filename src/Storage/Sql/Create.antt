-- ===== src/Storage/Sql/Create.antt =====
-- `createSqlAuthStore` of storage/sql/index.ts: the gate before a store is built. The preflight of the
-- dialect is a parameter.
use tetrac_login_sdk.Prelude.{
  Bool, true, false, not, List, [], ◌∷◌, Text, if◌then◌else◌, Result, ok, err,
}
use tetrac_login_sdk.Core.Platform.{Platform}
use tetrac_login_sdk.Effect.{Act, pure, ◌>>=◌}
use tetrac_login_sdk.Storage.Adapter.{AuthStore}
use tetrac_login_sdk.Storage.Kv.{JsonCodec}
use tetrac_login_sdk.Storage.Sql.{SqlDriver}
use tetrac_login_sdk.Storage.Sql.Engine.{sql_store}

pub data Level : Type 0 where
  error_level : Level
  warn_level : Level

pub record PreflightIssue : Type 0 where
  pub level : Level
  pub code : Text
  pub message : Text

abbrev pub is_error : PreflightIssue → Bool
is_error i = elim i.level [ error_level ↦ true | warn_level ↦ false ]

unfoldable pub issues_where : (PreflightIssue → Bool) → List PreflightIssue → List PreflightIssue
issues_where p [] = []
issues_where p (i ∷ is) = let rest = issues_where p is in if p i then i ∷ rest else rest

-- The store and the warnings that were reported, or the errors of `PreflightError`.
abbrev pub Creation : Type 0 → Type 0
Creation S = Result (List PreflightIssue) (AuthStore S × List PreflightIssue)

abbrev admitted :
    {S : Type 0} → AuthStore S → List PreflightIssue → List PreflightIssue → Creation S
admitted store warnings [] = ok (store, warnings)
admitted store warnings (e ∷ es) = err (e ∷ es)

module _ {S : Type 0} (p : Platform) (json : JsonCodec) (driver : SqlDriver S)
    (supports_returning : Bool) (preflight : Act S (List PreflightIssue)) where
  unfoldable pub gate : List PreflightIssue → Creation S
  unfolding issues_where
  gate issues =
      admitted (sql_store p json driver supports_returning)
        (issues_where (λ i. not (is_error i)) issues) (issues_where is_error issues)

  unfoldable pub create_sql_auth_store : Bool → Act S (Creation S)
  unfolding ◌>>=◌ gate
  create_sql_auth_store skip_preflight =
      if skip_preflight
      then pure (ok (sql_store p json driver supports_returning, []))
      else (preflight >>= λ issues. pure (gate issues))
