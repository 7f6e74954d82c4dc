-- ===== src/Tests/Storage.antt =====
-- The theorems of storage/ at concrete inputs.
use tetrac_login_sdk.Prelude.{
  ℕ, List, ◌≡◌, refl, true, some, [], ◌∷◌, codes, ok, leb, arith, lacks, Result, text_eq,
}
use tetrac_login_sdk.Effect.{World, Fault, ◌>>=◌, ◌>>◌}
use tetrac_login_sdk.Core.Config.{KeyPrefixes, default_config}
use tetrac_login_sdk.Storage.Adapter.{RateLimitBucket, RateLimitResult}
use tetrac_login_sdk.Storage.Memory.{
  Memory, empty_memory, incr, expire, alive, is_expired, put_entry,
}
use tetrac_login_sdk.Storage.Map.{lookup, insert}
use tetrac_login_sdk.Storage.Decimal.{to_decimal, parse_int}
use tetrac_login_sdk.Storage.Memory.Laws.{live, unless_expired}
use tetrac_login_sdk.Storage.Kv.{hit_rate_limit, stamp_window, rate_limit_key}
use tetrac_login_sdk.Storage.Keys.{app_scoped-injective}
use tetrac_login_sdk.Storage.Kv.RateLimit.{hit, at, run, recovers, decided_by_number}
use tetrac_login_sdk.Storage.Kv.Challenges.{issue, take, later, taken_once}
use tetrac_login_sdk.Storage.Kv.Emails.{claim, holder, first_claim_wins}
use tetrac_login_sdk.Storage.Memory.{hash_of}
use tetrac_login_sdk.Storage.Kv.{normalize_email}
use tetrac_login_sdk.Core.Config.{trim, drop_while, is_space}
use tetrac_login_sdk.Effect.{email_taken}
use tetrac_login_sdk.Prelude.{false, ltb, err, if◌then◌else◌}
use tetrac_login_sdk.Tests.Setup.{platform, codec, site, key, nonce, with_alice}

abbrev prefixes : KeyPrefixes
prefixes = (default_config site).key_prefixes

app_scoped-injective_example : (codes "ttc" ≡ codes "ttc") × (codes "a:b" ≡ codes "a:b")
unfolding lacks
app_scoped-injective_example =
    app_scoped-injective prefixes.session (codes "ttc") (codes "a:b") (codes "ttc") (codes "a:b")
      refl refl refl

abbrev logins : RateLimitBucket
logins = record {
  endpoint = codes "login";
  app_id = some (codes "ttc");
  identifier = codes "a@b.c";
}

abbrev fresh : World Memory
fresh = record { state = empty_memory; draws = 0; now = 0 }

abbrev try : World Memory → Result Fault RateLimitResult × World Memory
try = hit platform codec prefixes logins 59 1

abbrev tries : List ℕ → World Memory → World Memory
tries = run platform codec prefixes logins 59 1

abbrev then_at : ℕ → World Memory → World Memory
then_at = at platform codec prefixes logins 59 1

-- One try a minute, and a third one within it.
decided_by_number_example :
    (try (then_at 300 (tries (100 ∷ 200 ∷ []) fresh))).0
    ≡ ok (record { allowed = leb 3 1; remaining = 0 })
unfolding live unless_expired lookup
decided_by_number_example =
    decided_by_number platform codec prefixes logins 59 1 fresh 100 (200 ∷ []) 300 refl
      ((omega arith, omega arith), tt) (omega arith, omega arith)

-- Two tries in a row, a third before the deadline that the second set, and one after it.
recovers_example :
    (try (then_at 60200 (tries (300 ∷ []) (tries (100 ∷ 200 ∷ []) fresh)))).0
    ≡ ok (record { allowed = true; remaining = 0 })
unfolding run lookup insert text_eq hit_rate_limit stamp_window rate_limit_key incr expire
    to_decimal parse_int ◌>>=◌ ◌>>◌ alive is_expired put_entry
recovers_example =
    recovers platform codec prefixes logins 59 1 (tries (100 ∷ 200 ∷ []) fresh) (300 ∷ []) 60200 2
      60200 refl (omega arith) (omega arith, tt) (omega arith) (omega arith)

-- Issued for a minute, presented in time, and presented again.
taken_once_example :
    ((take platform codec prefixes (codes "ttc") key nonce (
        later platform codec prefixes 500
          (issue platform codec prefixes (codes "ttc") key nonce 60 fresh))).0
      ≡ ok (ltb 500 60000))
    × ((take platform codec prefixes (codes "ttc") key nonce (
          later platform codec prefixes 600
            (take platform codec prefixes (codes "ttc") key nonce (
              later platform codec prefixes 500
                (issue platform codec prefixes (codes "ttc") key nonce 60 fresh))).1)).0
        ≡ ok false)
taken_once_example = taken_once platform codec prefixes (codes "ttc") key nonce 59 500 600 fresh

-- Alice's address, claimed by another key.
first_claim_wins_example :
    ((claim platform codec prefixes (codes "a@b.c") (codes "ttc") (codes "other") with_alice).0
      ≡ (if text_eq key (codes "other") then ok tt else err email_taken))
    × (holder platform codec prefixes
          (codes "a@b.c")
          (codes "ttc")
          (claim platform codec prefixes (codes "a@b.c") (codes "ttc") (codes "other") with_alice).1
        ≡ some key)
unfolding lookup text_eq hash_of normalize_email trim drop_while is_space
first_claim_wins_example =
    first_claim_wins platform codec prefixes (codes "a@b.c") (codes "ttc") (codes "other")
      with_alice
