-- ===== src/Tests/Queue.antt =====
-- The theorems on the drivers of SQL (storage/sql/drivers.ts) at concrete inputs.
use mathlib.Core.WellFounded.{Acc}
use tetrac_login_sdk.Prelude.{
  ℕ, ◌+◌, ◌≡◌, refl, true, Option, some, List, [], ◌∷◌, map, ◌++◌, codes, text_eq, Bool, false, ok,
}
use tetrac_login_sdk.Effect.{World, Act, throw, backend_failed}
use tetrac_login_sdk.Storage.Sql.{SqlDriver, Statement, Row, select_user}
use tetrac_login_sdk.Storage.Sql.Engine.{take_challenge}
use tetrac_login_sdk.Storage.Sql.Tables.{no_rows}
use tetrac_login_sdk.Storage.Sql.Queue.{
  Script, returns, throws, asks, committed, rolled_back, Settled, free, within, Queue, enqueue,
  finish, Step, begin as begin_step, ask, commit, rollback as rollback_step, Reach, start, called,
  stepped,
}
use tetrac_login_sdk.Storage.Sql.Queue.Serial.{replay, Reach-serial}
use tetrac_login_sdk.Storage.Sql.Queue.Drains.{Next, Step-terminates}
use tetrac_login_sdk.Storage.Sql.Queue.Plain.{plain_query, run, here, onward, take_challenge_undone}
use tetrac_login_sdk.Storage.Sql.Query.{rows_where, delete_where}
use tetrac_login_sdk.Storage.Sql.Tables.{Tables, execute}
use tetrac_login_sdk.Tests.Setup.{platform, codec, key, nonce}

-- A database that counts its statements.
abbrev tick : Statement → ℕ → Option (List Row) × ℕ
tick st d = (some [], d + 1)

abbrev look : Statement
look = select_user (codes "ttc") (codes "K")

-- A callback that asks and returns, and one that asks and throws.
abbrev good : Script
good = asks look (λ _. returns)

abbrev bad : Script
bad = asks look (λ _. throws)

abbrev two_settled : List Settled
two_settled =
    record { script = good; fate = committed } ∷ record { script = bad; fate = rolled_back } ∷ []

abbrev quiet : Queue ℕ
quiet = record { db = 1; connection = free; waiting = []; settled = two_settled }

-- The second call is made while the first waits for its answer.
quiet_reached : Reach tick 0 (good ∷ bad ∷ []) quiet
unfolding enqueue finish
quiet_reached =
    stepped
      (stepped
        (stepped
          (stepped
            (stepped (called bad (stepped (called good start) (begin_step good [] refl refl)))
              (ask 0 good look (λ _. returns) refl))
            (commit 0 good refl))
          (begin_step bad [] refl refl))
        (ask 1 bad look (λ _. throws) refl))
      (rollback_step 1 bad refl)

Reach-serial_example :
    (replay tick two_settled 0 ≡ some 1) × (map (λ s. s.script) two_settled ++ [] ≡ good ∷ bad ∷ [])
Reach-serial_example = Reach-serial tick quiet_reached refl

abbrev busy : Queue ℕ
busy = record { db = 0; connection = within 0 good good; waiting = bad ∷ []; settled = [] }

Step-terminates_example :
    Acc (Next tick) busy
    × (((r : Queue ℕ) → ¬ Step tick busy r) → (busy.connection ≡ free) × (busy.waiting ≡ []))
Step-terminates_example = Step-terminates tick busy

abbrev issued : Tables
issued = record no_rows {
  challenges =
      record { app_id = codes "ttc"; public_key = key; challenge = nonce; expires_at = 9 } ∷ [];
}

-- A connection on which a transaction is open whose callback will throw, and what plain queries and
-- its steps lead to.
abbrev held : Queue Tables
held = record { db = issued; connection = within issued bad bad; waiting = []; settled = [] }

abbrev thrown : Queue Tables
thrown = record { db = no_rows; connection = within issued bad throws; waiting = []; settled = [] }

abbrev undone : Queue Tables
undone = record {
  db = issued;
  connection = free;
  waiting = [];
  settled = record { script = bad; fate = rolled_back } ∷ [];
}

abbrev world_of : Queue Tables → World (Queue Tables)
world_of q = record { state = q; draws = 0; now = 5 }

abbrev shared_driver : SqlDriver (Queue Tables)
shared_driver = record {
  query = plain_query run;
  begin = throw backend_failed;
  commit = throw backend_failed;
  rollback = throw backend_failed;
}

abbrev take_it : Act (Queue Tables) Bool
take_it = take_challenge platform codec shared_driver true (codes "ttc") key nonce

consumed : take_it (world_of held) ≡ (ok true, world_of (record held { db = no_rows }))
unfolding take_challenge plain_query run execute rows_where delete_where text_eq
consumed = refl

rolled : Step run thrown undone
unfolding finish
rolled = rollback_step issued bad refl

take_challenge_undone_example :
    ((take_it (world_of (record held { db = no_rows }))).0 ≡ ok false)
    × ((take_it (world_of undone)).0 ≡ ok true)
unfolding take_challenge plain_query run execute rows_where delete_where text_eq
take_challenge_undone_example =
    take_challenge_undone platform codec shared_driver (λ st w. refl) (codes "ttc") key nonce
      (world_of held) issued issued bad bad bad thrown undone refl refl
      (onward issued bad throws (ask issued bad look (λ _. throws) refl) refl here) refl rolled
