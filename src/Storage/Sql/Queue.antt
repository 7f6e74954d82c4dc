-- ===== src/Storage/Sql/Queue.antt =====
-- storage/sql/drivers.ts: the queue of `sqliteDriver`. Callers share one connection; the callback of
-- a transaction waits for its answers, and other callers run meanwhile.
pub mod Serial
pub mod Drains
pub mod Plain
use tetrac_login_sdk.Prelude.{ℕ, ◌≡◌, Bool, true, false, Option, List, [], ◌∷◌, ◌++◌}
use tetrac_login_sdk.Storage.Sql.{Statement, Row}

-- What is left of a callback: it returns, it throws, or it waits for a statement, whose answer is
-- `none` where the statement throws.
pub data Script : Type 0 where
  returns : Script
  throws : Script
  asks : Statement → (Option (List Row) → Script) → Script

-- How a call of `transaction` ended. `not_begun` is a BEGIN that throws.
pub data Fate : Type 0 where
  committed : Fate
  rolled_back : Fate
  not_begun : Fate

pub record Settled : Type 0 where
  pub script : Script
  pub fate : Fate

-- The connection: between transactions, or in one that began at some contents, with the callback
-- that it was called with and what is left of it.
pub data Connection (D : Type 0) : Type 0 where
  free : Connection D
  within : D → Script → Script → Connection D

pub record Queue (D : Type 0) : Type 0 where
  pub db : D
  pub connection : Connection D
  -- Calls that are chained on `tail`, the oldest first.
  pub waiting : List Script
  -- Calls whose promise is settled, the oldest first.
  pub settled : List Settled

abbrev pub fresh : {D : Type 0} → D → Queue D
fresh d = record { db = d; connection = free; waiting = []; settled = [] }

-- `transaction(fn)`: chained on the tail.
unfoldable pub enqueue : {D : Type 0} → Script → Queue D → Queue D
enqueue s q = record q { waiting = q.waiting ++ (s ∷ []) }

unfoldable pub finish : {D : Type 0} → Script → Fate → Queue D → Queue D
finish s f q = record q {
  connection = free;
  settled = q.settled ++ (record { script = s; fate = f } ∷ []);
}

module _ {D : Type 0} (exec : Statement → D → Option (List Row) × D) where
  -- The oldest call runs once the one before it is settled, from BEGIN IMMEDIATE on. A COMMIT that
  -- throws lands in the `catch`. A ROLLBACK that throws is ignored: the transaction is over.
  pub data Step : Queue D → Queue D → Type 0 where
    begin :
        {q : Queue D} (s : Script) (rest : List Script)
        → q.connection ≡ free
        → q.waiting ≡ s ∷ rest
        → Step q (record q { connection = within q.db s s; waiting = rest })
    begin_throws :
        {q : Queue D} (s : Script) (rest : List Script)
        → q.connection ≡ free
        → q.waiting ≡ s ∷ rest
        → Step q (finish s not_begun (record q { waiting = rest }))
    ask :
        {q : Queue D} (saved : D) (s : Script) (st : Statement) (k : Option (List Row) → Script)
        → q.connection ≡ within saved s (asks st k)
        → Step q
            (record q { db = (exec st q.db).1; connection = within saved s (k (exec st q.db).0) })
    commit :
        {q : Queue D} (saved : D) (s : Script)
        → q.connection ≡ within saved s returns
        → Step q (finish s committed q)
    commit_throws :
        {q : Queue D} (saved : D) (s : Script)
        → q.connection ≡ within saved s returns
        → Step q (record q { connection = within saved s throws })
    rollback :
        {q : Queue D} (saved : D) (s : Script)
        → q.connection ≡ within saved s throws
        → Step q (finish s rolled_back (record q { db = saved }))

  -- The states that calls, in this order, and steps lead to.
  pub data Reach (d : D) : List Script → Queue D → Type 0 where
    start : Reach d [] (fresh d)
    called :
        {calls : List Script} {q : Queue D} (s : Script)
        → Reach d calls q
        → Reach d (calls ++ (s ∷ [])) (enqueue s q)
    stepped : {calls : List Script} {q r : Queue D} → Reach d calls q → Step q r → Reach d calls r
