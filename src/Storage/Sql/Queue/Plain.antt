-- ===== src/Storage/Sql/Queue/Plain.antt =====
-- Statements that callers run outside of a transaction while another caller's is open: `query` of
-- `sqliteDriver` (storage/sql/drivers.ts) is not queued, and all callers share the connection.
use tetrac_login_sdk.Prelude.{
  ◌≡◌, refl, ap, sym, ◌∙◌, Bool, true, false, Option, none, some, List, [], ◌∷◌, map, ok, err,
  Result, Text, arith, subst,
}
use tetrac_login_sdk.Core.Platform.{Platform}
use tetrac_login_sdk.Effect.{World, Act, Fault, backend_failed, ◌>>=◌}
use tetrac_login_sdk.Storage.Kv.{JsonCodec}
use tetrac_login_sdk.Storage.Sql.{Statement, Row, SqlDriver, consume_challenge}
use tetrac_login_sdk.Storage.Sql.Engine.{take_challenge, not_empty}
use tetrac_login_sdk.Storage.Sql.Query.{rows_where, delete_where}
use tetrac_login_sdk.Storage.Sql.Tables.{Tables, execute, challenge_name, is_live_challenge}
use tetrac_login_sdk.Storage.Sql.Queue.{
  Script, throws, Connection, free, within, Queue, finish, Step, begin, begin_throws, ask, commit,
  commit_throws, rollback,
}

abbrev answered : Option (List Row) → Result Fault (List Row)
answered none = err backend_failed
answered (some rows) = ok rows

module _ {D : Type 0} (exec : Statement → D → Option (List Row) × D) where
  -- `query` of the driver: it runs at once, on the connection as it is.
  unfoldable pub plain_query : Statement → Act (Queue D) (List Row)
  plain_query st w =
      let r = exec st w.state.db in (answered r.0, record w { state = record w.state { db = r.1 } })

  -- Steps of the queue through states in which a transaction is open.
  pub data Open : Queue D → Queue D → Type 0 where
    here : {q : Queue D} → Open q q
    onward :
        {q r z : Queue D} (saved : D) (s rest : Script)
        → Step exec q r
        → r.connection ≡ within saved s rest
        → Open r z
        → Open q z

  -- The contents that a connection's transaction began at.
  abbrev began : D → Connection D → D
  began d free = d
  began d (within saved s rest) = saved

  abbrev is_free : Connection D → Bool
  is_free free = true
  is_free (within saved s rest) = false

  not_free :
      {A : Type 0} (c : Connection D) (saved : D) (s rest : Script)
      → c ≡ within saved s rest
      → c ≡ free
      → A
  not_free c saved s rest inside idle =
      let clash : true ≡ false = ap is_free (sym idle) ∙ ap is_free inside in absurd (ground arith)

  -- A step from an open transaction to an open one stays in it.
  Step-within :
      {q r : Queue D} (a b : D) (s t x y : Script)
      → Step exec q r
      → q.connection ≡ within a s x
      → r.connection ≡ within b t y
      → a ≡ b
  unfolding finish
  Step-within {q} a b s t x y (begin u rest idle next) opened after =
      not_free q.connection a s x opened idle
  Step-within {q} a b s t x y (begin_throws u rest idle next) opened after =
      not_free q.connection a s x opened idle
  Step-within a b s t x y (ask saved u st k inside) opened after =
      ap (began a) (sym opened ∙ inside) ∙ ap (began a) after
  Step-within a b s t x y (commit saved u inside) opened after = not_free free b t y after refl
  Step-within a b s t x y (commit_throws saved u inside) opened after =
      ap (began a) (sym opened ∙ inside) ∙ ap (began a) after
  Step-within a b s t x y (rollback saved u inside) opened after = not_free free b t y after refl

  Open-within :
      {q r : Queue D} (a b : D) (s t x y : Script)
      → Open q r
      → q.connection ≡ within a s x
      → r.connection ≡ within b t y
      → a ≡ b
  Open-within a b s t x y here opened after = ap (began a) (sym opened ∙ after)
  Open-within a b s t x y (onward saved u rest step inside more) opened after =
      Step-within a saved s u x rest step opened inside
      ∙ Open-within saved b u t rest y more inside after

  -- A callback that throws is rolled back.
  Step-throws :
      {q r : Queue D} (a : D) (s : Script)
      → Step exec q r
      → q.connection ≡ within a s throws
      → r.db ≡ a
  unfolding finish
  Step-throws {q} a s (begin u rest idle next) opened = not_free q.connection a s throws opened idle
  Step-throws {q} a s (begin_throws u rest idle next) opened =
      not_free q.connection a s throws opened idle
  Step-throws a s (ask saved u st k inside) opened = absurd (ground arith)
  Step-throws a s (commit saved u inside) opened = absurd (ground arith)
  Step-throws a s (commit_throws saved u inside) opened = absurd (ground arith)
  Step-throws a s (rollback saved u inside) opened = ap (began a) (sym inside ∙ opened)

-- The tables of a database, as the connection runs statements on them.
abbrev ran : Option (List Row × Tables) → Tables → Option (List Row) × Tables
ran none t = (none, t)
ran (some (rows, u)) t = (some rows, u)

unfoldable pub run : Statement → Tables → Option (List Row) × Tables
unfolding execute
run st t = ran (execute st t) t

rows_where-delete_where :
    {R : Type 0} (p : R → Bool) (t : List R) → rows_where p (delete_where p t) ≡ []
unfolding rows_where delete_where
rows_where-delete_where p [] = refl
rows_where-delete_where p (r ∷ t) = ground (arith, rows_where-delete_where p t)

module _ (p : Platform) (json : JsonCodec) (driver : SqlDriver (Queue Tables)) where
  -- A driver whose plain queries are those of the shared connection.
  abbrev pub IsShared : Type 0
  IsShared = (st : Statement) (w : World (Queue Tables)) → driver.query st w ≡ plain_query run st w

  module _ (shared : IsShared) (a k c : Text) where
    abbrev take : Act (Queue Tables) Bool
    take = take_challenge p json driver true a k c

    abbrev is_taken : World (Queue Tables) → Bool
    is_taken w =
        not_empty
          (map challenge_name (rows_where (is_live_challenge a k c w.now) w.state.db.challenges))

    abbrev left : World (Queue Tables) → World (Queue Tables)
    left w = record w {
      state = record w.state {
        db = record w.state.db {
          challenges = delete_where (is_live_challenge a k c w.now) w.state.db.challenges;
        };
      };
    }

    take_lem : (w : World (Queue Tables)) → take w ≡ (ok (is_taken w), left w)
    unfolding take_challenge ◌>>=◌ plain_query run execute
    take_lem w = rw (shared (consume_challenge a k c w.now) w) refl

    -- A challenge that is outstanding at the contents that another caller's transaction began at, and
    -- that is taken by a plain query while that transaction is open, is gone at once; but where the
    -- transaction's callback throws, however many of its steps come in between, it is outstanding again
    -- after the step that settles the transaction, and is consumed a second time at the same moment.
    pub take_challenge_undone :
        (w : World (Queue Tables)) (saved other : Tables) (s t rest : Script) (r z : Queue Tables)
        → w.state.connection ≡ within saved s rest
        → (take (record w { state = record w.state { db = saved } })).0 ≡ ok true
        → Open run (take w).1.state r
        → r.connection ≡ within other t throws
        → Step run r z
        → ((take (take w).1).0 ≡ ok false) × ((take (record w { state = z })).0 ≡ ok true)
    take_challenge_undone w saved other s t rest r z inside live more thrown step =
        let after =
          subst (λ (x : Result Fault Bool × World (Queue Tables)). Open run x.1.state r)
            (take_lem w) more in
        let same : saved ≡ other =
          Open-within run saved other s t rest throws after inside thrown in
        let back : z.db ≡ saved = Step-throws run other t step thrown ∙ sym same in
        (
          rw (take_lem w, take_lem (left w))
              (rw (rows_where-delete_where (is_live_challenge a k c w.now) w.state.db.challenges)
                refl),
          rw (take_lem (record w { state = z })) (
              rw back (
                sym (ap (λ x. x.0) (take_lem (record w { state = record w.state { db = saved } })))
                ∙ live)),
        )
