-- ===== src/Storage/Sql/Drivers.antt =====
-- storage/sql/drivers.ts: a transaction on a connection of a pool (`pgDriver`, `mysqlDriver`), what
-- `mysqlDriver` makes of an answer, and what `sqliteDriver` makes of a statement without columns.
mod Steps
use tetrac_login_sdk.Prelude.{
  ℕ, ◌+◌, ◌-◌, ◌≡◌, refl, ap, ◌∙◌, Option, none, some, List, [], ◌∷◌, map, Text, codes, Result, ok,
  err, arith,
}
use tetrac_login_sdk.Effect.{World, Act, Fault, backend_failed, pure, throw, continue, ◌>>=◌, ◌>>◌}
use tetrac_login_sdk.Storage.Sql.{Row, affected_row}

-- A pool, seen by one transaction: `connect` or `getConnection`, which a client may not have, and
-- the calls on the connection that it gives.
pub record Pool (S : Type 0) : Type 0 where
  pub connect : Option (Act S (Unit {0}))
  pub begin : Act S (Unit {0})
  pub commit : Act S (Unit {0})
  pub rollback : Act S (Unit {0})
  pub release : Act S (Unit {0})

module _ {S A : Type 0} where
  -- `finally`: an error of its own would replace the outcome.
  unfoldable pub finally : Act S (Unit {0}) → Result Fault A → Act S A
  finally cleanup r w = let c = cleanup w in (elim c.0 [ ok _ ↦ r | err e ↦ err e ], c.1)

  -- The `catch`: a ROLLBACK whose error is ignored, and the error again.
  unfoldable pub undo : Pool S → Result Fault A → World S → Result Fault A × World S
  undo pool (ok a) w = (ok a, w)
  undo pool (err e) w = (err e, (pool.rollback w).1)

  -- From BEGIN to COMMIT, on the connection.
  unfoldable pub on_connection : Pool S → Act S A → Act S A
  unfolding ◌>>=◌ ◌>>◌ finally undo
  on_connection pool fn w =
      let r = (pool.begin >> (fn >>= λ a. pool.commit >> pure a)) w in
      let u = undo pool r.0 r.1 in finally pool.release u.0 u.1

  unfoldable pub pool_transaction : Pool S → Act S A → Act S A
  unfolding ◌>>◌ on_connection
  pool_transaction pool fn = elim pool.connect [
    | none ↦ throw backend_failed
    | some connect ↦ connect >> on_connection pool fn
  ]

module _ {S : Type 0} where
  -- `stmt.all`, and where it throws `stmt.run`, whose answer is the number of changes.
  unfoldable pub sqlite_query : Act S (List Row) → Act S ℕ → Act S (List Row)
  unfolding ◌>>=◌
  sqlite_query all run w =
      let r = all w in
      elim r.0 [
        | ok rows ↦ (ok rows, r.1)
        | err e ↦ (run >>= λ changes. pure (affected_row changes ∷ [])) r.1
      ]

-- A value of a column: a text, the bytes of a VARBINARY column, or a number or null.
pub data Cell : Type 0 where
  text : Text → Cell
  bytes : List ℕ → Cell
  number : ℕ → Cell
  null : Cell

-- What mysql2 answers: rows, or the header of a write with its `affectedRows`.
pub data Reply : Type 0 where
  rows : List (List (Text × Cell)) → Reply
  header : Option ℕ → Reply

module _ (utf8_decode : List ℕ → Text) where
  unfoldable pub decode : Cell → Cell
  decode (bytes b) = text (utf8_decode b)
  decode (text s) = text s
  decode (number n) = number n
  decode null = null

  unfoldable pub mysql_rows : Reply → List (List (Text × Cell))
  unfolding decode
  mysql_rows (rows rs) = map (map (λ kv. (kv.0, decode kv.1))) rs
  mysql_rows (header (some n)) = ((codes "affected", number n) ∷ []) ∷ []
  mysql_rows (header none) = []

-- How many connections are checked out, in a world: what the pool's calls are documented to do to it.
pub record Counts (S : Type 0) (pool : Pool S) : Type 0 where
  pub out : World S → ℕ
  pub connects :
      (connect : Act S (Unit {0})) (w : World S)
      → pool.connect ≡ some connect
      → out (connect w).1 ≡ (elim (connect w).0 [ ok _ ↦ out w + 1 | err _ ↦ out w ])
  pub begins : (w : World S) → out (pool.begin w).1 ≡ out w
  pub commits : (w : World S) → out (pool.commit w).1 ≡ out w
  pub rolls_back : (w : World S) → out (pool.rollback w).1 ≡ out w
  pub releases : (w : World S) → out (pool.release w).1 ≡ out w - 1

module _ {S : Type 0} {pool : Pool S} (counts : Counts S pool) where
  -- An action that gives back what it checks out.
  abbrev pub Balanced : {A : Type 0} → Act S A → Type 0
  Balanced m = (w : World S) → counts.out (m w).1 ≡ counts.out w

  Balanced->>= :
      {A B : Type 0} (m : Act S A) (f : A → Act S B)
      → Balanced m
      → ((a : A) → Balanced (f a))
      → Balanced (m >>= f)
  unfolding ◌>>=◌
  Balanced->>= {A} {B} m f hm hf w = after (m w).0 (m w).1 (hm w)
    where
      after :
          (r : Result Fault A) (v : World S)
          → counts.out v ≡ counts.out w
          → counts.out (continue r f v).1 ≡ counts.out w
      after (ok a) v e = hf a v ∙ e
      after (err x) v e = e

  module _ {A : Type 0} (fn : Act S A) (given : Balanced fn) where
    body-Balanced : Balanced (pool.begin >> (fn >>= λ a. pool.commit >> pure a))
    unfolding ◌>>◌ ◌>>=◌
    body-Balanced =
        Balanced->>= pool.begin (λ _. fn >>= λ a. pool.commit >> pure a) counts.begins
          (λ _.
            Balanced->>= fn (λ a. pool.commit >> pure a) given
              (λ a. Balanced->>= pool.commit (λ _. pure a) counts.commits (λ _ w. refl)))

    undo-Balanced : (r : Result Fault A) (w : World S) → counts.out (undo pool r w).1 ≡ counts.out w
    unfolding undo
    undo-Balanced (ok a) w = refl
    undo-Balanced (err e) w = counts.rolls_back w

    on_connection_lem : (w : World S) → counts.out (on_connection pool fn w).1 ≡ counts.out w - 1
    unfolding on_connection finally
    on_connection_lem w =
        let r = (pool.begin >> (fn >>= λ a. pool.commit >> pure a)) w in
        counts.releases (undo pool r.0 r.1).1
        ∙ ap (λ n. n - 1) (undo-Balanced r.0 r.1 ∙ body-Balanced w)

    -- A transaction gives its connection back in every case: whether the callback returns or throws,
    -- and whether or not the checkout, BEGIN, COMMIT, ROLLBACK or the release throw, where the
    -- callback gives back what it checks out itself.
    pool_transaction-Balanced : Balanced (pool_transaction pool fn)
    unfolding pool_transaction ◌>>◌
    pool_transaction-Balanced w = by_client pool.connect refl
      where
        connected :
            (r : Result Fault (Unit {0})) (v : World S)
            → counts.out v ≡ (elim r [ ok _ ↦ counts.out w + 1 | err _ ↦ counts.out w ])
            → counts.out (continue r (λ _. on_connection pool fn) v).1 ≡ counts.out w
        connected (ok _) v e = omega (arith, on_connection_lem v)
        connected (err x) v e = e

        by_client :
            (c : Option (Act S (Unit {0})))
            → pool.connect ≡ c
            → counts.out
                ((elim c as (λ _. Act S A) [
                  | none ↦ throw backend_failed
                  | some connect ↦ connect >> on_connection pool fn
                ])
                  w).1
              ≡ counts.out w
        by_client none e = refl
        by_client (some connect) e =
            connected (connect w).0 (connect w).1 (counts.connects connect w e)
