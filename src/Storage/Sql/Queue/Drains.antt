-- ===== src/Storage/Sql/Queue/Drains.antt =====
-- The queue comes to rest: no statement, callback or call keeps it busy for ever.
use mathlib.Core.WellFounded.{Acc}
use tetrac_login_sdk.Prelude.{◌≡◌, refl, sym, ◌∙◌, Option, List, [], ◌∷◌, arith}
use tetrac_login_sdk.Storage.Sql.{Statement, Row}
use tetrac_login_sdk.Storage.Sql.Queue.{
  Script, returns, throws, asks, Connection, free, within, Queue, finish, Step, begin, begin_throws,
  ask, commit, commit_throws, rollback,
}

module _ {D : Type 0} (exec : Statement → D → Option (List Row) × D) where
  abbrev pub Next : Queue D → Queue D → Type 0
  Next r q = Step exec q r

  -- Every queue of these calls whose connection is as said comes to rest.
  abbrev Rests : List Script → Connection D → Type 0
  Rests ws c = (q : Queue D) → q.connection ≡ c → q.waiting ≡ ws → Acc Next q

  throws-Rests :
      (ws : List Script) (saved : D) (s : Script) → Rests ws free → Rests ws (within saved s throws)
  unfolding finish
  throws-Rests ws saved s idle q here calls = Acc.intro q (λ r st. after r st here calls)
    where
      after :
          {q : Queue D} (r : Queue D)
          → Step exec q r
          → q.connection ≡ within saved s throws
          → q.waiting ≡ ws
          → Acc Next r
      after r (begin _ _ f _) e w = absurd (ground arith)
      after r (begin_throws _ _ f _) e w = absurd (ground arith)
      after r (ask _ _ _ _ f) e w = absurd (ground arith)
      after r (commit _ _ f) e w = absurd (ground arith)
      after r (commit_throws _ _ f) e w = absurd (ground arith)
      after r (rollback _ _ f) e w = idle r refl w

  within-Rests :
      (rest : Script) (ws : List Script) (saved : D) (s : Script)
      → Rests ws free
      → Rests ws (within saved s rest)
  unfolding finish
  within-Rests throws ws saved s idle = throws-Rests ws saved s idle
  within-Rests returns ws saved s idle = λ q here calls. Acc.intro q (λ r st. after r st here calls)
    where
      after :
          {q : Queue D} (r : Queue D)
          → Step exec q r
          → q.connection ≡ within saved s returns
          → q.waiting ≡ ws
          → Acc Next r
      after r (begin _ _ f _) e w = absurd (ground arith)
      after r (begin_throws _ _ f _) e w = absurd (ground arith)
      after r (ask _ _ _ _ f) e w = absurd (ground arith)
      after r (commit _ _ f) e w = idle r refl w
      after r (commit_throws b t f) e w = throws-Rests ws b t idle r refl w
      after r (rollback _ _ f) e w = absurd (ground arith)
  within-Rests (asks st k) ws saved s idle = λ q here calls.
      Acc.intro q
        (λ r step. after (λ answer. within-Rests (k answer) ws saved s idle) r step here calls)
    where
      after :
          ((answer : Option (List Row)) → Rests ws (within saved s (k answer)))
          → {q : Queue D} (r : Queue D) → Step exec q r
          → q.connection ≡ within saved s (asks st k)
          → q.waiting ≡ ws
          → Acc Next r
      after ih r (begin _ _ f _) e w = absurd (ground arith)
      after ih r (begin_throws _ _ f _) e w = absurd (ground arith)
      after ih {q} r (ask b t st' k' f) e w =
          let same : within b t (asks st' k') ≡ within saved s (asks st k) = sym f ∙ e in
          ih (exec st' q.db).0 r (cc) w
      after ih r (commit _ _ f) e w = absurd (ground arith)
      after ih r (commit_throws _ _ f) e w = absurd (ground arith)
      after ih r (rollback _ _ f) e w = absurd (ground arith)

  free-Rests : (ws : List Script) → Rests ws free
  unfolding finish
  free-Rests [] q here calls = Acc.intro q (λ r st. after r st here calls)
    where
      after :
          {q : Queue D} (r : Queue D)
          → Step exec q r
          → q.connection ≡ free
          → q.waiting ≡ []
          → Acc Next r
      after r (begin _ _ _ f) e w = absurd (ground arith)
      after r (begin_throws _ _ _ f) e w = absurd (ground arith)
      after r (ask _ _ _ _ f) e w = absurd (ground arith)
      after r (commit _ _ f) e w = absurd (ground arith)
      after r (commit_throws _ _ f) e w = absurd (ground arith)
      after r (rollback _ _ f) e w = absurd (ground arith)
  free-Rests (c ∷ cs) q here calls = Acc.intro q (λ r st.
      after (free-Rests cs) (λ saved s. within-Rests s cs saved s (free-Rests cs)) r st here calls)
    where
      after :
          Rests cs free
          → ((saved : D) (s : Script) → Rests cs (within saved s s))
          → {q : Queue D} (r : Queue D) → Step exec q r
          → q.connection ≡ free
          → q.waiting ≡ c ∷ cs
          → Acc Next r
      after idle busy {q} r (begin s rest _ f) e w = busy q.db s r refl (ground arith)
      after idle busy r (begin_throws _ _ _ f) e w = idle r refl (ground arith)
      after idle busy r (ask _ _ _ _ f) e w = absurd (ground arith)
      after idle busy r (commit _ _ f) e w = absurd (ground arith)
      after idle busy r (commit_throws _ _ f) e w = absurd (ground arith)
      after idle busy r (rollback _ _ f) e w = absurd (ground arith)

  -- A queue that no step moves on has settled every call.
  Next-stuck :
      (q : Queue D) → ((r : Queue D) → ¬ Step exec q r) → (q.connection ≡ free) × (q.waiting ≡ [])
  Next-stuck q stuck = by_connection q.connection q.waiting refl refl
    where
      by_connection :
          (c : Connection D) (ws : List Script)
          → q.connection ≡ c
          → q.waiting ≡ ws
          → (q.connection ≡ free) × (q.waiting ≡ [])
      by_connection free [] e w = (e, w)
      by_connection free (s ∷ rest) e w = absurd (stuck _ (begin s rest e w))
      by_connection (within saved s returns) ws e w = absurd (stuck _ (commit saved s e))
      by_connection (within saved s throws) ws e w = absurd (stuck _ (rollback saved s e))
      by_connection (within saved s (asks st k)) ws e w = absurd (stuck _ (ask saved s st k e))

  -- While no call is made, every sequence of steps ends, whatever the statements answer and whether
  -- or not BEGIN and COMMIT throw, and where it ends no transaction is open and no call waits.
  pub Step-terminates :
      (q : Queue D)
      → Acc Next q × (((r : Queue D) → ¬ Step exec q r) → (q.connection ≡ free) × (q.waiting ≡ []))
  Step-terminates q = (settle_all q.connection refl, Next-stuck q)
    where
      settle_all : (c : Connection D) → q.connection ≡ c → Acc Next q
      settle_all free e = free-Rests q.waiting q e refl
      settle_all (within saved s rest) e =
          within-Rests rest q.waiting saved s (free-Rests q.waiting) q e refl
