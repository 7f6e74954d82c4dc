-- ===== src/Storage/Sql/Queue/Serial.antt =====
-- Transactions of the queue do not see each other: what they leave is what they leave one at a time.
use tetrac_login_sdk.Prelude.{
  subst, ◌≡◌, refl, sym, ◌∙◌, Bool, true, false, Option, List, [], ◌∷◌, ◌++◌, map, ◌⊎◌, inl, inr,
  some, none, then?, if◌then◌else◌, append_assoc, arith,
}
use mathlib.Core.List.{map-append}
use tetrac_login_sdk.Storage.Sql.{Statement, Row}
use tetrac_login_sdk.Storage.Sql.Queue.{
  Script, returns, throws, asks, Fate, committed, rolled_back, not_begun, Settled, Connection, free,
  within, Queue, enqueue, finish, Step, begin, begin_throws, ask, commit, commit_throws, rollback,
  Reach, start, called, stepped,
}

module _ {D : Type 0} (exec : Statement → D → Option (List Row) × D) where
  -- A callback on its own: whether it returns, and what it leaves.
  unfoldable pub play : Script → D → Bool × D
  play returns d = (true, d)
  play throws d = (false, d)
  play (asks st k) d = let r = exec st d in play (k r.0) r.1

  -- What a settled call leaves: what its callback leaves, or nothing new. A callback that throws is
  -- never committed.
  unfoldable pub left_by : Fate → Script → D → Option D
  unfolding play
  left_by committed s d = if (play s d).0 then some (play s d).1 else none
  left_by rolled_back s d = some d
  left_by not_begun s d = some d

  -- The settled calls, one at a time.
  unfoldable pub replay : List Settled → D → Option D
  replay [] d = some d
  replay (s ∷ ss) d = then? (left_by s.fate s.script d) (replay ss)

  then?-some : (o : Option D) → then? o some ≡ o
  then?-some none = refl
  then?-some (some d) = refl

  replay-append :
      (xs : List Settled) (s : Settled) (d e : D)
      → replay xs d ≡ some e
      → replay (xs ++ (s ∷ [])) d ≡ left_by s.fate s.script e
  unfolding replay
  replay-append [] s d e h = ground (arith, then?-some (left_by s.fate s.script d))
  replay-append (x ∷ xs) s d e h = after (replay-append xs s) (left_by x.fate x.script d) h
    where
      after :
          ((c e : D) → replay xs c ≡ some e → replay (xs ++ (s ∷ [])) c ≡ left_by s.fate s.script e)
          → (o : Option D) → then? o (replay xs) ≡ some e
          → then? o (replay (xs ++ (s ∷ []))) ≡ left_by s.fate s.script e
      after ih (some c) k = ih c e k
      after ih none k = cc

  -- The contents are those of the settled calls, or in a transaction the rest of its callback leads
  -- to what the whole of it leads to from them.
  abbrev Consistent : D → Queue D → Connection D → Type 0
  Consistent d q free = replay q.settled d ≡ some q.db
  Consistent d q (within saved s rest) =
      (replay q.settled d ≡ some saved) × ((rest ≡ throws) ⊎ (play rest q.db ≡ play s saved))

  abbrev running : Connection D → List Script
  running free = []
  running (within saved s rest) = s ∷ []

  abbrev pub in_order : Queue D → List Script
  in_order q = map (λ s. s.script) q.settled ++ (running q.connection ++ q.waiting)

  Step-Consistent :
      {q r : Queue D} (d : D)
      → Step exec q r
      → Consistent d q q.connection
      → Consistent d r r.connection
  unfolding finish left_by play
  Step-Consistent {q} d (begin s rest idle next) h =
      (subst (λ c. Consistent d q c) idle h, inr refl)
  Step-Consistent {q} d (begin_throws s rest idle next) h =
      replay-append q.settled (record { script = s; fate = not_begun }) d q.db
        (subst (λ c. Consistent d q c) idle h)
  Step-Consistent {q} d (ask saved s st k inside) h =
      let (before, same) = subst (λ c. Consistent d q c) inside h in
      (before, elim same [ inl e ↦ absurd (ground arith) | inr e ↦ inr e ])
  Step-Consistent {q} d (commit saved s inside) h =
      let (before, same) = subst (λ c. Consistent d q c) inside h in
      replay-append q.settled (record { script = s; fate = committed }) d saved before
      ∙ elim same [ inl e ↦ absurd (ground arith) | inr e ↦ rw (sym e) refl ]
  Step-Consistent {q} d (commit_throws saved s inside) h =
      let (before, same) = subst (λ c. Consistent d q c) inside h in (before, inl refl)
  Step-Consistent {q} d (rollback saved s inside) h =
      let (before, same) = subst (λ c. Consistent d q c) inside h in
      replay-append q.settled (record { script = s; fate = rolled_back }) d saved before

  Step-in_order : {q r : Queue D} → Step exec q r → in_order r ≡ in_order q
  unfolding finish
  Step-in_order {q} (begin s rest idle next) = rw (idle, next) refl
  Step-in_order {q} (begin_throws s rest idle next) =
      rw (idle, next) (simp (map-append, append_assoc))
  Step-in_order {q} (ask saved s st k inside) = rw inside refl
  Step-in_order {q} (commit saved s inside) = rw inside (simp (map-append, append_assoc))
  Step-in_order {q} (commit_throws saved s inside) = rw inside refl
  Step-in_order {q} (rollback saved s inside) = rw inside (simp (map-append, append_assoc))

  Reach-Consistent :
      {d : D} {calls : List Script} {q : Queue D}
      → Reach exec d calls q
      → Consistent d q q.connection
  unfolding replay enqueue
  Reach-Consistent start = refl
  Reach-Consistent {d} (called {q} s r) = held q.connection (Reach-Consistent r)
    where
      held : (c : Connection D) → Consistent d q c → Consistent d (enqueue s q) c
      held free h = h
      held (within saved whole rest) h = h
  Reach-Consistent {d} (stepped r st) = Step-Consistent d st (Reach-Consistent r)

  Reach-in_order :
      {d : D} {calls : List Script} {q : Queue D} → Reach exec d calls q → in_order q ≡ calls
  unfolding enqueue
  Reach-in_order start = refl
  Reach-in_order (called {q} s r) = rw (sym (Reach-in_order r)) (simp (append_assoc))
  Reach-in_order (stepped r st) = Step-in_order st ∙ Reach-in_order r

  -- However the callers' statements are timed, where every statement is one of a transaction:
  -- whenever no transaction is open, the database holds what the settled calls leave one at a time,
  -- of which a call that was not committed leaves nothing, and only a callback that returns is
  -- committed. The calls are settled in the order in which they were made.
  pub Reach-serial :
      {d : D} {calls : List Script} {q : Queue D}
      → Reach exec d calls q
      → q.connection ≡ free
      → (replay q.settled d ≡ some q.db) × (map (λ s. s.script) q.settled ++ q.waiting ≡ calls)
  Reach-serial {d} {calls} {q} r idle = (
    subst (λ c. Consistent d q c) idle (Reach-Consistent r),
    subst (λ c. map (λ s. s.script) q.settled ++ (running c ++ q.waiting) ≡ calls) idle
        (Reach-in_order r),
  )
