-- ===== src/Storage/Sql/Refines.antt =====
-- The SQL store over a database, as the machine of Storage/Contract.
use tetrac_login_sdk.Prelude.{
  ℕ, ◌+◌, ◌*◌, ◌≤◌, ◌≡◌, refl, sym, ap, ◌∙◌, Bool, true, false, Option, none, some, List, Text, ltb,
  is_some, if◌then◌else◌, Bool-cases, &&_split, inl, inr, ok, arith,
}
use tetrac_login_sdk.Core.Platform.{Platform}
use tetrac_login_sdk.Effect.{World, ◌>>=◌, ◌>>◌}
use tetrac_login_sdk.Storage.Kv.{JsonCodec}
use tetrac_login_sdk.Storage.Adapter.{SessionValue}
use tetrac_login_sdk.Storage.Contract.{
  Model, Operation, issue, consume, open_session, look_up, revoke, wait, same_challenge,
  same_session, same_challenge-eq, same_challenge_refl, same_session-eq, same_session_refl,
  outstanding, current, with_challenge, with_session, model_step, passed, session, was_outstanding,
  store_step, Refinement,
}
use tetrac_login_sdk.Storage.Sql.Engine.{
  sql_store, transaction, settle, lock_and_delete, put_challenge, take_challenge, put_session,
  get_session, delete_session,
}
use tetrac_login_sdk.Storage.Sql.Tables.{
  Db, Challenge, Session, database, execute, query, begin, commit, is_challenge, is_live_challenge,
  is_session, is_live_session, Tables, challenge_name,
}
use tetrac_login_sdk.Storage.Sql.Query.{find, delete_where}
use tetrac_login_sdk.Storage.Sql.Lookups.{
  session_value, challenges_with, find-challenges_with, find-challenges_with_other,
  find-delete_challenge, find-delete_challenge_other, sessions_with, find-sessions_with,
  find-sessions_with_other, find-delete_session, find-delete_session_other, is_empty-rows_where,
  session_of-rows_where,
}

-- What reads find, now and at every later time.
abbrev ChallengesAgree : ℕ → List Challenge → (Text → Text → Text → Option ℕ) → Type 0
ChallengesAgree now rows challenges =
    (a k c : Text) (t : ℕ)
    → now ≤ t
    → is_some (find (is_live_challenge a k c t) rows) ≡ outstanding t (challenges a k c)

abbrev SessionsAgree : ℕ → List Session → (Text → Text → Option (SessionValue × ℕ)) → Type 0
SessionsAgree now rows sessions =
    (a h : Text) (t : ℕ)
    → now ≤ t
    → session_value (find (is_live_session a h t) rows) ≡ current t (sessions a h)

abbrev pub Agrees : World Db → Model → Type 0
Agrees w m =
    ChallengesAgree w.now w.state.tables.challenges m.challenges
    × SessionsAgree w.now w.state.tables.sessions m.sessions

module _ (a k c : Text) (now : ℕ) (rows : List Challenge) (m : Model)
    (agree : ChallengesAgree now rows m.challenges) where
  issued_agree :
      (deadline : ℕ)
      → ChallengesAgree now
          (challenges_with a k c deadline rows)
          (with_challenge a k c (some deadline) m).challenges
  issued_agree deadline a' k' c' t later = elim (Bool-cases (same_challenge a k c a' k' c')) [
    | inl same ↦
        (let (x, y, z) = same_challenge-eq a k c a' k' c' same in
          rw (x, y, z)
            (rw (find-challenges_with a k c deadline rows t, same_challenge_refl a k c)
              (ground arith)))
    | inr apart ↦ rw apart (
        ap is_some (find-challenges_with_other a k c deadline rows t a' k' c' apart)
        ∙ agree a' k' c' t later)
  ]

  removed_agree :
      (p : Challenge → Bool)
      → ((r : Challenge) → p r ≡ true → is_challenge a k c r ≡ true)
      → ((t : ℕ) (r : Challenge) → now ≤ t → is_live_challenge a k c t r ≡ true → p r ≡ true)
      → ChallengesAgree now (delete_where p rows) (with_challenge a k c none m).challenges
  removed_agree p inside covers a' k' c' t later =
      elim (Bool-cases (same_challenge a k c a' k' c')) [
        | inl same ↦
            (let (x, y, z) = same_challenge-eq a k c a' k' c' same in
              rw (x, y, z)
                (rw
                  (
                    find-delete_challenge a k c t rows p (λ r. covers t r later),
                    same_challenge_refl a k c,
                  )
                  refl))
        | inr apart ↦ rw apart (
            ap is_some (find-delete_challenge_other a k c t rows p a' k' c' inside apart)
            ∙ agree a' k' c' t later)
      ]

  -- Nothing to delete: the challenge is not outstanding, and never will be again.
  absent_agree :
      outstanding now (m.challenges a k c) ≡ false
      → ChallengesAgree now rows (with_challenge a k c none m).challenges
  absent_agree no_more a' k' c' t later = elim (Bool-cases (same_challenge a k c a' k' c')) [
    | inl same ↦
        (let (x, y, z) = same_challenge-eq a k c a' k' c' same in
          rw (x, y, z)
            (rw (same_challenge_refl a k c)
              (agree a k c t later ∙ stays (m.challenges a k c) no_more)))
    | inr apart ↦ rw apart (agree a' k' c' t later)
  ]
    where
      stays : (d : Option ℕ) → outstanding now d ≡ false → outstanding t d ≡ false
      stays d h = ground arith

module _ (a h : Text) (now : ℕ) (rows : List Session) (m : Model)
    (agree : SessionsAgree now rows m.sessions) where
  opened_agree :
      (v : SessionValue) (deadline : ℕ)
      → SessionsAgree now
          (sessions_with a h v.public_key v.fingerprint deadline rows)
          (with_session a h (some (v, deadline)) m).sessions
  opened_agree v deadline a' h' t later = elim (Bool-cases (same_session a h a' h')) [
    | inl same ↦
        (let (x, y) = same_session-eq a h a' h' same in
          rw (x, y)
            (rw
              (
                find-sessions_with a h v.public_key v.fingerprint deadline rows t,
                same_session_refl a h,
              )
              (ground arith)))
    | inr apart ↦ rw apart (
        ap session_value
          (find-sessions_with_other a h v.public_key v.fingerprint deadline rows t a' h' apart)
        ∙ agree a' h' t later)
  ]

  revoked_agree :
      SessionsAgree now (delete_where (is_session a h) rows) (with_session a h none m).sessions
  revoked_agree a' h' t later = elim (Bool-cases (same_session a h a' h')) [
    | inl same ↦
        (let (x, y) = same_session-eq a h a' h' same in
          rw (x, y) (rw (find-delete_session a h t rows, same_session_refl a h) refl))
    | inr apart ↦
        rw apart (
          ap session_value (find-delete_session_other a h t rows a' h' apart) ∙ agree a' h' t later)
  ]

abbrev left : List Challenge → Option Tables → World Db → World Db
left rows saved w = record w {
  state = record { tables = record w.state.tables { challenges = rows }; saved = saved };
}

module _ (p : Platform) (json : JsonCodec) (a k c : Text) (w : World Db) where
  abbrev rows : List Challenge
  rows = w.state.tables.challenges

  abbrev there : Bool
  there = is_some (find (is_live_challenge a k c w.now) rows)

  take_returning :
      take_challenge p json database true a k c w
      ≡ (ok there, left (delete_where (is_live_challenge a k c w.now) rows) w.state.saved w)
  unfolding take_challenge ◌>>=◌ query execute
  take_returning =
      rw (is_empty-rows_where (is_live_challenge a k c w.now) challenge_name rows) (ground arith)

  take_locking :
      take_challenge p json database false a k c w
      ≡ (ok there, left (if there then delete_where (is_challenge a k c) rows else rows) none w)
  unfolding take_challenge ◌>>=◌ ◌>>◌ transaction settle lock_and_delete query execute begin commit
  take_locking =
      rw (is_empty-rows_where (is_live_challenge a k c w.now) challenge_name rows) (ground arith)

module _ (p : Platform) (json : JsonCodec) (returning : Bool) where
  abbrev StepAgrees : Operation → World Db → Model → Type 0
  StepAgrees op w m =
      ((store_step (sql_store p json database returning) op w).0 ≡ ok (model_step op w.now m).0)
      × ((store_step (sql_store p json database returning) op w).1.now ≡ w.now + passed op)
      × Agrees (store_step (sql_store p json database returning) op w).1 (model_step op w.now m).1

  consumed_agrees :
      (a k c : Text) (w : World Db) (m : Model) (rows' : List Challenge) (saved : Option Tables)
      → Agrees w m
      → take_challenge p json database returning a k c w
        ≡ (ok (there p json a k c w), left rows' saved w)
      → ChallengesAgree w.now rows' (with_challenge a k c none m).challenges
      → StepAgrees (consume a k c) w m
  unfolding store_step model_step ◌>>=◌
  consumed_agrees a k c w m rows' saved rel taken agree = rw taken (
    ap (λ b. ok (was_outstanding b)) (rel.0 a k c w.now (omega arith)),
    omega arith,
    (agree, rel.1),
  )

still_alive :
    (a k c : Text) (now t : ℕ) (r : Challenge)
    → now ≤ t
    → is_live_challenge a k c t r ≡ true
    → is_live_challenge a k c now r ≡ true
still_alive a k c now t r later live =
    let (mine, alive) = &&_split (is_challenge a k c r) (ltb t r.expires_at) live in
    rw mine (ground arith)

module _ (p : Platform) (json : JsonCodec) where
  consume_agrees :
      (returning : Bool) (a k c : Text) (w : World Db) (m : Model)
      → Agrees w m
      → StepAgrees p json returning (consume a k c) w m
  consume_agrees true a k c w m rel =
      consumed_agrees p json true a k c w m _ _ rel (take_returning p json a k c w) (
        removed_agree a k c w.now w.state.tables.challenges m rel.0 (is_live_challenge a k c w.now)
          (λ r live. (&&_split (is_challenge a k c r) _ live).0)
          (λ t r later live. still_alive a k c w.now t r later live))
  consume_agrees false a k c w m rel =
      consumed_agrees p json false a k c w m _ _ rel (take_locking p json a k c w)
        (elim (Bool-cases (there p json a k c w)) [
          | inl found ↦ rw found (
              removed_agree a k c w.now w.state.tables.challenges m rel.0 (is_challenge a k c)
                (λ r mine. mine) (λ t r later live. (&&_split (is_challenge a k c r) _ live).0))
          | inr absent ↦ rw absent (
              absent_agree a k c w.now w.state.tables.challenges m rel.0
                (sym (rel.0 a k c w.now (omega arith)) ∙ absent))
        ])

module _ (p : Platform) (json : JsonCodec) (returning : Bool) where
  pub step_lem :
      (op : Operation) (w : World Db) (m : Model) → Agrees w m → StepAgrees p json returning op w m
  unfolding store_step model_step ◌>>=◌ ◌>>◌ query execute put_challenge put_session get_session
      delete_session
  step_lem (issue a k c seconds) w m rel = (
    refl,
    omega arith,
    (issued_agree a k c w.now w.state.tables.challenges m rel.0 (w.now + seconds * 1000), rel.1),
  )
  step_lem (consume a k c) w m rel = consume_agrees p json returning a k c w m rel
  step_lem (open_session a h v seconds) w m rel = (
    refl,
    omega arith,
    (rel.0, opened_agree a h w.now w.state.tables.sessions m rel.1 v (w.now + seconds * 1000)),
  )
  step_lem (look_up a h) w m rel = (
    ap (λ o. ok (session o))
        (session_of-rows_where (is_live_session a h w.now) w.state.tables.sessions
          ∙ rel.1 a h w.now (omega arith)),
    omega arith,
    rel,
  )
  step_lem (revoke a h) w m rel =
      (refl, omega arith, (rel.0, revoked_agree a h w.now w.state.tables.sessions m rel.1))
  step_lem (wait ms) w m rel = (
    refl,
    refl,
    (λ a k c t later. rel.0 a k c t (omega arith), λ a h t later. rel.1 a h t (omega arith)),
  )

-- Over a database, the SQL store refines the machine, with RETURNING or with a locking transaction.
abbrev pub sql_refines :
    (p : Platform) (json : JsonCodec) (returning : Bool)
    → Refinement Db (sql_store p json database returning) (λ op. Unit {0})
sql_refines p json returning = record {
  Rel = Agrees;
  step = λ op w m allowed. step_lem p json returning op w m;
}
