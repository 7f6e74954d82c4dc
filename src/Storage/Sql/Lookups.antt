-- ===== src/Storage/Sql/Lookups.antt =====
-- What the engine's lookups find in the tables of challenges and of sessions after each statement.
use tetrac_login_sdk.Prelude.{
  ℕ, ◌≡◌, refl, sym, ◌∙◌, Bool, true, false, not, ◌&&◌, Option, none, some, List, [], ◌∷◌, map,
  Text, ltb, is_some, if◌then◌else◌, Bool-cases, inl, inr, arith,
}
use mathlib.Core.Bool.{false≢true}
use tetrac_login_sdk.Storage.Adapter.{SessionValue}
use tetrac_login_sdk.Storage.Contract.{
  same_challenge, same_session, same_challenge-eq, same_challenge_refl, same_session-eq,
  same_session_refl,
}
use tetrac_login_sdk.Storage.Sql.{Row}
use tetrac_login_sdk.Storage.Sql.Engine.{first, is_empty, session_of}
use tetrac_login_sdk.Storage.Sql.Tables.{
  Challenge, Session, is_challenge, is_live_challenge, is_session, is_live_session, session_columns,
}
use tetrac_login_sdk.Storage.Sql.Query.{
  rows_where, delete_where, upsert, find, find-upsert_other, find-upsert_same, find-delete_other,
  find-delete_same,
}

abbrev pub session_value : Option Session → Option SessionValue
session_value none = none
session_value (some r) = some (record { public_key = r.public_key; fingerprint = r.fingerprint })

module _ {R : Type 0} (p : R → Bool) where
  pub is_empty-rows_where :
      (g : R → Row) (t : List R) → is_empty (map g (rows_where p t)) ≡ not (is_some (find p t))
  unfolding rows_where find
  is_empty-rows_where g [] = refl
  is_empty-rows_where g (r ∷ t) = ground (arith, is_empty-rows_where g t)

  pub first-rows_where :
      (g : R → Row) (t : List R)
      → first (map g (rows_where p t)) ≡ (elim (find p t) [ none ↦ none | some r ↦ some (g r) ])
  unfolding rows_where find
  first-rows_where g [] = refl
  first-rows_where g (r ∷ t) = ground (arith, first-rows_where g t)

pub session_of-rows_where :
    (p : Session → Bool) (t : List Session)
    → session_of (map session_columns (rows_where p t)) ≡ session_value (find p t)
unfolding rows_where find
session_of-rows_where p [] = refl
session_of-rows_where p (r ∷ t) = ground (arith, session_of-rows_where p t)

-- A row of one key is not a row of another.
challenge_apart :
    (a k c a' k' c' : Text) (r : Challenge)
    → same_challenge a k c a' k' c' ≡ false
    → is_challenge a k c r ≡ true
    → is_challenge a' k' c' r ≡ false
challenge_apart a k c a' k' c' r apart mine = elim (Bool-cases (is_challenge a' k' c' r)) [
  | inr no_match ↦ no_match
  | inl both ↦
      let (x, y, z) = same_challenge-eq a k c r.app_id r.public_key r.challenge mine in
      let (x', y', z') = same_challenge-eq a' k' c' r.app_id r.public_key r.challenge both in
      absurd (false≢true (sym apart ∙ subst3 (sym x' ∙ x) (sym y' ∙ y) (sym z' ∙ z)))
]
  where
    subst3 : a' ≡ a → k' ≡ k → c' ≡ c → same_challenge a k c a' k' c' ≡ true
    subst3 x y z = rw (x, y, z) (same_challenge_refl a k c)

session_apart :
    (a h a' h' : Text) (r : Session)
    → same_session a h a' h' ≡ false
    → is_session a h r ≡ true
    → is_session a' h' r ≡ false
session_apart a h a' h' r apart mine = elim (Bool-cases (is_session a' h' r)) [
  | inr no_match ↦ no_match
  | inl both ↦
      let (x, y) = same_session-eq a h r.app_id r.token_hash mine in
      let (x', y') = same_session-eq a' h' r.app_id r.token_hash both in
      absurd (false≢true (sym apart ∙ subst2 (sym x' ∙ x) (sym y' ∙ y)))
]
  where
    subst2 : a' ≡ a → h' ≡ h → same_session a h a' h' ≡ true
    subst2 x y = rw (x, y) (same_session_refl a h)

dead_of : (b b' : Bool) → b ≡ false → (b && b') ≡ false
dead_of b b' h = rw h refl

module _ (a k c : Text) (deadline : ℕ) (t : List Challenge) where
  abbrev pub challenge_row_of : Challenge
  challenge_row_of = record { app_id = a; public_key = k; challenge = c; expires_at = deadline }

  abbrev pub challenges_with : List Challenge
  challenges_with =
      upsert (is_challenge a k c) (λ r. record r { expires_at = deadline }) challenge_row_of t

  becomes :
      (r : Challenge)
      → is_challenge a k c r ≡ true
      → record r { expires_at = deadline } ≡ challenge_row_of
  becomes r h =
      let (x, y, z) = same_challenge-eq a k c r.app_id r.public_key r.challenge h in
      rw (x, y, z) refl

  pub find-challenges_with :
      (now : ℕ)
      → find (is_live_challenge a k c now) challenges_with
        ≡ (if ltb now deadline then some challenge_row_of else none)
  find-challenges_with now =
      find-upsert_same (is_live_challenge a k c now) (is_challenge a k c) _ challenge_row_of t
        (λ r miss. dead_of (is_challenge a k c r) (ltb now r.expires_at) miss) becomes
      ∙ rw (same_challenge_refl a k c) refl

  pub find-challenges_with_other :
      (now : ℕ) (a' k' c' : Text)
      → same_challenge a k c a' k' c' ≡ false
      → find (is_live_challenge a' k' c' now) challenges_with
        ≡ find (is_live_challenge a' k' c' now) t
  find-challenges_with_other now a' k' c' apart =
      let miss : (r : Challenge)
          → is_challenge a k c r ≡ true
          → is_live_challenge a' k' c' now r ≡ false =
        λ r mine.
          dead_of (is_challenge a' k' c' r) (ltb now r.expires_at)
            (challenge_apart a k c a' k' c' r apart mine) in
      find-upsert_other (is_live_challenge a' k' c' now) (is_challenge a k c) _ challenge_row_of t
        (λ r mine. (miss r mine, miss (record r { expires_at = deadline }) mine))
        (miss challenge_row_of (same_challenge_refl a k c))

module _ (a k c : Text) (now : ℕ) (t : List Challenge) (p : Challenge → Bool) where
  pub find-delete_challenge :
      ((r : Challenge) → is_live_challenge a k c now r ≡ true → p r ≡ true)
      → find (is_live_challenge a k c now) (delete_where p t) ≡ none
  find-delete_challenge covers = find-delete_same (is_live_challenge a k c now) p t (λ r miss.
      elim (Bool-cases (is_live_challenge a k c now r)) [
        | inl hit ↦ absurd (false≢true (sym miss ∙ covers r hit))
        | inr dead ↦ dead
      ])

  pub find-delete_challenge_other :
      (a' k' c' : Text)
      → ((r : Challenge) → p r ≡ true → is_challenge a k c r ≡ true)
      → same_challenge a k c a' k' c' ≡ false
      → find (is_live_challenge a' k' c' now) (delete_where p t)
        ≡ find (is_live_challenge a' k' c' now) t
  find-delete_challenge_other a' k' c' inside apart =
      find-delete_other (is_live_challenge a' k' c' now) p t (λ r mine.
        dead_of (is_challenge a' k' c' r) (ltb now r.expires_at)
          (challenge_apart a k c a' k' c' r apart (inside r mine)))

module _ (a h : Text) (k : Text) (fingerprint : Option Text) (deadline : ℕ) (t : List Session) where
  abbrev pub session_row_of : Session
  session_row_of = record {
    app_id = a;
    token_hash = h;
    public_key = k;
    fingerprint = fingerprint;
    expires_at = deadline;
  }

  abbrev pub replaced : Session → Session
  replaced r = record r { public_key = k; fingerprint = fingerprint; expires_at = deadline }

  abbrev pub sessions_with : List Session
  sessions_with = upsert (is_session a h) replaced session_row_of t

  becomes_session : (r : Session) → is_session a h r ≡ true → replaced r ≡ session_row_of
  becomes_session r e = let (x, y) = same_session-eq a h r.app_id r.token_hash e in rw (x, y) refl

  pub find-sessions_with :
      (now : ℕ)
      → find (is_live_session a h now) sessions_with
        ≡ (if ltb now deadline then some session_row_of else none)
  find-sessions_with now =
      find-upsert_same (is_live_session a h now) (is_session a h) replaced session_row_of t
        (λ r miss. dead_of (is_session a h r) (ltb now r.expires_at) miss) becomes_session
      ∙ rw (same_session_refl a h) refl

  pub find-sessions_with_other :
      (now : ℕ) (a' h' : Text)
      → same_session a h a' h' ≡ false
      → find (is_live_session a' h' now) sessions_with ≡ find (is_live_session a' h' now) t
  find-sessions_with_other now a' h' apart =
      let miss : (r : Session) → is_session a h r ≡ true → is_live_session a' h' now r ≡ false =
        λ r mine.
          dead_of (is_session a' h' r) (ltb now r.expires_at)
            (session_apart a h a' h' r apart mine) in
      find-upsert_other (is_live_session a' h' now) (is_session a h) replaced session_row_of t
        (λ r mine. (miss r mine, miss (replaced r) mine))
        (miss session_row_of (same_session_refl a h))

module _ (a h : Text) (now : ℕ) (t : List Session) where
  pub find-delete_session : find (is_live_session a h now) (delete_where (is_session a h) t) ≡ none
  find-delete_session =
      find-delete_same (is_live_session a h now) (is_session a h) t
        (λ r miss. dead_of (is_session a h r) (ltb now r.expires_at) miss)

  pub find-delete_session_other :
      (a' h' : Text)
      → same_session a h a' h' ≡ false
      → find (is_live_session a' h' now) (delete_where (is_session a h) t)
        ≡ find (is_live_session a' h' now) t
  find-delete_session_other a' h' apart =
      find-delete_other (is_live_session a' h' now) (is_session a h) t (λ r mine.
        dead_of (is_session a' h' r) (ltb now r.expires_at) (session_apart a h a' h' r apart mine))
