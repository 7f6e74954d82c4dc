-- ===== src/Server/Sessions/Sound.antt =====
-- What an accepted session (`verifySession` of server/session.ts) rests on.
use tetrac_login_sdk.Prelude.{
  true, false, not, ◌||◌, ◌≡◌, refl, sym, subst, ap, ◌∙◌, Option, none, some, Text, [], text_eq,
  text_eq_iff, if◌then◌else◌, ok, arith, Bool-cases, inl, inr,
}
use tetrac_login_sdk.Core.Platform.{Platform}
use tetrac_login_sdk.Core.Crypto.{timing_safe_equal}
use tetrac_login_sdk.Core.Crypto.TimingSafe.{timing_safe_equal_iff}
use tetrac_login_sdk.Core.Types.{UserData}
use tetrac_login_sdk.Effect.{Act, World, pure, ◌>>=◌, >>=-eq_ok}
use tetrac_login_sdk.Storage.Adapter.{AuthStore, SessionValue}
use tetrac_login_sdk.Server.Sessions.{
  verify_session, verify_pair, check_pointer, fingerprint_refused, same_hash,
}

module _ {S : Type 0} (p : Platform) (st : AuthStore S) where
  -- A session that is bound to a browser is accepted from that browser only.
  fingerprint_accepted :
      (stored presented : Option Text) (f : Text)
      → fingerprint_refused p st stored presented ≡ false
      → stored ≡ some f
      → text_eq f [] ≡ false
      → presented ≡ some f
  unfolding fingerprint_refused
  fingerprint_accepted none presented f h e n = absurd (ground arith)
  fingerprint_accepted (some g) none f h e n = absurd (ground arith)
  fingerprint_accepted (some g) (some k) f h e n =
      let same : g ≡ f = ground arith in
      let equal : timing_safe_equal f k ≡ true = ground arith in
      ap some (sym ((timing_safe_equal_iff f k).0 equal))

  points_at :
      (pointer : Option Text) (h : Text) → same_hash p st pointer h ≡ true → pointer ≡ some h
  points_at none h e = absurd (ground arith)
  points_at (some t) h e = ap some ((text_eq_iff t h).0 e)

  check_pointer-some :
      (h : Text) (found : Option UserData) {u : UserData}
      → check_pointer p st h found ≡ some u
      → (found ≡ some u) × (u.auth_token_hash ≡ some h)
  unfolding check_pointer
  check_pointer-some h none e = absurd (ground arith)
  check_pointer-some h (some user) {u} e =
      let same : user ≡ u = ground arith in
      (
        ap some same,
        ap (λ x. x.auth_token_hash) (sym same) ∙ points_at user.auth_token_hash h (ground arith),
      )

-- What lies behind an accepted session: a token and a key were presented, the token's session is
-- the key's and of the same browser where it is bound to one, and the record of the key points at
-- the token.
pub record SessionEvidence (S : Type 0) (p : Platform) (st : AuthStore S) (app_id : Text)
    (token pk presented : Option Text) (w : World S) (u : UserData) (v : World S) : Type 0 where
  pub given_token : Text
  pub given_key : Text
  pub session : SessionValue
  pub looked_up : World S
  pub is_token : token ≡ some given_token
  pub is_key : pk ≡ some given_key
  pub session_of_token :
      st.get_session app_id (p.sha256_hex given_token) w ≡ (ok (some session), looked_up)
  pub session_of_key : session.public_key ≡ given_key
  pub same_browser :
      (f : Text) → session.fingerprint ≡ some f → text_eq f [] ≡ false → presented ≡ some f
  pub record_of_key : st.get_user app_id given_key looked_up ≡ (ok (some u), v)
  pub points_at_token : u.auth_token_hash ≡ some (p.sha256_hex given_token)

module _ {S : Type 0} (p : Platform) (st : AuthStore S) where
  verify_pair_sound :
      (app_id token pk : Text) (presented : Option Text) (w : World S) {u : UserData} {v : World S}
      → verify_pair p st app_id token pk presented w ≡ (ok (some u), v)
      → SessionEvidence S p st app_id (some token) (some pk) presented w u v
  unfolding verify_pair
  verify_pair_sound app_id token pk presented w {u} {v} h =
      let (session, w1, asked, rest) =
        >>=-eq_ok (st.get_session app_id (p.sha256_hex token)) _ w h in
      of_session session w1 asked rest
    where
      with_user :
          (s : SessionValue) (w1 : World S)
          → st.get_session app_id (p.sha256_hex token) w ≡ (ok (some s), w1)
          → (not (text_eq s.public_key pk) || fingerprint_refused p st s.fingerprint presented)
            ≡ false
          → (st.get_user app_id pk >>= λ user. pure (check_pointer p st (p.sha256_hex token) user))
              w1
            ≡ (ok (some u), v)
          → SessionEvidence S p st app_id (some token) (some pk) presented w u v
      with_user s w1 asked accepted h =
          let (found, w2, read, rest) = >>=-eq_ok (st.get_user app_id pk) _ w1 h in
          let checked : check_pointer p st (p.sha256_hex token) found ≡ some u = ground arith in
          let same : w2 ≡ v = ground arith in
          let (is_user, pointer) = check_pointer-some p st (p.sha256_hex token) found checked in
          record {
            given_token = token;
            given_key = pk;
            session = s;
            looked_up = w1;
            is_token = refl;
            is_key = refl;
            session_of_token = asked;
            session_of_key = (text_eq_iff s.public_key pk).0 (ground arith);
            same_browser = λ f. fingerprint_accepted p st s.fingerprint presented f (ground arith);
            record_of_key =
                subst (λ o. st.get_user app_id pk w1 ≡ (ok o, v)) is_user
                  (subst (λ x. st.get_user app_id pk w1 ≡ (ok found, x)) same read);
            points_at_token = pointer;
          }

      of_session :
          (session : Option SessionValue) (w1 : World S)
          → st.get_session app_id (p.sha256_hex token) w ≡ (ok session, w1)
          → (elim session as (λ _. Act S (Option UserData)) [
            | none ↦ pure none
            | some s ↦
                (if not (text_eq s.public_key pk)
                    || fingerprint_refused p st s.fingerprint presented
                  then pure none
                  else st.get_user app_id pk >>= λ user.
                      pure (check_pointer p st (p.sha256_hex token) user))
          ])
              w1
            ≡ (ok (some u), v)
          → SessionEvidence S p st app_id (some token) (some pk) presented w u v
      of_session none w1 asked h = absurd (ground arith)
      of_session (some s) w1 asked h =
          elim (Bool-cases
            (not (text_eq s.public_key pk) || fingerprint_refused p st s.fingerprint presented)) [
              | inl refused ↦ absurd (ground arith)
              | inr accepted ↦ with_user s w1 asked accepted (rw accepted at h)
            ]

  -- A session is accepted only for a token whose session is the presented key's, from the browser
  -- that it is bound to, and only while the record of the key points at that token.
  pub verify_session_sound :
      (app_id : Text) (token pk presented : Option Text) (w : World S) {u : UserData} {v : World S}
      → verify_session p st app_id token pk presented w ≡ (ok (some u), v)
      → SessionEvidence S p st app_id token pk presented w u v
  unfolding verify_session
  verify_session_sound app_id none pk presented w h = absurd (ground arith)
  verify_session_sound app_id (some token) none presented w h = absurd (ground arith)
  verify_session_sound app_id (some token) (some pk) presented w h =
      elim (Bool-cases (text_eq token [] || text_eq pk [])) [
        | inl empty ↦ absurd (ground arith)
        | inr given ↦ verify_pair_sound app_id token pk presented w (rw given at h)
      ]
