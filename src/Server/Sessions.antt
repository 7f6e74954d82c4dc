-- ===== src/Server/Sessions.antt =====
-- server/session.ts, server/challenge.ts and server/rateLimit.ts over the domain store.
pub mod Sound
use tetrac_login_sdk.Prelude.{
  ◌+◌, Bool, true, false, not, ◌&&◌, ◌||◌, Option, none, some, [], Text, all, length, text_eq, ◌==◌,
  if◌then◌else◌, ok,
}
use tetrac_login_sdk.Core.Platform.{Platform}
use tetrac_login_sdk.Core.Crypto.{random_hex, is_hex, timing_safe_equal}
use tetrac_login_sdk.Core.Types.{UserData}
use tetrac_login_sdk.Core.Config.{AuthConfig, RateLimitConfig}
use tetrac_login_sdk.Effect.{Act, pure, ◌>>=◌, ◌>>◌}
use tetrac_login_sdk.Storage.Adapter.{AuthStore, SessionValue, RateLimitBucket, RateLimitResult}

-- `/^[0-9a-f]{64}$/i`
unfoldable pub is_hex64 : Text → Bool
is_hex64 s = all is_hex s && (length s == 64)

abbrev pub falsy_text : Option Text → Bool
falsy_text none = true
falsy_text (some t) = text_eq t []

module _ {S : Type 0} (p : Platform) (st : AuthStore S) where
  -- `randomHex(32)`, for session tokens and challenges.
  unfoldable pub random_token : Act S Text
  random_token w = (ok (random_hex (p.random_bytes w.draws)), record w { draws = w.draws + 1 })

  unfoldable pub check_rate_limit : RateLimitBucket → RateLimitConfig → Act S RateLimitResult
  check_rate_limit bucket config =
      st.hit_rate_limit bucket config.window_seconds config.max_attempts

  unfoldable pub issue_challenge : Text → Text → AuthConfig → Act S Text
  unfolding ◌>>=◌ ◌>>◌ random_token
  issue_challenge app_id pk config = do
    challenge ← random_token
    st.put_challenge app_id pk challenge config.challenge_ttl_seconds
    pure challenge

  unfoldable pub consume_challenge : Text → Text → Text → Act S Bool
  consume_challenge app_id pk presented =
      if not (is_hex64 presented) then pure false else st.take_challenge app_id pk presented

  -- `fingerprint ? { publicKey, fingerprint } : { publicKey }`
  abbrev session_value : Text → Option Text → SessionValue
  session_value pk fingerprint = record {
    public_key = pk;
    fingerprint = if falsy_text fingerprint then none else fingerprint;
  }

  unfoldable pub revoke_previous : UserData → Act S (Unit {0})
  revoke_previous user = elim user.auth_token_hash [
    | none ↦ pure tt
    | some h ↦ (if text_eq h [] then pure tt else st.delete_session user.app_id h)
  ]

  unfoldable pub issue_session : UserData → AuthConfig → Option Text → Act S Text
  unfolding ◌>>=◌ ◌>>◌ random_token revoke_previous
  issue_session user config fingerprint = do
    revoke_previous user
    token ← random_token
    st.put_session user.app_id (p.sha256_hex token) (session_value user.public_key fingerprint)
        config.session_ttl_seconds
    st.set_session_pointer user.app_id user.public_key (p.sha256_hex token)
    pure token

  -- `stored && (!presented || !timingSafeEqual(stored, presented))` is the refusal.
  unfoldable pub fingerprint_refused : Option Text → Option Text → Bool
  fingerprint_refused none presented = false
  fingerprint_refused (some f) none = not (text_eq f [])
  fingerprint_refused (some f) (some g) =
      not (text_eq f []) && (text_eq g [] || not (timing_safe_equal f g))

  abbrev pub same_hash : Option Text → Text → Bool
  same_hash none h = false
  same_hash (some t) h = text_eq t h

  -- The record's pointer is the authority.
  unfoldable pub check_pointer : Text → Option UserData → Option UserData
  check_pointer token_hash none = none
  check_pointer token_hash (some user) =
      if same_hash user.auth_token_hash token_hash then some user else none

  unfoldable pub verify_pair : Text → Text → Text → Option Text → Act S (Option UserData)
  unfolding ◌>>=◌ fingerprint_refused check_pointer
  verify_pair app_id token pk presented = do
    session ← st.get_session app_id (p.sha256_hex token)
    elim session [
      | none ↦ pure none
      | some s ↦
          (if not (text_eq s.public_key pk) || fingerprint_refused s.fingerprint presented
            then pure none
            else do user ← st.get_user app_id pk; pure (check_pointer (p.sha256_hex token) user))
    ]

  unfoldable pub verify_session :
      Text → Option Text → Option Text → Option Text → Act S (Option UserData)
  unfolding verify_pair
  verify_session app_id none pk presented = pure none
  verify_session app_id (some token) none presented = pure none
  verify_session app_id (some token) (some pk) presented =
      if text_eq token [] || text_eq pk [] then pure none else verify_pair app_id token pk presented

  unfoldable pub revoke_session : Text → Text → Act S (Unit {0})
  revoke_session app_id token = st.delete_session app_id (p.sha256_hex token)
