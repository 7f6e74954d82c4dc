-- ===== src/Storage/Sql.antt =====
-- storage/sql: the store over SQL tables. A statement of the engine is a constructor that carries its
-- bound parameters, with its text (of storage/sql/engine.ts) beside it; a driver runs statements.
pub mod Query
pub mod Tables
pub mod Lookups
pub mod Refines
pub mod RateLimit
pub mod Extends
pub mod Users
pub mod Sweep
pub mod Create
pub mod Serves
pub mod Queue
pub mod Drivers
pub mod FailClosed
pub mod Engine
use tetrac_login_sdk.Prelude.{ℕ, Bool, Option, List, Text}
use tetrac_login_sdk.Effect.{Act}

-- The tables whose rows expire.
pub data Expiring : Type 0 where
  of_sessions : Expiring
  of_challenges : Expiring
  of_rates : Expiring

pub data Statement : Type 0 where
  -- SELECT data, auth_token_hash FROM users WHERE app_id = ? AND public_key = ?
  select_user : Text → Text → Statement
  -- SELECT data FROM user_wallets WHERE app_id = ? AND public_key = ?
  select_wallets : Text → Text → Statement
  -- INSERT INTO users (app_id, public_key, data, auth_token_hash) VALUES (?, ?, ?, ?), and on a
  -- conflict of (app_id, public_key) SET data = ?, auth_token_hash = ?
  upsert_user : Text → Text → Text → Option Text → Statement
  -- INSERT INTO user_wallets (app_id, public_key, chain, role, data) VALUES (?, ?, ?, ?, ?), and on
  -- a conflict of (app_id, public_key, chain, role) SET data = ?
  upsert_wallet : Text → Text → Text → Text → Text → Statement
  -- SELECT public_key FROM email_index WHERE email = ? AND app_id = ?
  select_holder : Text → Text → Statement
  -- INSERT INTO email_index (email, app_id, public_key) VALUES (?, ?, ?)
  insert_email : Text → Text → Text → Statement
  -- UPDATE users SET auth_token_hash = ? WHERE app_id = ? AND public_key = ?
  update_pointer : Text → Text → Text → Statement
  -- INSERT INTO challenges (app_id, public_key, challenge, expires_at) VALUES (?, ?, ?, ?), and on a
  -- conflict of (app_id, public_key, challenge) SET expires_at = ?
  upsert_challenge : Text → Text → Text → ℕ → Statement
  -- DELETE FROM challenges WHERE app_id = ? AND public_key = ? AND challenge = ? AND expires_at > ?
  -- RETURNING challenge
  consume_challenge : Text → Text → Text → ℕ → Statement
  -- SELECT challenge FROM challenges WHERE app_id = ? AND public_key = ? AND challenge = ? AND
  -- expires_at > ? (FOR UPDATE)
  lock_challenge : Text → Text → Text → ℕ → Statement
  -- DELETE FROM challenges WHERE app_id = ? AND public_key = ? AND challenge = ?
  drop_challenge : Text → Text → Text → Statement
  -- INSERT INTO sessions (app_id, token_hash, public_key, fingerprint, expires_at) VALUES
  -- (?, ?, ?, ?, ?), and on a conflict of (app_id, token_hash) SET the other three
  upsert_session : Text → Text → Text → Option Text → ℕ → Statement
  -- SELECT public_key, fingerprint FROM sessions WHERE app_id = ? AND token_hash = ? AND
  -- expires_at > ?
  select_session : Text → Text → ℕ → Statement
  -- DELETE FROM sessions WHERE app_id = ? AND token_hash = ?
  drop_session : Text → Text → Statement
  -- INSERT INTO rate_limits (endpoint, app_id, identifier, count, expires_at) VALUES (?, ?, ?, 1, ?),
  -- and on a conflict of (endpoint, app_id, identifier) SET
  -- count = CASE WHEN expires_at <= now THEN 1 ELSE count + 1 END,
  -- expires_at = CASE WHEN expires_at <= now THEN fresh ELSE expires_at END
  -- The parameters are the three columns, now and fresh; with RETURNING count or without.
  upsert_rate : Text → Text → Text → ℕ → ℕ → Bool → Statement
  -- SELECT count FROM rate_limits WHERE endpoint = ? AND app_id = ? AND identifier = ?
  select_count : Text → Text → Text → Statement
  -- DELETE of at most so many rows of a table WHERE expires_at <= ? (deleteExpiredLimited of the
  -- dialects), RETURNING 1 AS affected or without.
  delete_expired : Expiring → ℕ → ℕ → Bool → Statement

-- What a row of an answer holds, by the statement's columns. A column that is NULL, or that the
-- driver left out, is `none`.
pub data Row : Type 0 where
  user_row : Option Text → Option Text → Row
  wallet_row : Text → Row
  key_row : Text → Row
  challenge_row : Text → Row
  session_row : Text → Option Text → Row
  count_row : Option ℕ → Row
  affected_row : ℕ → Row

-- storage/sql/types.ts: a driver. Its `transaction` is written in steps: `begin` is all that comes
-- before the callback, `commit` and `rollback` all that comes after it.
pub record SqlDriver (S : Type 0) : Type 0 where
  pub query : Statement → Act S (List Row)
  pub begin : Act S (Unit {0})
  pub commit : Act S (Unit {0})
  pub rollback : Act S (Unit {0})
