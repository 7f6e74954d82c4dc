-- ===== src/Client/Vault/Session.antt =====
-- A session as the tab that opened it sees it (client/session.ts).
use tetrac_login_sdk.Prelude.{
  ℕ, ◌+◌, ◌≡◌, refl, ap, ◌∙◌, Bool, true, false, Option, none, some, [], ◌∷◌, ◌++◌, Text, codes,
  text_eq, ltb, if◌then◌else◌, arith,
}
use tetrac_login_sdk.Core.Platform.{Platform}
use tetrac_login_sdk.Storage.Map.{Map, lookup, lookup-insert}
use tetrac_login_sdk.Client.Vault.{
  Tab, SessionParams, authenticated, session_expired, token_key, pubkey_key, email_key,
  iterations_key, envelope_key, usable, get_item, set_if, set_iterations, notify, schedule_lock,
  clear_timer, arm_app_key, is_locked, get_app_key, get_auth_status, auth_headers, header_if,
  store_session, set_session,
}

-- The same tab, later.
abbrev pub later : ℕ → Tab → Tab
later ms t = record t { now = t.now + ms }

header_if-usable :
    (name value : Text)
    → usable (some value) ≡ true
    → header_if name (some value) ≡ (name, value) ∷ []
header_if-usable name value h = ground (arith, h)

module _ (u : Tab) {token pubkey : Text} (has_token : get_item token_key u ≡ some token)
    (has_pubkey : get_item pubkey_key u ≡ some pubkey) (usable_token : usable (some token) ≡ true)
    (usable_pubkey : usable (some pubkey) ≡ true) where
  status_with :
      (get_auth_status u).0 ≡ (if usable (get_app_key u).0 then authenticated else session_expired)
  unfolding get_auth_status
  status_with = simp (has_token, has_pubkey, usable_token, usable_pubkey)

  headers_with :
      auth_headers u ≡ (codes "ttc-auth-token", token) ∷ (codes "ttc-public-key", pubkey) ∷ []
  unfolding auth_headers
  headers_with =
      rw (has_token, has_pubkey)
        (ap (λ hs. hs ++ header_if (codes "ttc-public-key") (some pubkey))
            (header_if-usable (codes "ttc-auth-token") token usable_token)
          ∙ ap (λ hs. (codes "ttc-auth-token", token) ∷ hs)
              (header_if-usable (codes "ttc-public-key") pubkey usable_pubkey))

module _ (p : Platform) (s : SessionParams) (t : Tab) where
  lookup-set_if :
      (key : Text) (value : Option Text) (k : Text) (m : Map Text)
      → text_eq key k ≡ false
      → lookup k (set_if key value m) ≡ lookup k m
  lookup-set_if key none k m apart = refl
  lookup-set_if key (some v) k m apart = ground (arith, apart, lookup-insert k key v m)

  lookup-set_iterations :
      (n : Option ℕ) (k : Text) (m : Map Text)
      → text_eq iterations_key k ≡ false
      → lookup k (set_iterations p n m) ≡ lookup k m
  lookup-set_iterations none k m apart = refl
  lookup-set_iterations (some n) k m apart =
      lookup-insert k iterations_key (p.number_text n) m ∙ rw apart refl

  -- What the optional items leave of the two that a request needs.
  stored_item :
      (k : Text)
      → text_eq envelope_key k ≡ false
      → text_eq iterations_key k ≡ false
      → text_eq email_key k ≡ false
      → lookup k (store_session p s t.local_storage) ≡ (
          if text_eq pubkey_key k
          then some s.public_key
          else if text_eq token_key k
          then some s.auth_token
          else lookup k t.local_storage)
  unfolding store_session
  stored_item k a b c =
      lookup-set_if envelope_key s.offchain_envelope k _ a
      ∙ (lookup-set_iterations s.pbkdf2_iterations k _ b
          ∙ (lookup-set_if email_key s.email k _ c ∙ simp lookup-insert))

  stored_token : lookup token_key (store_session p s t.local_storage) ≡ some s.auth_token
  unfolding text_eq
  stored_token = stored_item token_key refl refl refl

  stored_pubkey : lookup pubkey_key (store_session p s t.local_storage) ≡ some s.public_key
  unfolding text_eq
  stored_pubkey = stored_item pubkey_key refl refl refl

  abbrev opened : Tab
  opened = arm_app_key s.app_key (record t { local_storage = store_session p s t.local_storage })

  set_session-opened : t.has_window ≡ true → set_session p s t ≡ opened
  unfolding set_session
  set_session-opened window = simp window

  abbrev expired : ℕ → Bool
  expired ms = ltb t.vault.auto_lock_ms ms

  key_at :
      (ms : ℕ)
      → usable (some s.app_key) ≡ true
      → (get_app_key (later ms opened)).0 ≡ (if expired ms then none else some s.app_key)
  unfolding arm_app_key notify schedule_lock clear_timer get_app_key is_locked
  key_at ms key = ground (arith, key)

  token_item :
      (ms : ℕ) → t.has_window ≡ true → get_item token_key (later ms opened) ≡ some s.auth_token
  unfolding arm_app_key notify schedule_lock clear_timer
  token_item ms window = rw window stored_token

  pubkey_item :
      (ms : ℕ) → t.has_window ≡ true → get_item pubkey_key (later ms opened) ≡ some s.public_key
  unfolding arm_app_key notify schedule_lock clear_timer
  pubkey_item ms window = rw window stored_pubkey

  -- A session that was opened in a window, with a token, a public key and an app key that are not
  -- empty: until `autoLockMs` has passed its key is given and the status is authenticated; from then
  -- on, with no further activity, no key is given and the status is that of an expired session, while
  -- requests still carry the token and the public key.
  pub set_session_lem :
      (ms : ℕ)
      → t.has_window ≡ true
      → (usable (some s.auth_token) ≡ true)
        × (usable (some s.public_key) ≡ true)
        × (usable (some s.app_key) ≡ true)
      → ((get_app_key (later ms (set_session p s t))).0
          ≡ (if expired ms then none else some s.app_key))
        × ((get_auth_status (later ms (set_session p s t))).0
            ≡ (if expired ms then session_expired else authenticated))
        × (auth_headers (later ms (set_session p s t))
            ≡ (codes "ttc-auth-token", s.auth_token) ∷ (codes "ttc-public-key", s.public_key) ∷ [])
  set_session_lem ms window (token, pubkey, key) = rw (set_session-opened window) (
    key_at ms key,
    status_with (later ms opened) (token_item ms window) (pubkey_item ms window) token pubkey
        ∙ (ap (λ k. if usable k then authenticated else session_expired) (key_at ms key)
            ∙ by_time (expired ms) key),
    headers_with (later ms opened) (token_item ms window) (pubkey_item ms window) token pubkey,
  )
    where
      by_time :
          (late : Bool)
          → usable (some s.app_key) ≡ true
          → (if usable (if late then none else some s.app_key)
              then authenticated
              else session_expired)
            ≡ (if late then session_expired else authenticated)
      by_time true key = refl
      by_time false key = rw key refl
