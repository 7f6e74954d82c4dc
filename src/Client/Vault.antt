-- ===== src/Client/Vault.antt =====
-- client/session.ts: the vault that holds the app key in memory, and the session in `localStorage`,
-- in one tab. `setItem` of a session is taken not to throw.
pub mod Steps
pub mod Locking
pub mod Session
use tetrac_login_sdk.Prelude.{
  ℕ, ◌+◌, ◌-◌, Bool, true, false, not, ◌&&◌, ◌||◌, Option, none, some, List, [], ◌∷◌, ◌++◌, Text,
  codes, text_eq, ltb, is_some, if◌then◌else◌,
}
use tetrac_login_sdk.Core.Platform.{Platform}
use tetrac_login_sdk.Storage.Map.{Map, lookup, insert, remove}

pub record Vault : Type 0 where
  pub app_key : Option Text
  pub lock_deadline : Option ℕ
  -- When the pending `setTimeout` is due.
  pub lock_timer : Option ℕ
  pub auto_lock_ms : ℕ
  pub lock_on_hide : Bool
  pub hide_handler_bound : Bool

pub record Tab : Type 0 where
  pub vault : Vault
  pub local_storage : Map Text
  -- `typeof window !== "undefined"`
  pub has_window : Bool
  pub now : ℕ
  -- How often the subscribers were notified.
  pub notified : ℕ

-- A callback of `registerSessionClearHook`: what it leaves of the storage, and whether it threw.
abbrev pub Hook : Type 0
Hook = Map Text → Map Text × Bool

abbrev pub token_key : Text
token_key = codes "ttc-auth-token"

abbrev pub pubkey_key : Text
pubkey_key = codes "ttc-public-key"

abbrev pub email_key : Text
email_key = codes "user_email"

abbrev pub iterations_key : Text
iterations_key = codes "ttc_pbkdf2_iter"

abbrev pub envelope_key : Text
envelope_key = codes "ttc_offchain_envelope"

abbrev pub lock_signal_key : Text
lock_signal_key = codes "ttc_lock_signal"

unfoldable pub initial_vault : Vault
initial_vault = record {
  app_key = none;
  lock_deadline = none;
  lock_timer = none;
  auto_lock_ms = 15000;
  lock_on_hide = true;
  hide_handler_bound = false;
}

-- `!!key`: a key that is there and is not empty.
abbrev pub usable : Option Text → Bool
usable none = false
usable (some k) = not (text_eq k [])

-- `deadline != null && now > deadline`
abbrev pub overdue : Option ℕ → ℕ → Bool
overdue none now = false
overdue (some d) now = ltb d now

unfoldable pub notify : Tab → Tab
notify t = record t { notified = t.notified + 1 }

unfoldable pub clear_timer : Vault → Vault
clear_timer v = record v { lock_timer = none }

-- The timer that `scheduleLock` sets, from the deadline: at once where it has passed.
abbrev pub due_at : Option ℕ → ℕ → Option ℕ
due_at none now = none
due_at (some d) now = some (now + (d - now))

unfoldable pub schedule_lock : Tab → Tab
unfolding clear_timer
schedule_lock t = record t {
  vault = record (clear_timer t.vault) {
    lock_timer =
        if usable t.vault.app_key && t.has_window then due_at t.vault.lock_deadline t.now else none;
  };
}

unfoldable pub clear_key_state : Tab → Tab
unfolding clear_timer
clear_key_state t = record t {
  vault = record (clear_timer t.vault) { app_key = none; lock_deadline = none };
}

-- A new window of `autoLockMs`, from now.
abbrev pub renewed : Tab → Tab
renewed t = record t {
  vault = record t.vault { lock_deadline = some (t.now + t.vault.auto_lock_ms) };
}

abbrev pub holding : Text → Tab → Tab
holding key t = record t { vault = record t.vault { app_key = some key } }

unfoldable pub arm_app_key : Text → Tab → Tab
unfolding schedule_lock notify
arm_app_key key t = notify (schedule_lock (renewed (holding key t)))

unfoldable pub touch_vault : Tab → Tab
unfolding schedule_lock
touch_vault t = if usable t.vault.app_key then schedule_lock (renewed t) else t

unfoldable pub set_item : Text → Text → Tab → Tab
set_item key value t = record t { local_storage = insert key value t.local_storage }

unfoldable pub remove_item : Text → Tab → Tab
remove_item key t = record t { local_storage = remove key t.local_storage }

abbrev pub get_item : Text → Tab → Option Text
get_item key t = if t.has_window then lookup key t.local_storage else none

unfoldable pub is_locked : Tab → Bool × Tab
unfolding clear_key_state
is_locked t =
    if usable t.vault.app_key
    then (if overdue t.vault.lock_deadline t.now then (true, clear_key_state t) else (false, t))
    else (true, t)

unfoldable pub lock_snapshot : Tab → Bool
lock_snapshot t =
    if usable t.vault.app_key then not (overdue t.vault.lock_deadline t.now) else false

unfoldable pub get_app_key : Tab → Option Text × Tab
unfolding is_locked
get_app_key t = let r = is_locked t in (if r.0 then none else r.1.vault.app_key, r.1)

pub data AuthStatus : Type 0 where
  authenticated : AuthStatus
  session_expired : AuthStatus
  unauthenticated : AuthStatus

unfoldable pub get_auth_status : Tab → AuthStatus × Tab
unfolding get_app_key
get_auth_status t =
    let r = get_app_key t in
    if usable (get_item token_key t) && usable (get_item pubkey_key t)
    then (if usable r.0 then authenticated else session_expired, r.1)
    else (unauthenticated, t)

abbrev pub header_if : Text → Option Text → Map Text
header_if name none = []
header_if name (some value) = if text_eq value [] then [] else (name, value) ∷ []

-- `AUTH_TOKEN_HEADER` and `PUBLIC_KEY_HEADER`, where a value is there and is not empty.
unfoldable pub auth_headers : Tab → Map Text
auth_headers t =
    header_if (codes "ttc-auth-token") (get_item token_key t)
    ++ header_if (codes "ttc-public-key") (get_item pubkey_key t)

-- `parseInt(raw, 10)`, which is a parameter: `none` is NaN.
unfoldable pub get_pbkdf2_iterations : (Text → Option ℕ) → Tab → Option ℕ
get_pbkdf2_iterations parse_int t = elim (get_item iterations_key t) [
  | none ↦ none
  | some raw ↦ parse_int raw
]

pub record SessionParams : Type 0 where
  pub public_key : Text
  pub auth_token : Text
  pub app_key : Text
  pub email : Option Text
  pub pbkdf2_iterations : Option ℕ
  pub offchain_envelope : Option Text

-- `if (value) localStorage.setItem(key, value)`
abbrev pub set_if : Text → Option Text → Map Text → Map Text
set_if key none m = m
set_if key (some value) m = if text_eq value [] then m else insert key value m

module _ (p : Platform) where
  -- An explicit lock also writes the signal that locks the other tabs.
  unfoldable pub lock_vault : Bool → Tab → Tab
  unfolding clear_key_state notify set_item
  lock_vault propagate t =
      let locked = clear_key_state t in
      let signalled =
        if propagate && t.has_window
        then set_item lock_signal_key (p.number_text t.now) locked
        else locked in
      if usable t.vault.app_key then notify signalled else signalled

  abbrev pub set_iterations : Option ℕ → Map Text → Map Text
  set_iterations none m = m
  set_iterations (some n) m = insert iterations_key (p.number_text n) m

  unfoldable pub store_session : SessionParams → Map Text → Map Text
  store_session s m = set_if envelope_key s.offchain_envelope (
      set_iterations s.pbkdf2_iterations (
        set_if email_key s.email
          (insert pubkey_key s.public_key (insert token_key s.auth_token m))))

  unfoldable pub set_session : SessionParams → Tab → Tab
  unfolding store_session arm_app_key
  set_session s t =
      if t.has_window
      then arm_app_key s.app_key (record t { local_storage = store_session s t.local_storage })
      else t

-- Every hook runs, whether or not one before it threw.
unfoldable pub run_hooks : List Hook → Map Text → Map Text
run_hooks [] m = m
run_hooks (hook ∷ hooks) m = run_hooks hooks (hook m).0

unfoldable pub remove_session : Tab → Tab
unfolding remove_item
remove_session t =
    if t.has_window
    then remove_item envelope_key (
        remove_item iterations_key
          (remove_item email_key (remove_item pubkey_key (remove_item token_key t))))
    else t

unfoldable pub clear_session : List Hook → Tab → Tab
unfolding clear_key_state remove_session run_hooks notify
clear_session hooks t =
    let cleared = remove_session (clear_key_state t) in
    notify (record cleared { local_storage = run_hooks hooks cleared.local_storage })

pub record VaultOptions : Type 0 where
  pub auto_lock_ms : Option ℕ
  pub lock_on_hide : Option Bool

abbrev or_keep {ℓ} : {A : Type ℓ} → Option A → A → A
or_keep none a = a
or_keep (some b) a = b

unfoldable pub bind_hide_handler : Tab → Tab
bind_hide_handler t =
    if t.has_window then record t { vault = record t.vault { hide_handler_bound = true } } else t

unfoldable pub configure_vault : VaultOptions → Tab → Tab
unfolding bind_hide_handler
configure_vault opts t = bind_hide_handler (record t {
  vault = record t.vault {
    auto_lock_ms = or_keep opts.auto_lock_ms t.vault.auto_lock_ms;
    lock_on_hide = or_keep opts.lock_on_hide t.vault.lock_on_hide;
  };
})

-- The events that the page listens to once it is bound.
pub data PageEvent : Type 0 where
  -- `visibilitychange`, to hidden or to another state
  visibility_change : Bool → PageEvent
  freeze : PageEvent
  page_hide : PageEvent
  -- `pageshow`, restored from the page cache or not
  page_show : Bool → PageEvent
  -- `storage`: another tab set a key to a value, or removed it
  storage : Text → Option Text → PageEvent

-- Whether the listener of an event locks.
unfoldable pub locks : PageEvent → Tab → Bool
locks (visibility_change hidden) t = t.vault.lock_on_hide && hidden
locks freeze t = t.vault.lock_on_hide
locks page_hide t = t.vault.lock_on_hide
locks (page_show persisted) t = persisted
locks (storage key value) t =
    (text_eq key token_key && not (is_some value)) || text_eq key lock_signal_key

unfoldable pub on_page_event : Platform → PageEvent → Tab → Tab
unfolding locks lock_vault
on_page_event p e t = if t.vault.hide_handler_bound && locks e t then lock_vault p false t else t
