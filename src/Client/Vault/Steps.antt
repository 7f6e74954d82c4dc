-- ===== src/Client/Vault/Steps.antt =====
-- What can happen to a tab (client/session.ts), in any order, and what stays true of its vault.
use tetrac_login_sdk.Prelude.{
  ℕ, ◌+◌, ◌≤◌, ◌≡◌, refl, ap, Bool, false, ◌&&◌, Option, none, some, List, Text, if◌then◌else◌,
  if_either, arith,
}
use tetrac_login_sdk.Core.Platform.{Platform}
use tetrac_login_sdk.Storage.Map.{Map}
use tetrac_login_sdk.Client.Vault.{
  Tab, Hook, SessionParams, VaultOptions, PageEvent, usable, overdue, initial_vault, renewed,
  holding, notify, clear_timer, schedule_lock, clear_key_state, arm_app_key, touch_vault, is_locked,
  get_app_key, lock_vault, store_session, set_session, clear_session, remove_session, remove_item,
  set_item, configure_vault, bind_hide_handler, locks, on_page_event,
}

module _ (p : Platform) (hooks : List Hook) where
  -- What does not unlock: reads, locks, a logout, the page's events, the timer and the clock.
  pub data Passive : Tab → Tab → Type 0 where
    read : (t : Tab) → Passive t (get_app_key t).1
    lock : (propagate : Bool) (t : Tab) → Passive t (lock_vault p propagate t)
    logout : (t : Tab) → Passive t (clear_session hooks t)
    configure : (opts : VaultOptions) (t : Tab) → Passive t (configure_vault opts t)
    page_event : (e : PageEvent) (t : Tab) → Passive t (on_page_event p e t)
    -- The callback of the pending timeout, which may run late.
    timer_fires :
        (due : ℕ) (t : Tab)
        → t.vault.lock_timer ≡ some due
        → due ≤ t.now
        → Passive t (lock_vault p false t)
    time_passes : (ms : ℕ) (t : Tab) → Passive t (record t { now = t.now + ms })
    -- Another tab, or another script, writes to the shared storage.
    storage_changes : (m : Map Text) (t : Tab) → Passive t (record t { local_storage = m })

  pub data Step : Tab → Tab → Type 0 where
    passes : {t u : Tab} → Passive t u → Step t u
    login : (s : SessionParams) (t : Tab) → Step t (set_session p s t)
    unlock : (key : Text) (t : Tab) → Step t (arm_app_key key t)
    touch : (t : Tab) → Step t (touch_vault t)

  pub data Reach (s : Tab) : Tab → Type 0 where
    here : Reach s s
    next : {t u : Tab} → Reach s t → Step t u → Reach s u

  pub data Idle (s : Tab) : Tab → Type 0 where
    still : Idle s s
    after : {t u : Tab} → Idle s t → Passive t u → Idle s u

-- A tab as a page load leaves it.
abbrev pub fresh_tab : Bool → ℕ → Map Text → Tab
fresh_tab has_window now m = record {
  vault = initial_vault;
  local_storage = m;
  has_window = has_window;
  now = now;
  notified = 0;
}

-- Without a key there is neither a deadline nor a timer; a key has a deadline, and where it is usable
-- in a window, a timer that is due at the deadline.
abbrev Kept : Option Text → Option ℕ → Option ℕ → Bool → Type 0
Kept none deadline timer has_window = (deadline ≡ none) × (timer ≡ none)
Kept (some key) deadline timer has_window =
    (d : ℕ) × (deadline ≡ some d)
    × (timer ≡ (if usable (some key) && has_window then some d else none))

abbrev pub IsSound : Tab → Type 0
IsSound t = Kept t.vault.app_key t.vault.lock_deadline t.vault.lock_timer t.has_window

-- Every trace of the key is gone.
abbrev pub IsLocked : Tab → Type 0
IsLocked t = (t.vault.app_key ≡ none) × (t.vault.lock_deadline ≡ none) × (t.vault.lock_timer ≡ none)

IsLocked-IsSound : (t : Tab) → IsLocked t → IsSound t
IsLocked-IsSound t (key, deadline, timer) = rw key (deadline, timer)

pub clear_key_state-IsLocked : (t : Tab) → IsLocked (clear_key_state t)
unfolding clear_key_state clear_timer
clear_key_state-IsLocked t = (refl, refl, refl)

pub lock_vault-IsLocked :
    (p : Platform) (propagate : Bool) (t : Tab) → IsLocked (lock_vault p propagate t)
unfolding lock_vault notify set_item
lock_vault-IsLocked p propagate t =
    let cleared = clear_key_state-IsLocked t in
    if_either IsLocked (usable t.vault.app_key)
      (if_either IsLocked (propagate && t.has_window) cleared cleared)
      (if_either IsLocked (propagate && t.has_window) cleared cleared)

pub clear_session-IsLocked : (hooks : List Hook) (t : Tab) → IsLocked (clear_session hooks t)
unfolding clear_session remove_session remove_item notify
clear_session-IsLocked hooks t =
    let cleared = clear_key_state-IsLocked t in if_either IsLocked t.has_window cleared cleared

-- A timer that is set for a deadline to come is due at the deadline.
schedule_lock-IsSound :
    (t : Tab) (key : Text) (d : ℕ)
    → t.vault.app_key ≡ some key
    → t.vault.lock_deadline ≡ some d
    → t.now ≤ d
    → IsSound (schedule_lock t)
unfolding schedule_lock clear_timer
schedule_lock-IsSound t key d armed deadline to_come = rw armed (
    rw deadline
      (d, refl, ap (λ x. if usable (some key) && t.has_window then some x else none) (omega arith)))

arm_app_key-IsSound : (key : Text) (t : Tab) → IsSound (arm_app_key key t)
unfolding arm_app_key notify
arm_app_key-IsSound key t =
    schedule_lock-IsSound (renewed (holding key t)) key (t.now + t.vault.auto_lock_ms) refl refl
      (omega arith)

touch_vault-IsSound : (t : Tab) → IsSound t → IsSound (touch_vault t)
unfolding touch_vault
touch_vault-IsSound t sound = at t.vault.app_key refl
  where
    at :
        (key : Option Text)
        → t.vault.app_key ≡ key
        → IsSound (if usable key then schedule_lock (renewed t) else t)
    at none e = sound
    at (some k) e =
        if_either IsSound (usable (some k))
          (schedule_lock-IsSound (renewed t) k (t.now + t.vault.auto_lock_ms) e refl (omega arith))
          sound

module _ (p : Platform) (hooks : List Hook) where
  Passive-IsSound : {t u : Tab} → Passive p hooks t u → IsSound t → IsSound u
  unfolding get_app_key is_locked configure_vault bind_hide_handler on_page_event
  Passive-IsSound (read t) sound =
      if_either (λ (r : Bool × Tab). IsSound r.1) (usable t.vault.app_key)
        (if_either (λ (r : Bool × Tab). IsSound r.1) (overdue t.vault.lock_deadline t.now)
          (IsLocked-IsSound (clear_key_state t) (clear_key_state-IsLocked t)) sound)
        sound
  Passive-IsSound (lock propagate t) sound =
      IsLocked-IsSound (lock_vault p propagate t) (lock_vault-IsLocked p propagate t)
  Passive-IsSound (logout t) sound =
      IsLocked-IsSound (clear_session hooks t) (clear_session-IsLocked hooks t)
  Passive-IsSound (configure opts t) sound = if_either IsSound t.has_window sound sound
  Passive-IsSound (page_event e t) sound =
      if_either IsSound (t.vault.hide_handler_bound && locks e t)
        (IsLocked-IsSound (lock_vault p false t) (lock_vault-IsLocked p false t)) sound
  Passive-IsSound (timer_fires due t h early) sound =
      IsLocked-IsSound (lock_vault p false t) (lock_vault-IsLocked p false t)
  Passive-IsSound (time_passes ms t) sound = sound
  Passive-IsSound (storage_changes m t) sound = sound

  Step-IsSound : {t u : Tab} → Step p hooks t u → IsSound t → IsSound u
  unfolding set_session
  Step-IsSound (passes step) sound = Passive-IsSound step sound
  Step-IsSound (login s t) sound =
      if_either IsSound t.has_window
        (arm_app_key-IsSound s.app_key
          (record t { local_storage = store_session p s t.local_storage }))
        sound
  Step-IsSound (unlock key t) sound = arm_app_key-IsSound key t
  Step-IsSound (touch t) sound = touch_vault-IsSound t sound

  -- Whatever happens to a tab after a page load, in any order: without a key there is neither a
  -- deadline nor a timer, a key has a deadline, and a usable key in a window has a timer that is due
  -- at that deadline.
  pub Reach-IsSound :
      (has_window : Bool) (now : ℕ) (m : Map Text) {t : Tab}
      → Reach p hooks (fresh_tab has_window now m) t
      → IsSound t
  unfolding initial_vault
  Reach-IsSound has_window now m here = (refl, refl)
  Reach-IsSound has_window now m (next r step) =
      Step-IsSound step (Reach-IsSound has_window now m r)
