-- ===== src/Client/Vault/Locking.antt =====
-- When the key of a tab is gone: idleness, the page's events, other tabs, and logout (client/session.ts).
use tetrac_login_sdk.Prelude.{
  ◌+◌, ◌<◌, ◌≡◌, refl, ap, ◌∙◌, Bool, true, false, ◌&&◌, none, List, [], ◌∷◌, Text, text_eq,
  if◌then◌else◌, if_either, All, ◌⊎◌, inl, inr, arith,
}
use tetrac_login_sdk.Core.Platform.{Platform}
use tetrac_login_sdk.Storage.Map.{Map, lookup, remove, lookup-remove}
use tetrac_login_sdk.Client.Vault.{
  Tab, Hook, PageEvent, storage, unauthenticated, token_key, pubkey_key, email_key, iterations_key,
  envelope_key, usable, overdue, get_item, notify, schedule_lock, clear_key_state, clear_timer,
  arm_app_key, is_locked, get_app_key, get_auth_status, auth_headers, lock_vault, clear_session,
  remove_session, remove_item, run_hooks, configure_vault, bind_hide_handler, locks, on_page_event,
}
use tetrac_login_sdk.Client.Vault.Steps.{
  Passive, read, lock, logout, configure, page_event, timer_fires, time_passes, storage_changes,
  Idle, still, after, IsLocked, lock_vault-IsLocked, clear_session-IsLocked,
  clear_key_state-IsLocked,
}

-- A locked vault gives no key.
get_app_key-none : (t : Tab) → t.vault.app_key ≡ none → (get_app_key t).0 ≡ none
unfolding get_app_key is_locked
get_app_key-none t key = rw key refl

get_app_key-overdue :
    (t : Tab) → overdue t.vault.lock_deadline t.now ≡ true → (get_app_key t).0 ≡ none
unfolding get_app_key is_locked
get_app_key-overdue t late = ground (arith, late)

-- Nothing has unlocked the tab since.
abbrev Faded : Tab → Tab → Type 0
Faded s u =
    (u.vault.app_key ≡ none)
    ⊎ ((u.vault.app_key ≡ s.vault.app_key) × (u.vault.lock_deadline ≡ s.vault.lock_deadline))

module _ (p : Platform) (hooks : List Hook) where
  Passive-Faded : {t u : Tab} → Passive p hooks t u → Faded t u
  unfolding get_app_key is_locked configure_vault bind_hide_handler on_page_event
  Passive-Faded (read t) =
      if_either (λ (r : Bool × Tab). Faded t r.1) (usable t.vault.app_key)
        (if_either (λ (r : Bool × Tab). Faded t r.1) (overdue t.vault.lock_deadline t.now)
          (inl (clear_key_state-IsLocked t).0) (inr (refl, refl)))
        (inr (refl, refl))
  Passive-Faded (lock propagate t) = inl (lock_vault-IsLocked p propagate t).0
  Passive-Faded (logout t) = inl (clear_session-IsLocked hooks t).0
  Passive-Faded (configure opts t) =
      if_either (Faded t) t.has_window (inr (refl, refl)) (inr (refl, refl))
  Passive-Faded (page_event e t) =
      if_either (Faded t) (t.vault.hide_handler_bound && locks e t)
        (inl (lock_vault-IsLocked p false t).0) (inr (refl, refl))
  Passive-Faded (timer_fires due t h early) = inl (lock_vault-IsLocked p false t).0
  Passive-Faded (time_passes ms t) = inr (refl, refl)
  Passive-Faded (storage_changes m t) = inr (refl, refl)

  Faded-trans : (s t u : Tab) → Faded s t → Faded t u → Faded s u
  Faded-trans s t u faded (inl locked) = inl locked
  Faded-trans s t u (inr (k, d)) (inr (k', d')) = inr (k' ∙ k, d' ∙ d)
  Faded-trans s t u (inl gone) (inr (k', d')) = inl (k' ∙ gone)

  Idle-Faded : {s u : Tab} → Idle p hooks s u → Faded s u
  Idle-Faded still = inr (refl, refl)
  Idle-Faded {s = s} (after {t} {u} r step) = Faded-trans s t u (Idle-Faded r) (Passive-Faded step)

  -- Once `autoLockMs` has passed since a key was armed, it is given to nobody, whatever has happened
  -- in between short of another unlock, login or touch: also where the timer never fired, and however
  -- the options were changed.
  pub idle_locked :
      (key : Text) (t : Tab) {u : Tab}
      → Idle p hooks (arm_app_key key t) u
      → t.now + t.vault.auto_lock_ms < u.now
      → (get_app_key u).0 ≡ none
  unfolding arm_app_key schedule_lock notify clear_timer
  idle_locked key t {u} idle late = elim (Idle-Faded idle) [
    | inl locked ↦ get_app_key-none u locked
    | inr (k, d) ↦ get_app_key-overdue u (rw d (ground arith))
  ]

module _ (p : Platform) where
  handled :
      (e : PageEvent) (t : Tab)
      → t.vault.hide_handler_bound ≡ true
      → locks e t ≡ true
      → on_page_event p e t ≡ lock_vault p false t
  unfolding on_page_event
  handled e t bound h = simp (bound, h)

  ignored : (e : PageEvent) (t : Tab) → locks e t ≡ false → on_page_event p e t ≡ t
  unfolding on_page_event
  ignored e t h = ground (arith, h)

  -- A bound tab that handles an event which locks gives no key afterwards, with no trace of it left,
  -- and does not write to the shared storage, so that no other tab is locked with it; its subscribers
  -- are notified once where the key was usable. Any other event changes nothing.
  pub on_page_event_lem :
      (e : PageEvent) (t : Tab)
      → t.vault.hide_handler_bound ≡ true
      → (locks e t ≡ true
          → IsLocked (on_page_event p e t)
            × ((get_app_key (on_page_event p e t)).0 ≡ none)
            × ((on_page_event p e t).local_storage ≡ t.local_storage)
            × ((on_page_event p e t).notified
                ≡ (if usable t.vault.app_key then t.notified + 1 else t.notified)))
        × (locks e t ≡ false → on_page_event p e t ≡ t)
  on_page_event_lem e t bound = (
    λ yes_locks. rw (handled e t bound yes_locks) (
      lock_vault-IsLocked p false t,
      get_app_key-none (lock_vault p false t) (lock_vault-IsLocked p false t).0,
      quiet,
      counts,
    ),
    ignored e t,
  )
    where
      quiet : (lock_vault p false t).local_storage ≡ t.local_storage
      quiet = (unfold lock_vault notify clear_key_state clear_timer in ground arith)

      counts :
          (lock_vault p false t).notified
          ≡ (if usable t.vault.app_key then t.notified + 1 else t.notified)
      counts = (unfold lock_vault notify clear_key_state clear_timer in ground arith)

-- A hook that does not bring an item of the session back.
abbrev pub IsTame : Hook → Type 0
IsTame hook = (k : Text) (m : Map Text) → lookup k m ≡ none → lookup k (hook m).0 ≡ none

run_hooks-IsTame :
    (hooks : List Hook) (k : Text) (m : Map Text)
    → All IsTame hooks
    → lookup k m ≡ none
    → lookup k (run_hooks hooks m) ≡ none
unfolding run_hooks
run_hooks-IsTame [] k m tame h = h
run_hooks-IsTame (hook ∷ hooks) k m tame h =
    run_hooks-IsTame hooks k (hook m).0 tame.1 (tame.0 k m h)

abbrev pub session_items : List Text
session_items = token_key ∷ pubkey_key ∷ email_key ∷ iterations_key ∷ envelope_key ∷ []

removes : Map Text → Map Text
removes m =
    remove envelope_key
      (remove iterations_key (remove email_key (remove pubkey_key (remove token_key m))))

lookup-removes :
    (k : Text) (m : Map Text)
    → lookup k (removes m) ≡ (
        if text_eq envelope_key k
        then none
        else if text_eq iterations_key k
        then none
        else if text_eq email_key k
        then none
        else if text_eq pubkey_key k
        then none
        else if text_eq token_key k
        then none
        else lookup k m)
unfolding removes
lookup-removes k m = simp lookup-remove

removed : (m : Map Text) → All (λ k. lookup k (removes m) ≡ none) session_items
unfolding text_eq
removed m = (
  lookup-removes token_key m,
  (
    lookup-removes pubkey_key m,
    (
      lookup-removes email_key m,
      (lookup-removes iterations_key m, (lookup-removes envelope_key m, tt)),
    ),
  ),
)

status_without_token :
    (u : Tab) → get_item token_key u ≡ none → (get_auth_status u).0 ≡ unauthenticated
unfolding get_auth_status
status_without_token u h = simp h

headers_without :
    (u : Tab) → get_item token_key u ≡ none → get_item pubkey_key u ≡ none → auth_headers u ≡ []
unfolding auth_headers
headers_without u h h' = simp (h, h')

All-map {ℓ κ μ} :
    {A : Type ℓ} {P : A → Type κ} {Q : A → Type μ} (f : (a : A) → P a → Q a) (xs : List A)
    → All P xs
    → All Q xs
All-map f [] h = tt
All-map f (x ∷ xs) h = (f x h.0, All-map f xs h.1)

module _ (p : Platform) (hooks : List Hook) (t : Tab) where
  stored :
      t.has_window ≡ true
      → (clear_session hooks t).local_storage ≡ run_hooks hooks (removes t.local_storage)
  unfolding clear_session remove_session remove_item notify clear_key_state removes
  stored window = ground (arith, window)

  window_kept : (clear_session hooks t).has_window ≡ t.has_window
  unfolding clear_session remove_session remove_item notify clear_key_state
  window_kept = ground arith

  items_gone :
      t.has_window ≡ true
      → All IsTame hooks
      → All (λ k. get_item k (clear_session hooks t) ≡ none) session_items
  items_gone window tame =
      All-map
        (λ k gone.
          if_either (λ o. o ≡ none) (clear_session hooks t).has_window
            (ap (lookup k) (stored window)
              ∙ run_hooks-IsTame hooks k (removes t.local_storage) tame gone)
            refl)
        session_items (removed t.local_storage)

  -- After a logout in a window, where no hook brings an item of the session back, whether hooks threw
  -- or not: every item of the session is gone from the storage, the vault is locked, the status is
  -- unauthenticated, no authentication header is sent, and every other bound tab that hears of the
  -- removed token gives no key.
  pub logout_lem :
      (sibling : Tab)
      → t.has_window ≡ true
      → All IsTame hooks
      → sibling.vault.hide_handler_bound ≡ true
      → All (λ k. get_item k (clear_session hooks t) ≡ none) session_items
        × IsLocked (clear_session hooks t)
        × ((get_auth_status (clear_session hooks t)).0 ≡ unauthenticated)
        × (auth_headers (clear_session hooks t) ≡ [])
        × ((get_app_key (
              on_page_event p
                (storage token_key (get_item token_key (clear_session hooks t)))
                sibling)).0
            ≡ none)
  logout_lem sibling window tame bound =
      let gone = items_gone window tame in
      (
        gone,
        clear_session-IsLocked hooks t,
        status_without_token (clear_session hooks t) gone.0,
        headers_without (clear_session hooks t) gone.0 gone.1.0,
        rw gone.0 (
            ((on_page_event_lem p (storage token_key none) sibling bound).0
              (unfold locks text_eq in refl)).1),
      )
