-- ===== src/Tests/Client.antt =====
-- The theorems of client/session.ts at concrete inputs.
use tetrac_login_sdk.Prelude.{◌≡◌, refl, true, none, some, [], ◌∷◌, codes, arith, text_eq, All}
use tetrac_login_sdk.Client.Vault.{
  Tab, Hook, SessionParams, page_hide, storage, session_expired, unauthenticated, token_key,
  get_item, arm_app_key, set_session, clear_session, get_app_key, get_auth_status, auth_headers,
  on_page_event, touch_vault, initial_vault,
}
use tetrac_login_sdk.Client.Vault.Steps.{
  here, next, passes, login, touch, page_event, time_passes, still, after, IsSound, IsLocked,
  fresh_tab, Reach-IsSound,
}
use tetrac_login_sdk.Client.Vault.Locking.{IsTame, session_items, idle_locked, logout_lem}
use tetrac_login_sdk.Client.Vault.Session.{later, set_session_lem}
use tetrac_login_sdk.Tests.Setup.{platform, key}

abbrev params : SessionParams
params = record {
  public_key = key;
  auth_token = codes "token";
  app_key = codes "secret";
  email = some (codes "a@b.c");
  pbkdf2_iterations = some 600000;
  offchain_envelope = none;
}

-- Leaves the storage as it is, and throws.
abbrev thrower : Hook
thrower m = (m, true)

thrower-IsTame : IsTame thrower
thrower-IsTame k m h = h

abbrev page : Tab
page = fresh_tab true 1000 []

abbrev signed_in : Tab
signed_in = set_session platform params page

abbrev hidden : Tab
hidden = on_page_event platform page_hide (touch_vault signed_in)

-- Another tab of the site, unlocked.
abbrev sibling : Tab
sibling =
    arm_app_key (codes "secret")
      (record page { vault = record initial_vault { hide_handler_bound = true } })

Reach-IsSound_example : IsSound hidden
Reach-IsSound_example = Reach-IsSound platform (thrower ∷ []) true 1000 [] (
    next (next (next here (login params page)) (touch signed_in))
      (passes (page_event page_hide (touch_vault signed_in))))

idle_locked_example : (get_app_key (later 15001 (arm_app_key (codes "secret") page))).0 ≡ none
unfolding initial_vault arm_app_key
idle_locked_example =
    idle_locked platform (thrower ∷ []) (codes "secret") page
      (after still (time_passes 15001 (arm_app_key (codes "secret") page))) (omega arith)

logout_lem_example :
    All (λ k. get_item k (clear_session (thrower ∷ []) signed_in) ≡ none) session_items
    × IsLocked (clear_session (thrower ∷ []) signed_in)
    × ((get_auth_status (clear_session (thrower ∷ []) signed_in)).0 ≡ unauthenticated)
    × (auth_headers (clear_session (thrower ∷ []) signed_in) ≡ [])
    × ((get_app_key (
          on_page_event platform
            (storage token_key (get_item token_key (clear_session (thrower ∷ []) signed_in)))
            sibling)).0
        ≡ none)
unfolding set_session arm_app_key
logout_lem_example =
    logout_lem platform (thrower ∷ []) signed_in sibling refl (thrower-IsTame, tt) refl

set_session_lem_example :
    ((get_app_key (later 15001 signed_in)).0 ≡ none)
    × ((get_auth_status (later 15001 signed_in)).0 ≡ session_expired)
    × (auth_headers (later 15001 signed_in)
        ≡ (codes "ttc-auth-token", codes "token") ∷ (codes "ttc-public-key", key) ∷ [])
unfolding text_eq initial_vault
set_session_lem_example = set_session_lem platform params page 15001 refl (refl, refl, refl)
