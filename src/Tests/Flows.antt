-- ===== src/Tests/Flows.antt =====
-- The theorems on the flows of the browser (client/authClient.ts) at concrete inputs.
use tetrac_login_sdk.Prelude.{
  ℕ, ◌+◌, ◌≡◌, refl, true, none, some, [], ◌∷◌, Text, codes, length, ok, text_eq, lacks,
}
use tetrac_login_sdk.Core.Types.{wallet, EncryptedWallet, solana, signing as signing_role}
use tetrac_login_sdk.Core.Config.{default_config, parse_origin}
use tetrac_login_sdk.Core.Crypto.Secrets.{WebCrypto, derive_app_key_from_passkey}
use tetrac_login_sdk.Core.Messages.{is_siws_address, is_siws_nonce}
use tetrac_login_sdk.Storage.Map.{lookup}
use tetrac_login_sdk.Client.Vault.{Tab, initial_vault, email_key}
use tetrac_login_sdk.Client.Wallets.{KeySource, default_wallet_gen}
use tetrac_login_sdk.Client.Flows.{Page, Client, Signer, success, AuthResult, ChallengeReply}
use tetrac_login_sdk.Client.Flows.Ends.{Ends, AwaitsKeep}
use tetrac_login_sdk.Client.Flows.Email.{register_with_email, login_with_email}
use tetrac_login_sdk.Client.Flows.Email.Sound.{
  SoundLogin, SoundRegistration, login_with_email_sound, register_with_email_sound,
}
use tetrac_login_sdk.Client.Flows.Wallet.{connect_wallet, register_with_wallet}
use tetrac_login_sdk.Client.Flows.Wallet.Sound.{SoundEntry, wallet_entry_sound}
use tetrac_login_sdk.Client.Flows.Reauth.{passkey, unlock, reveal_secret}
use tetrac_login_sdk.Client.Flows.Reauth.Sound.{Unlocks, Reveals, reauth_sound}
use tetrac_login_sdk.Tests.Setup.{parse_site, site, nonce, key}
use tetrac_login_sdk.Tests.Wallets.{web, web_opens, read_body}
use tetrac_login_sdk.Tests.AuthKey.{chain, signing, seeds}

-- Passkeys of one length have one key.
abbrev browser : WebCrypto
browser = record web { pbkdf2_hex = λ secret salt n. length secret ∷ 2 ∷ [] }

abbrev keys : KeySource
keys = record {
  solana_pair = λ n. record { secret = n ∷ []; address = key };
  evm_pair = λ n. record { secret = n ∷ []; address = codes "0x" };
  nonce = λ n. n ∷ [];
}

-- The page counts what it has waited for.
abbrev waited : Page ℕ → Page ℕ
waited pg = record pg { outside = pg.outside + 1 }

abbrev challenge_reply : ChallengeReply
challenge_reply = record {
  challenge = nonce;
  pbkdf2_iterations = some 9;
  offchain_envelope = some (codes "legacy");
}

abbrev result : AuthResult
result = record { public_key = key; auth_token = codes "t" }

abbrev client : Client ℕ
client = record {
  platform = chain;
  web_crypto = browser;
  nacl = signing;
  keys = keys;
  config = default_config site;
  wallet_gen = default_wallet_gen;
  location_origin = some site;
  parse_int = λ s. some 9;
  secret_key = λ s. some s;
  request_challenge = λ app_id body pg. (success challenge_reply, waited pg);
  request_session = λ path app_id body pg. (success result, waited pg);
  draw = λ pg. ((0, 0), waited pg);
}

abbrev start : Tab
start = record {
  vault = initial_vault;
  local_storage = (email_key, codes "a@b.c") ∷ [];
  has_window = true;
  now = 5;
  notified = 0;
}

abbrev page : Page ℕ
page = record { tab = start; outside = 0 }

-- Nothing has happened to the tab.
abbrev Untouched : Page ℕ → Type 0
Untouched pg = pg.tab ≡ start

keep : AwaitsKeep client Untouched
keep = record {
  challenge_keeps = λ app_id body pg h. h;
  session_keeps = λ path app_id body pg h. h;
  draw_keeps = λ pg h. h;
}

abbrev address : Text
address = codes "a@b.c"

abbrev secret : Text
secret = codes "a passkey of words"

logged_in : (login_with_email client address secret page).0 ≡ ok result
unfolding login_with_email
logged_in = refl

login_with_email_sound_example :
    Ends client Untouched
      (SoundLogin client address secret page)
      (login_with_email client address secret page)
login_with_email_sound_example =
    login_with_email_sound client address secret Untouched keep seeds page refl

registered : (register_with_email client address secret page).0 ≡ ok result
unfolding register_with_email derive_app_key_from_passkey text_eq parse_origin parse_site lacks
    is_siws_address is_siws_nonce
registered = refl

register_with_email_sound_example :
    Ends client Untouched
      (SoundRegistration client address secret page)
      (register_with_email client address secret page)
register_with_email_sound_example =
    register_with_email_sound client address secret Untouched keep web_opens (λ s. refl) page refl

-- A wallet whose signature is one byte.
abbrev signer : Signer ℕ
signer message opts pg = (some (7 ∷ [], none), waited pg)

connected : (connect_wallet client key signer true page).0 ≡ ok result
unfolding connect_wallet text_eq parse_origin parse_site lacks is_siws_address is_siws_nonce
connected = refl

wallet_entry_sound_example :
    Ends client Untouched
      (SoundEntry client key signer true (codes "connect-wallet") none page)
      (connect_wallet client key signer true page)
    × Ends client Untouched
        (SoundEntry client key signer true (codes "register") (some wallet) page)
        (register_with_wallet client key signer true page)
wallet_entry_sound_example =
    wallet_entry_sound client key signer true Untouched keep (λ message opts pg h. h) web_opens
      (λ s. refl) page refl

-- A wallet that opens under the key of the passkey.
abbrev stored : EncryptedWallet
stored = record {
  chain = solana;
  role = signing_role;
  public_key = key;
  encrypted_secret = codes "AAAB:ABAABCCC";
}

reauth_sound_example :
    Unlocks client Untouched (some stored) (unlock client (passkey secret) (some stored) page)
    × Reveals client Untouched stored (reveal_secret client stored (passkey secret) page)
reauth_sound_example =
    reauth_sound client Untouched (passkey secret) (some stored) stored page tt refl

revealed : (reveal_secret client stored (passkey secret) page).0 ≡ ok (2 ∷ [])
unfolding reveal_secret lookup text_eq derive_app_key_from_passkey read_body
revealed = refl
