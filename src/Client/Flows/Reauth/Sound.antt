-- ===== src/Client/Flows/Reauth/Sound.antt =====
-- What unlock and revealSecret (client/authClient.ts) leave of the page.
use tetrac_login_sdk.Prelude.{
  ◌≡◌, refl, Option, none, some, Text, Result, ok, err, arith, if◌then◌else◌,
}
use tetrac_login_sdk.Core.Types.{EncryptedWallet}
use tetrac_login_sdk.Core.Crypto.{random_hex}
use tetrac_login_sdk.Core.Crypto.Secrets.{
  CipherError, derive_app_key_from_passkey, derive_app_key_from_signature,
}
use tetrac_login_sdk.Client.Vault.{Tab, get_pbkdf2_iterations, arm_app_key, get_item, envelope_key}
use tetrac_login_sdk.Client.Wallets.{decrypt_wallet_secret}
use tetrac_login_sdk.Client.Flows.{
  FlowError, no_email, Page, Client, pure, pin_of, or_default, key_message,
}
use tetrac_login_sdk.Client.Flows.Ends.{
  SignerKeeps, Quiet, >>=-ends, >>=-Quiet, >>=-eq_ok, pure-Quiet, or_throw-Quiet,
  client_origin-Quiet, sign_by-Quiet,
}
use tetrac_login_sdk.Client.Flows.Reauth.{
  read_tab, session_email, Credentials, passkey, sign_message, derive_app_key, opened, validate,
  unlock, reveal_secret,
}

module _ {E : Type 0} (c : Client E) where
  -- A wallet, if there is one, opens under a key.
  abbrev pub Validated : Option EncryptedWallet → Text → Type 0
  Validated none app_key = Unit
  Validated (some w) app_key =
      (secret : Text) × (decrypt_wallet_secret c.web_crypto w app_key ≡ ok secret)

  opened-eq_ok :
      {A : Type 0} (r : Result CipherError A) (a : A) (pg u : Page E)
      → opened c r pg ≡ (ok a, u)
      → r ≡ ok a
  opened-eq_ok (ok b) a pg u h = ground arith
  opened-eq_ok (err e) a pg u h = absurd (ground arith)

  validate-eq_ok :
      (o : Option EncryptedWallet) (app_key : Text) (x : Unit {0}) (pg u : Page E)
      → validate c o app_key pg ≡ (ok x, u)
      → Validated o app_key
  unfolding validate
  validate-eq_ok none app_key x pg u h = tt
  validate-eq_ok (some w) app_key x pg u h =
      let (secret, v, e, _) =
        >>=-eq_ok (opened c (decrypt_wallet_secret c.web_crypto w app_key)) (λ _. pure tt) pg h in
      (secret, opened-eq_ok (decrypt_wallet_secret c.web_crypto w app_key) secret pg v e)

  module _ (P : Page E → Type 0) where
    abbrev pub CredentialsKeep : Credentials E → Type 0
    CredentialsKeep (passkey secret) = Unit
    CredentialsKeep (sign_message signer hardware) = SignerKeeps c P signer

    opened-Quiet : {A : Type 0} (r : Result CipherError A) → Quiet c P A (opened c r)
    opened-Quiet (ok a) = record { keeps = λ pg h. h }
    opened-Quiet (err e) = record { keeps = λ pg h. h }

    validate-Quiet :
        (o : Option EncryptedWallet) (app_key : Text) → Quiet c P (Unit {0}) (validate c o app_key)
    unfolding validate
    validate-Quiet none app_key = pure-Quiet c P tt
    validate-Quiet (some w) app_key =
        >>=-Quiet c P _ _ (opened-Quiet (decrypt_wallet_secret c.web_crypto w app_key))
          (λ x. pure-Quiet c P tt)

    read_tab-Quiet : {A : Type 0} (f : Tab → A) → Quiet c P A (read_tab c f)
    read_tab-Quiet f = record { keeps = λ pg h. h }

    derive_app_key-Quiet :
        (creds : Credentials E) → CredentialsKeep creds → Quiet c P Text (derive_app_key c creds)
    unfolding derive_app_key
    derive_app_key-Quiet (passkey secret) keep =
        >>=-Quiet c P _ _ (read_tab-Quiet (session_email c)) (λ found.
          >>=-Quiet c P _ _ (or_throw-Quiet c P no_email found) (λ address.
            >>=-Quiet c P _ _ (read_tab-Quiet (get_pbkdf2_iterations c.parse_int)) (λ iterations.
              pure-Quiet c P (
                derive_app_key_from_passkey c.web_crypto c.platform secret address
                  (or_default iterations) c.config.app_id))))
    derive_app_key-Quiet (sign_message signer hardware) keep =
        >>=-Quiet c P _ _ (client_origin-Quiet c P) (λ origin.
          >>=-Quiet c P _ _ (read_tab-Quiet (get_item envelope_key)) (λ pinned.
            >>=-Quiet c P _ _
              (sign_by-Quiet c P signer keep (c.platform.utf8 (key_message c hardware origin))
                (if hardware then pin_of pinned else none))
              (λ signed.
                pure-Quiet c P (derive_app_key_from_signature c.platform (random_hex signed.0)))))

    -- The end of an unlock.
    abbrev pub Unlocks : Option EncryptedWallet → Result FlowError (Unit {0}) × Page E → Type 0
    Unlocks o (err e, pg) = P pg
    Unlocks o (ok x, pg) =
        (app_key : Text) × (before : Page E) × P before
        × Validated o app_key
        × (pg ≡ record before { tab = arm_app_key app_key before.tab })

    unlock-Unlocks :
        (creds : Credentials E) (o : Option EncryptedWallet) (pg : Page E)
        → CredentialsKeep creds
        → P pg
        → Unlocks o (unlock c creds o pg)
    unfolding unlock
    unlock-Unlocks creds o pg keep h =
        >>=-ends c P (Unlocks o) (λ e u k. k) (derive_app_key c creds) _ pg
          (derive_app_key-Quiet creds keep) h
          (λ app_key u e k.
            >>=-ends c P (Unlocks o) (λ e u k. k) (validate c o app_key) _ u
              (validate-Quiet o app_key) k
              (λ x v valid held. (app_key, v, held, validate-eq_ok o app_key x u v valid, refl)))

    -- The end of a reveal.
    abbrev pub Reveals : EncryptedWallet → Result FlowError Text × Page E → Type 0
    Reveals w (err e, pg) = P pg
    Reveals w (ok secret, pg) =
        P pg × ((app_key : Text) × (decrypt_wallet_secret c.web_crypto w app_key ≡ ok secret))

    reveal_secret-Reveals :
        (w : EncryptedWallet) (creds : Credentials E) (pg : Page E)
        → CredentialsKeep creds
        → P pg
        → Reveals w (reveal_secret c w creds pg)
    unfolding reveal_secret
    reveal_secret-Reveals w creds pg keep h =
        >>=-ends c P (Reveals w) (λ e u k. k) (derive_app_key c creds) _ pg
          (derive_app_key-Quiet creds keep) h
          (λ app_key u e k.
            by_result app_key (decrypt_wallet_secret c.web_crypto w app_key) refl u k)
      where
        by_result :
            (app_key : Text) (r : Result CipherError Text)
            → decrypt_wallet_secret c.web_crypto w app_key ≡ r
            → (u : Page E) → P u
            → Reveals w (opened c r u)
        by_result app_key (ok secret) e u k = (k, (app_key, e))
        by_result app_key (err x) e u k = k

    -- For whatever is so of a page and is not undone by the wallet that is asked to sign: an unlock
    -- that throws keeps it, and one that returns armed a key under which the wallet to validate with,
    -- if there is one, opens, and did nothing else; a reveal keeps it whether it returns or throws, so
    -- that it arms no key and renews no deadline, and returns what the wallet opens to.
    pub reauth_sound :
        (creds : Credentials E) (o : Option EncryptedWallet) (w : EncryptedWallet) (pg : Page E)
        → CredentialsKeep creds
        → P pg
        → Unlocks o (unlock c creds o pg) × Reveals w (reveal_secret c w creds pg)
    reauth_sound creds o w pg keep h =
        (unlock-Unlocks creds o pg keep h, reveal_secret-Reveals w creds pg keep h)
