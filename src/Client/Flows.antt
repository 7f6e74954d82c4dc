-- ===== src/Client/Flows.antt =====
-- client/authClient.ts: the flows of AuthClient for email and wallet accounts, and re-authentication
-- with a passkey or a wallet. What a flow waits for (a reply of the server, a signature of the
-- wallet, random draws) may change the page in any way meanwhile; the rest runs without a stop.

pub mod Ends
pub mod Email
pub mod Wallet
pub mod Reauth
use tetrac_login_sdk.Prelude.{
  ℕ, Bool, not, ◌&&◌, Option, none, some, List, [], ◌∷◌, ◌++◌, Text, codes, if◌then◌else◌, Result,
  ok, err, String,
}
use tetrac_login_sdk.Core.Platform.{Platform}
use tetrac_login_sdk.Core.Config.{AuthConfig, pbkdf2_iterations}
use tetrac_login_sdk.Core.Types.{
  AuthMethod, email, wallet, EncryptedWallet, WalletRole, funds, role_eq,
}
use tetrac_login_sdk.Core.Crypto.Secrets.{WebCrypto, CipherError}
use tetrac_login_sdk.Core.Messages.{wallet_app_key_message, wallet_app_key_message_hw}
use tetrac_login_sdk.Client.Vault.{Tab, usable, SessionParams, set_session}
use tetrac_login_sdk.Client.Wallets.{
  KeySource, Bundle, WalletGen, ChainWallets, generate_wallet_bundle,
}
use tetrac_login_sdk.Client.AuthKey.{Signing}

pub data FlowError : Type 0 where
  -- ApiError: the message and the status
  api_error : Text → ℕ → FlowError
  -- `fetch` rejects.
  no_reply : FlowError
  weak_passkey : String → FlowError
  -- "walletGen must produce at least one wallet"
  no_identity : FlowError
  -- The flow needs a browser's origin.
  no_origin : FlowError
  no_email : FlowError
  wrong_credentials : FlowError
  -- `walletLoginMessage` throws.
  no_message : FlowError
  sealing : CipherError → FlowError
  no_keypair : FlowError
  not_signed : FlowError

-- The body of a request, without the fields that JSON.stringify drops.
pub record Post : Type 0 where
  pub public_key : Option Text
  pub email_address : Option Text
  pub signature : Option Text
  pub challenge : Option Text
  pub auth_public_key : Option Text
  pub auth_method : Option AuthMethod
  pub wallets : Option (List EncryptedWallet)
  pub iterations : Option ℕ
  pub envelope : Option Text

abbrev pub no_fields : Post
no_fields = record {
  public_key = none;
  email_address = none;
  signature = none;
  challenge = none;
  auth_public_key = none;
  auth_method = none;
  wallets = none;
  iterations = none;
  envelope = none;
}

-- What comes back: a body of the type that the flow reads, or a refusal with its `error`.
pub data Reply (T : Type 0) : Type 0 where
  success : T → Reply T
  refused : ℕ → Option Text → Reply T
  lost : Reply T

pub record ChallengeReply : Type 0 where
  pub challenge : Text
  pub pbkdf2_iterations : Option ℕ
  pub offchain_envelope : Option Text

pub record AuthResult : Type 0 where
  pub public_key : Text
  pub auth_token : Text

-- The tab, and everything else that a flow can reach.
pub record Page (E : Type 0) : Type 0 where
  pub tab : Tab
  pub outside : E

abbrev pub Flow : Type 0 → Type 0 → Type 0
Flow E A = Page E → Result FlowError A × Page E

-- A wallet: the message and the options, of which the layout may be undefined; the signature and the
-- layout that `onEnvelope` is told of. `none` is a rejection.
abbrev pub Signer : Type 0 → Type 0
Signer E = List ℕ → Option (Option Text) → Page E → Option (List ℕ × Option Text) × Page E

-- What the client is made of, and what it waits for.
pub record Client (E : Type 0) : Type 1 where
  pub platform : Platform
  pub web_crypto : WebCrypto
  pub nacl : Signing
  pub keys : KeySource
  pub config : AuthConfig
  pub wallet_gen : WalletGen
  -- `window.location?.origin`
  pub location_origin : Option Text
  -- `parseInt(raw, 10)`
  pub parse_int : Text → Option ℕ
  -- The secret key of `Keypair.fromSecretKey(hexToBytes(s))`; `none` is a thrown error.
  pub secret_key : Text → Option (List ℕ)
  -- `/challenge`, and the endpoints that open a session, by their path and body
  pub request_challenge : Text → Post → Page E → Reply ChallengeReply × Page E
  pub request_session : Text → Text → Post → Page E → Reply AuthResult × Page E
  -- The numbers of the next draws of key pairs.
  pub draw : Page E → (ℕ × ℕ) × Page E

module _ {E A : Type 0} where
  abbrev pub pure : A → Flow E A
  pure a pg = (ok a, pg)

  abbrev pub or_throw : FlowError → Option A → Flow E A
  or_throw e none pg = (err e, pg)
  or_throw e (some a) pg = (ok a, pg)

  abbrev pub sealed : Result CipherError A → Flow E A
  sealed (ok a) pg = (ok a, pg)
  sealed (err e) pg = (err (sealing e), pg)

module _ {E A B : Type 0} where
  abbrev pub continue : Result FlowError A → (A → Flow E B) → Flow E B
  continue (ok a) f pg = f a pg
  continue (err e) f pg = (err e, pg)

  infixl 5 ◌>>=◌
  unfoldable pub ◌>>=◌ : Flow E A → (A → Flow E B) → Flow E B
  ◌>>=◌ m f pg = let r = m pg in continue r.0 f r.1

abbrev pub first_of : Option ChainWallets → Option EncryptedWallet → Option EncryptedWallet
first_of none other = other
first_of (some []) other = other
first_of (some (w ∷ ws)) other = some w

unfoldable pub find_role : WalletRole → List EncryptedWallet → Option EncryptedWallet
find_role role [] = none
find_role role (w ∷ ws) =
    let rest = find_role role ws in if role_eq w.role role then some w else rest

-- `bundle.solana?.funds`, else the first wallet of Solana, else the first of EVM.
unfoldable pub identity_of : Bundle → Option EncryptedWallet
unfolding find_role
identity_of b =
    let other = first_of b.solana_wallets (first_of b.evm_wallets none) in
    elim b.solana_wallets [
      | none ↦ other
      | some ws ↦ elim (find_role funds ws) [ none ↦ other | some w ↦ some w ]
    ]

-- The answer to a wallet's handshake.
pub record Handshake : Type 0 where
  pub app_key : Text
  pub signature : Text
  pub challenge : Text
  pub envelope : Option Text

abbrev pub or_default : Option ℕ → ℕ
or_default none = 100000
or_default (some n) = n

-- The options of the key signature: a layout that is not empty is pinned.
abbrev pub pin_of : Option Text → Option (Option Text)
pin_of e = if usable e then some e else none

-- A report of `onEnvelope` replaces the pinned layout.
abbrev pub used_of : Option Text → Option Text → Option Text
used_of pinned none = pinned
used_of pinned (some e) = some e

module _ {E : Type 0} where
  abbrev pub sign_by : Signer E → List ℕ → Option (Option Text) → Flow E (List ℕ × Option Text)
  sign_by signer message opts pg = let r = signer message opts pg in or_throw not_signed r.0 r.1

module _ {E : Type 0} (c : Client E) where
  -- `post`
  abbrev pub settled : {T : Type 0} → Reply T → Flow E T
  settled (success t) pg = (ok t, pg)
  settled (refused status (some e)) pg = (err (api_error e status), pg)
  settled (refused status none) pg = (
    err (api_error (codes "Request failed (" ++ c.platform.number_text status ++ codes ")") status),
    pg,
  )
  settled lost pg = (err no_reply, pg)

  unfoldable pub post_challenge : Post → Flow E ChallengeReply
  post_challenge body pg = let r = c.request_challenge c.config.app_id body pg in settled r.0 r.1

  unfoldable pub post_session : Text → Post → Flow E AuthResult
  post_session path body pg =
      let r = c.request_session path c.config.app_id body pg in settled r.0 r.1

  unfoldable pub client_origin : Flow E Text
  client_origin pg =
      or_throw no_origin
        (if pg.tab.has_window && usable c.location_origin then c.location_origin else none) pg

  unfoldable pub new_bundle : Text → WalletGen → Flow E Bundle
  unfolding generate_wallet_bundle
  new_bundle app_key gen pg =
      let r = c.draw pg in
      sealed (generate_wallet_bundle c.web_crypto c.keys app_key gen r.0.0 r.0.1) r.1

  unfoldable pub open_session : SessionParams → Flow E (Unit {0})
  unfolding set_session
  open_session s pg = (ok tt, record pg { tab = set_session c.platform s pg.tab })

  abbrev pub key_message : Bool → Text → Text
  key_message hardware origin =
      if hardware
      then wallet_app_key_message_hw c.platform c.config.app_id origin
      else wallet_app_key_message c.platform c.config.app_id origin
