-- ===== src/Client/Flows/Wallet/Sound.antt =====
-- What the flows of a wallet (client/authClient.ts) sign and send, and which session they open.
use tetrac_login_sdk.Prelude.{
  ℕ, codes, Bool, ◌≡◌, refl, ap, sym, subst, ◌∙◌, List, Option, none, some, Text, ok, All,
  if◌then◌else◌,
}
use tetrac_login_sdk.Core.Types.{AuthMethod, wallet}
use tetrac_login_sdk.Core.Crypto.{random_hex}
use tetrac_login_sdk.Core.Crypto.Secrets.{Opens, derive_app_key_from_signature}
use tetrac_login_sdk.Core.Messages.{wallet_login_message}
use tetrac_login_sdk.Client.Vault.{SessionParams}
use tetrac_login_sdk.Client.Wallets.{
  Bundle, flatten_bundle, web3_wallet_gen, generate_wallet_bundle,
}
use tetrac_login_sdk.Client.Wallets.Opens.{NotFunds, web3-NotFunds, IsOpened, generated-IsOpened}
use tetrac_login_sdk.Client.Flows.{
  no_fields, no_message, Post, AuthResult, ChallengeReply, Handshake, Page, Signer, Client,
  or_throw, used_of, post_challenge, client_origin, sign_by, new_bundle, key_message,
}
use tetrac_login_sdk.Client.Flows.Ends.{
  Asked, post_challenge-eq_ok, client_origin-eq_ok, or_throw-same, pure-same, AwaitsKeep,
  SignerKeeps, Quiet, Ends, >>=-ends, >>=-Quiet, >>=-eq_ok, pure-Quiet, pure-eq_ok, or_throw-Quiet,
  or_throw-eq_ok, client_origin-Quiet, sign_by-Quiet, sign_by-eq_ok, post_challenge-Quiet,
  new_bundle-Quiet, new_bundle-eq_ok, post_session-Ends,
}
use tetrac_login_sdk.Client.Flows.Wallet.{
  wallet_handshake, wallet_session, signed_post, finish_wallet, login_with_wallet, wallets_post,
  enter_with_wallet, connect_wallet, register_with_wallet,
}

module _ {E : Type 0} (c : Client E) (public_key : Text) (signer : Signer E) (hardware : Bool) where
  abbrev key_opts : Option Text → Option (Option Text)
  key_opts pinned = if hardware then some pinned else none

  abbrev answer : ChallengeReply → List ℕ × Option Text → List ℕ × Option Text → Handshake
  answer reply auth key = record {
    app_key = derive_app_key_from_signature c.platform (random_hex key.0);
    signature = random_hex auth.0;
    challenge = reply.challenge;
    envelope = if hardware then used_of reply.offchain_envelope key.1 else none;
  }

  -- A handshake from a page: a challenge of the wallet's key is asked for there; the wallet signs the
  -- login message of the page's origin for its key and the challenge of the reply, with no layout
  -- pinned, and then the app-key message of that origin, a hardware wallet under the layout that the
  -- reply pins. The app key is a digest of the second signature, and what is kept of a hardware
  -- wallet's layout is what it reported, or else what was pinned.
  abbrev pub Shaken : Page E → Handshake → Page E → Type 0
  Shaken pg h after =
      (reply : ChallengeReply) × (origin : Text) × (message : Text) × (auth : List ℕ × Option Text)
      × (key : List ℕ × Option Text) × (asked : Page E) × (authed : Page E) × Asked c
          (record no_fields { public_key = some public_key }) pg reply asked
      × (c.location_origin ≡ some origin)
      × (wallet_login_message c.platform reply.challenge origin public_key ≡ some message)
      × (signer (c.platform.utf8 message) none asked ≡ (some auth, authed))
      × (signer (c.platform.utf8 (key_message c hardware origin))
            (if hardware then some reply.offchain_envelope else none) authed
          ≡ (some key, after))
      × (h.challenge ≡ reply.challenge)
      × (h.signature ≡ random_hex auth.0)
      × (h.app_key ≡ derive_app_key_from_signature c.platform (random_hex key.0))
      × (h.envelope ≡ (if hardware then used_of reply.offchain_envelope key.1 else none))

  -- A second look at the origin finds the first.
  same_origin : (a b : Text) → c.location_origin ≡ some a → c.location_origin ≡ some b → b ≡ a
  same_origin a b h k = cc

  -- The key signature is the wallet's, on the page that the login signature left.
  at_end :
      (origin key_origin : Text) (opts : Option (Option Text)) (key : List ℕ × Option Text)
      (p q r u : Page E)
      → key_origin ≡ origin
      → p ≡ q
      → r ≡ u
      → signer (c.platform.utf8 (key_message c hardware key_origin)) opts q ≡ (some key, r)
      → signer (c.platform.utf8 (key_message c hardware origin)) opts p ≡ (some key, u)
  at_end origin key_origin opts key p q r u same left ends signed =
      ap (λ o. signer (c.platform.utf8 (key_message c hardware o)) opts p) (sym same)
      ∙ (ap (λ v. signer (c.platform.utf8 (key_message c hardware key_origin)) opts v) left
          ∙ (signed ∙ ap (λ v. (some key, v)) ends))

  wallet_handshake-eq_ok :
      (h : Handshake) (pg u : Page E)
      → wallet_handshake c public_key signer hardware pg ≡ (ok h, u)
      → Shaken pg h u
  unfolding wallet_handshake
  wallet_handshake-eq_ok h pg u e =
      let ask = record no_fields { public_key = some public_key } in
      let (reply, p1, e1, r1) = >>=-eq_ok (post_challenge c ask) _ pg e in
      let (origin, p2, e2, r2) = >>=-eq_ok (client_origin c) _ p1 r1 in
      let login = wallet_login_message c.platform reply.challenge origin public_key in
      let (message, p3, e3, r3) = >>=-eq_ok (or_throw no_message login) _ p2 r2 in
      let (auth, p4, e4, r4) = >>=-eq_ok (sign_by signer (c.platform.utf8 message) none) _ p3 r3 in
      let (key_origin, p5, e5, r5) = >>=-eq_ok (client_origin c) _ p4 r4 in
      let (key, p6, e6, r6) =
        >>=-eq_ok
          (sign_by signer (c.platform.utf8 (key_message c hardware key_origin))
            (key_opts reply.offchain_envelope))
          _ p5 r5 in
      let (here, same1) = client_origin-eq_ok c origin p1 p2 e2 in
      let (again, same4) = client_origin-eq_ok c key_origin p4 p5 e5 in
      let same3 = or_throw-same no_message login message p2 p3 e3 in
      let same : answer reply auth key ≡ h = pure-eq_ok (answer reply auth key) h p6 u r6 in
      let signed_key =
        sign_by-eq_ok signer (c.platform.utf8 (key_message c hardware key_origin))
          (key_opts reply.offchain_envelope) key p5 p6 e6 in
      (
        reply,
        origin,
        message,
        auth,
        key,
        p1,
        p4,
        post_challenge-eq_ok c ask reply pg p1 e1,
        here,
        or_throw-eq_ok no_message login message p2 p3 e3,
        subst (λ v. signer (c.platform.utf8 message) none v ≡ (some auth, p4)) (sym (same1 ∙ same3))
            (sign_by-eq_ok signer (c.platform.utf8 message) none auth p3 p4 e4),
        at_end origin key_origin (key_opts reply.offchain_envelope) key p4 p5 p6 u
            (same_origin origin key_origin here again) same4
            (pure-same (answer reply auth key) h p6 u r6) signed_key,
        ap (λ (x : Handshake). x.challenge) (sym same),
        ap (λ (x : Handshake). x.signature) (sym same),
        ap (λ (x : Handshake). x.app_key) (sym same),
        ap (λ (x : Handshake). x.envelope) (sym same),
      )

  -- What a login sends is the signature of a handshake, and the session is of that handshake.
  abbrev pub SoundLogin : Page E → Text → Post → AuthResult → SessionParams → Type 0
  SoundLogin pg path body result s =
      (h : Handshake) × (shaken : Page E) × Shaken pg h shaken
      × (path ≡ codes "login-wallet")
      × (body ≡ signed_post c public_key h)
      × (s ≡ wallet_session c h result)

  -- What a connection or a registration sends besides it is the layout that the key was signed under,
  -- and wallets, drawn after the handshake, none of them a Solana wallet of the role funds, that open
  -- under the session's key.
  abbrev pub SoundEntry :
      Text → Option AuthMethod → Page E → Text → Post → AuthResult → SessionParams → Type 0
  SoundEntry endpoint method pg path body result s =
      (h : Handshake) × (bundle : Bundle) × (shaken : Page E) × Shaken pg h shaken
      × (generate_wallet_bundle c.web_crypto c.keys h.app_key (web3_wallet_gen c.wallet_gen)
            (c.draw shaken).0.0 (c.draw shaken).0.1
          ≡ ok bundle)
      × (path ≡ endpoint)
      × (body ≡ wallets_post c public_key method h bundle)
      × (s ≡ wallet_session c h result)
      × All NotFunds (flatten_bundle bundle)
      × All (IsOpened c.web_crypto c.keys h.app_key) (flatten_bundle bundle)

  module _ (P : Page E → Type 0) (awaits : AwaitsKeep c P) (keep : SignerKeeps c P signer) where
    wallet_handshake-Quiet : Quiet c P Handshake (wallet_handshake c public_key signer hardware)
    unfolding wallet_handshake
    wallet_handshake-Quiet = >>=-Quiet c P _ _ (post_challenge-Quiet c P awaits _) (λ reply.
        >>=-Quiet c P _ _ (client_origin-Quiet c P) (λ origin.
          >>=-Quiet c P _ _
            (or_throw-Quiet c P no_message
              (wallet_login_message c.platform reply.challenge origin public_key))
            (λ message.
              >>=-Quiet c P _ _ (sign_by-Quiet c P signer keep (c.platform.utf8 message) none)
                (λ auth. >>=-Quiet c P _ _ (client_origin-Quiet c P) (λ key_origin.
                  >>=-Quiet c P _ _
                    (sign_by-Quiet c P signer keep
                      (c.platform.utf8 (key_message c hardware key_origin))
                      (key_opts reply.offchain_envelope))
                    (λ key. pure-Quiet c P (answer reply auth key)))))))

    finish_wallet-Ends :
        (R : Text → Post → AuthResult → SessionParams → Type 0) (path : Text) (h : Handshake)
        (body : Post) (pg : Page E)
        → P pg
        → ((result : AuthResult) → R path body result (wallet_session c h result))
        → Ends c P R (finish_wallet c path h body pg)
    unfolding finish_wallet
    finish_wallet-Ends R path h body pg k related =
        post_session-Ends c P awaits R path body (wallet_session c h) pg k related

    -- A wallet's login that throws has not undone what was so of the page; one that returns opened the
    -- session of the server's reply to the wallet's signature over the login message, under the key of
    -- the wallet's signature over the app-key message.
    pub login_with_wallet_sound :
        (pg : Page E)
        → P pg
        → Ends c P (SoundLogin pg) (login_with_wallet c public_key signer hardware pg)
    unfolding login_with_wallet
    login_with_wallet_sound pg k =
        >>=-ends c P (Ends c P (SoundLogin pg)) (λ e u x. x)
          (wallet_handshake c public_key signer hardware) _ pg wallet_handshake-Quiet k
          (λ h u e ku.
            finish_wallet-Ends (SoundLogin pg) (codes "login-wallet") h (signed_post c public_key h)
              u ku (λ result. (h, u, wallet_handshake-eq_ok h pg u e, refl, refl, refl)))

    enter_with_wallet-Ends :
        Opens c.web_crypto
        → ((s : Text) → c.web_crypto.utf8_decode (c.web_crypto.utf8 s) ≡ s)
        → (path : Text) (method : Option AuthMethod) (pg : Page E) → P pg
        → Ends c P
            (SoundEntry path method pg)
            (enter_with_wallet c path method public_key signer hardware pg)
    unfolding enter_with_wallet
    enter_with_wallet-Ends opens reads path method pg k =
        let ends = Ends c P (SoundEntry path method pg) in
        >>=-ends c P ends (λ e u x. x) (wallet_handshake c public_key signer hardware) _ pg
          wallet_handshake-Quiet k
          (λ h u e ku.
            let gen = web3_wallet_gen c.wallet_gen in
            >>=-ends c P ends (λ e u x. x) (new_bundle c h.app_key gen) _ u
              (new_bundle-Quiet c P awaits h.app_key gen) ku
              (λ bundle v made kv.
                let drawn = (new_bundle-eq_ok c h.app_key gen bundle u v made).0 in
                finish_wallet-Ends (SoundEntry path method pg) path h
                  (wallets_post c public_key method h bundle) v kv
                  (λ result. (
                    h,
                    bundle,
                    u,
                    wallet_handshake-eq_ok h pg u e,
                    drawn,
                    refl,
                    refl,
                    refl,
                    web3-NotFunds c.web_crypto c.keys h.app_key c.wallet_gen _ _ bundle drawn,
                    generated-IsOpened c.web_crypto c.keys h.app_key opens reads gen _ _ bundle
                        drawn,
                  ))))

    -- A connection or a registration of a wallet that throws has not undone what was so of the page;
    -- one that returns opened the session of the server's reply to a request with the wallet's
    -- signature over the challenge that was asked for on the page, with the layout of the key's
    -- signature, which a hardware wallet makes under the layout that the server's reply pins, and with
    -- wallets that open under the session's key and do not stand in for the connected one.
    pub wallet_entry_sound :
        Opens c.web_crypto
        → ((s : Text) → c.web_crypto.utf8_decode (c.web_crypto.utf8 s) ≡ s)
        → (pg : Page E) → P pg
        → Ends c P
            (SoundEntry (codes "connect-wallet") none pg)
            (connect_wallet c public_key signer hardware pg)
          × Ends c P
              (SoundEntry (codes "register") (some wallet) pg)
              (register_with_wallet c public_key signer hardware pg)
    unfolding connect_wallet register_with_wallet
    wallet_entry_sound opens reads pg k = (
      enter_with_wallet-Ends opens reads (codes "connect-wallet") none pg k,
      enter_with_wallet-Ends opens reads (codes "register") (some wallet) pg k,
    )
