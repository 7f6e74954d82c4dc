-- ===== src/Core/Messages/Binding.antt =====
-- What a signed message (core/index.ts) binds.
use tetrac_login_sdk.Prelude.{
  ◌≡◌, refl, sym, ◌∙◌, true, some, Text, codes, all, all-lacks, lacks, split_unique, append_cancel,
  &&_split, arith,
}
use tetrac_login_sdk.Core.Platform.{Platform, Url}
use tetrac_login_sdk.Core.Config.{parse_origin, normalize_origin}
use tetrac_login_sdk.Core.Messages.{
  login_text, wallet_login_message, is_siws_address, is_siws_nonce, is_base58,
  wallet_login_statement, wallet_app_key_message, wallet_app_key_message_hw,
}

siws_address-lacks : (s : Text) → is_siws_address s ≡ true → lacks 10 s ≡ true
unfolding is_siws_address
siws_address-lacks s h = all-lacks is_base58 10 refl s (&&_split (all is_base58 s) _ h).0

-- The four parts of the login text, where each separator is a character that the part before it
-- lacks.
login_text-injective :
    (host address origin challenge host' address' origin' challenge' : Text)
    → (lacks b' ' host ≡ true) × (lacks b' ' host' ≡ true)
    → (lacks 10 address ≡ true) × (lacks 10 address' ≡ true)
    → (lacks 10 origin ≡ true) × (lacks 10 origin' ≡ true)
    → login_text host origin address challenge ≡ login_text host' origin' address' challenge'
    → (host ≡ host') × (address ≡ address') × (origin ≡ origin') × (challenge ≡ challenge')
unfolding login_text
login_text-injective host address origin challenge host' address' origin' challenge' h a o e =
    let first = split_unique b' ' host host' _ _ h.0 h.1 e in
    let second =
      split_unique 10 address address' _ _ a.0 a.1
        (append_cancel (codes "wants you to sign in with your Solana account:\n") first.1) in
    let third = split_unique 10 origin origin' _ _ o.0 o.1 (
      append_cancel (codes "\nURI: ") (
        append_cancel (codes "\n")
          (append_cancel wallet_login_statement (append_cancel (codes "\n") second.1)))) in
    (first.0, second.0, third.0, append_cancel (codes "Version: 1\nNonce: ") third.1)

-- What `new URL` guarantees of what it accepts: no space in a host, no line break in an origin.
abbrev pub UrlsAreClean : Platform → Type 0
UrlsAreClean p =
    (s : Text) (u : Url)
    → p.parse_url s ≡ some u
    → (lacks b' ' u.host ≡ true) × (lacks 10 u.origin ≡ true)

module _ (p : Platform) where
  parse_origin-parse_url :
      (site : Text) (u : Url)
      → parse_origin p site ≡ some u
      → p.parse_url (normalize_origin p site) ≡ some u
  unfolding parse_origin
  parse_origin-parse_url site u h = ground arith

  -- What a message that was built went through.
  pub wallet_login_message-parts :
      (challenge origin address : Text) (u : Url) {m : Text}
      → parse_origin p origin ≡ some u
      → wallet_login_message p challenge origin address ≡ some m
      → (is_siws_address address ≡ true)
        × (is_siws_nonce challenge ≡ true)
        × (m ≡ login_text u.host u.origin address challenge)
  unfolding wallet_login_message
  wallet_login_message-parts challenge origin address u e h = ground arith

  -- One signed login message belongs to one address, one challenge and one site: two inputs that
  -- build the same bytes agree on the address, the challenge, and the host and origin of the site.
  pub wallet_login_message-injective :
      UrlsAreClean p
      → (challenge origin address challenge' origin' address' : Text) {m : Text} (u u' : Url)
      → parse_origin p origin ≡ some u
      → parse_origin p origin' ≡ some u'
      → wallet_login_message p challenge origin address ≡ some m
      → wallet_login_message p challenge' origin' address' ≡ some m
      → (u.host ≡ u'.host)
        × (address ≡ address')
        × (u.origin ≡ u'.origin)
        × (challenge ≡ challenge')
  wallet_login_message-injective clean challenge origin address challenge' origin' address' u u' pu
        pu' h h' =
      let (av, nv, mv) = wallet_login_message-parts challenge origin address u pu h in
      let (av', nv', mv') = wallet_login_message-parts challenge' origin' address' u' pu' h' in
      let c = clean (normalize_origin p origin) u (parse_origin-parse_url origin u pu) in
      let c' = clean (normalize_origin p origin') u' (parse_origin-parse_url origin' u' pu') in
      login_text-injective u.host address u.origin challenge u'.host address' u'.origin challenge'
        (c.0, c'.0) (siws_address-lacks address av, siws_address-lacks address' av') (c.1, c'.1)
        (sym mv ∙ mv')

  -- One message of an app key belongs to one app and one site, where app ids hold no line break.
  wallet_app_key_message-injective :
      (app_id origin app_id' origin' : Text)
      → lacks 10 app_id ≡ true
      → lacks 10 app_id' ≡ true
      → wallet_app_key_message p app_id origin ≡ wallet_app_key_message p app_id' origin'
      → (app_id ≡ app_id') × (normalize_origin p origin ≡ normalize_origin p origin')
  unfolding wallet_app_key_message
  wallet_app_key_message-injective app_id origin app_id' origin' h h' e =
      let parts = split_unique 10 app_id app_id' _ _ h h' (
        append_cancel (codes "\n\nApp: ") (
          append_cancel
            (codes
              "Unlock your encrypted TTC wallet keys.\n\nOnly sign this on a site you trust. This signature never leaves your device.")
            e)) in
      (parts.0, append_cancel (codes "Site: ") parts.1)

  -- The same of the message for hardware wallets, where app ids hold no space.
  wallet_app_key_message_hw-injective :
      (app_id origin app_id' origin' : Text)
      → lacks b' ' app_id ≡ true
      → lacks b' ' app_id' ≡ true
      → wallet_app_key_message_hw p app_id origin ≡ wallet_app_key_message_hw p app_id' origin'
      → (app_id ≡ app_id') × (normalize_origin p origin ≡ normalize_origin p origin')
  unfolding wallet_app_key_message_hw
  wallet_app_key_message_hw-injective app_id origin app_id' origin' h h' e =
      let parts = split_unique b' ' app_id app_id' _ _ h h' (
        append_cancel (codes " App: ") (
          append_cancel
            (codes
              "Unlock your encrypted TTC wallet keys. Only sign this on a site you trust. This signature never leaves your device.")
            e)) in
      (parts.0, append_cancel (codes "Site: ") parts.1)
