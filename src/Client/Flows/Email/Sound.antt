-- ===== src/Client/Flows/Email/Sound.antt =====
-- What registerWithEmail and loginWithEmail (client/authClient.ts) send, and which session they open.
use tetrac_login_sdk.Prelude.{
  ℕ, List, codes, ◌≡◌, refl, ap, sym, subst, ◌∙◌, Option, none, some, Text, ok, String, All, arith,
  true,
}
use tetrac_login_sdk.Core.Js.{str}
use tetrac_login_sdk.Core.Config.{pbkdf2_iterations}
use tetrac_login_sdk.Core.Types.{EncryptedWallet}
use tetrac_login_sdk.Core.Crypto.{check_passkey_length}
use tetrac_login_sdk.Core.Crypto.Secrets.{Opens}
use tetrac_login_sdk.Server.Signature.{verify_auth_signature}
use tetrac_login_sdk.Client.Vault.{SessionParams}
use tetrac_login_sdk.Client.Wallets.{
  Bundle, flatten_bundle, decrypt_wallet_secret, generate_wallet_bundle,
}
use tetrac_login_sdk.Client.Wallets.Opens.{IsOpened, generated-IsOpened}
use tetrac_login_sdk.Client.AuthKey.{derive_auth_public_key, sign_auth_challenge, sign_identity}
use tetrac_login_sdk.Client.AuthKey.Accepted.{SeedsVerify, sign_auth_challenge-verifies}
use tetrac_login_sdk.Client.Flows.{
  sealed, client_origin, ChallengeReply, no_fields, Post, no_message, no_keypair, no_identity,
  AuthResult, Page, Client, or_throw, identity_of, post_challenge, new_bundle,
}
use tetrac_login_sdk.Client.Flows.Email.{
  refuse_weak, prove_identity, email_key_of, email_session, registration, login_post,
  register_with_email, login_with_email,
}
use tetrac_login_sdk.Client.Flows.Ends.{
  Asked, post_challenge-eq_ok, client_origin-eq_ok, sealed-eq_ok, or_throw-same, pure-eq_ok,
  >>=-eq_ok, or_throw-eq_ok, new_bundle-eq_ok, AwaitsKeep, Quiet, Ends, >>=-ends, >>=-Quiet,
  pure-Quiet, or_throw-Quiet, sealed-Quiet, client_origin-Quiet, post_challenge-Quiet,
  new_bundle-Quiet, post_session-Ends,
}

module _ {E : Type 0} (c : Client E) (address passkey : Text) where
  -- The session is of the server's reply and of the key of the passkey by a number of iterations.
  abbrev pub OfPasskey : Option ℕ → AuthResult → SessionParams → Type 0
  OfPasskey iterations result s =
      (s.public_key ≡ result.public_key)
      × (s.auth_token ≡ result.auth_token)
      × (s.pbkdf2_iterations ≡ iterations)
      × (s.app_key ≡ email_key_of c passkey address iterations)

  -- A login from a page asks there for a challenge of the address; the iterations are those of the
  -- reply, and what it then sends is a signature over the challenge of the reply that the server takes
  -- under the public key of the session's key.
  abbrev pub SoundLogin : Page E → Text → Post → AuthResult → SessionParams → Type 0
  SoundLogin pg path body result s =
      (reply : ChallengeReply) × (asked : Page E) × (signature : Text) × Asked c
        (record no_fields { email_address = some address }) pg reply asked
      × OfPasskey reply.pbkdf2_iterations result s
      × (path ≡ codes "login")
      × (body ≡ login_post c address signature reply.challenge)
      × (verify_auth_signature c.platform (derive_auth_public_key c.nacl s.app_key) (str signature)
            reply.challenge
          ≡ true)

  -- A proof for an identity that is made from a page: a challenge that is asked for there, and the
  -- signature over the login message of the page's origin by the key pair that the identity opens to.
  abbrev pub Proves : Page E → Text → EncryptedWallet → Text × Text → Page E → Type 0
  Proves pg app_key identity proof asked =
      (reply : ChallengeReply) × (secret : Text) × (secret_key : List ℕ) × (origin : Text) × Asked c
        (record no_fields { public_key = some identity.public_key }) pg reply asked
      × (decrypt_wallet_secret c.web_crypto identity app_key ≡ ok secret)
      × (c.secret_key secret ≡ some secret_key)
      × (c.location_origin ≡ some origin)
      × (sign_identity c.nacl c.platform reply.challenge origin identity.public_key secret_key
          ≡ some proof.0)
      × (proof.1 ≡ reply.challenge)

  -- A registration from a page draws a bundle there and sends its wallets, which the session's key
  -- opens, the public key of that key, the iterations of the security level, and a proof for the first
  -- identity of the bundle.
  abbrev pub SoundRegistration : Page E → Text → Post → AuthResult → SessionParams → Type 0
  SoundRegistration pg path body result s =
      OfPasskey (some (pbkdf2_iterations c.config.security_level)) result s
      × (check_passkey_length passkey ≡ none)
      × (bundle : Bundle) × (identity : EncryptedWallet) × (proof : Text × Text) × (asked : Page E)
      × (generate_wallet_bundle c.web_crypto c.keys s.app_key c.wallet_gen (c.draw pg).0.0
            (c.draw pg).0.1
          ≡ ok bundle)
      × (identity_of bundle ≡ some identity)
      × Proves (c.draw pg).1 s.app_key identity proof asked
      × (path ≡ codes "register")
      × (body ≡ registration c s.app_key address s.pbkdf2_iterations bundle identity proof)
      × All (IsOpened c.web_crypto c.keys s.app_key) (flatten_bundle bundle)

  prove_identity-eq_ok :
      (identity : EncryptedWallet) (app_key : Text) (proof : Text × Text) (pg u : Page E)
      → prove_identity c identity app_key pg ≡ (ok proof, u)
      → (asked : Page E) × Proves pg app_key identity proof asked
  unfolding prove_identity
  prove_identity-eq_ok identity app_key proof pg u e =
      let (reply, p1, e1, r1) =
        >>=-eq_ok (post_challenge c (record no_fields { public_key = some identity.public_key })) _
          pg e in
      let (secret, p2, e2, r2) =
        >>=-eq_ok (sealed (decrypt_wallet_secret c.web_crypto identity app_key)) _ p1 r1 in
      let (secret_key, p3, e3, r3) =
        >>=-eq_ok (or_throw no_keypair (c.secret_key secret)) _ p2 r2 in
      let (origin, p4, e4, r4) = >>=-eq_ok (client_origin c) _ p3 r3 in
      let signed =
        sign_identity c.nacl c.platform reply.challenge origin identity.public_key secret_key in
      let (signature, p5, e5, r5) = >>=-eq_ok (or_throw no_message signed) _ p4 r4 in
      let same : (signature, reply.challenge) ≡ proof =
        pure-eq_ok (signature, reply.challenge) proof p5 u r5 in
      (
        p1,
        (
          reply,
          secret,
          secret_key,
          origin,
          post_challenge-eq_ok c (record no_fields { public_key = some identity.public_key }) reply
              pg p1 e1,
          (sealed-eq_ok (decrypt_wallet_secret c.web_crypto identity app_key) secret p1 p2 e2).0,
          or_throw-eq_ok no_keypair (c.secret_key secret) secret_key p2 p3 e3,
          (client_origin-eq_ok c origin p3 p4 e4).0,
          or_throw-eq_ok no_message signed signature p4 p5 e5
              ∙ ap (λ (x : Text × Text). some x.0) same,
          ap (λ (x : Text × Text). x.1) (sym same),
        ),
      )

  module _ (P : Page E → Type 0) (awaits : AwaitsKeep c P) where
    prove_identity-Quiet :
        (identity : EncryptedWallet) (app_key : Text)
        → Quiet c P (Text × Text) (prove_identity c identity app_key)
    unfolding prove_identity
    prove_identity-Quiet identity app_key =
        >>=-Quiet c P _ _ (post_challenge-Quiet c P awaits _) (λ reply.
          >>=-Quiet c P _ _ (sealed-Quiet c P (decrypt_wallet_secret c.web_crypto identity app_key))
            (λ secret.
              >>=-Quiet c P _ _ (or_throw-Quiet c P no_keypair (c.secret_key secret)) (λ secret_key.
                >>=-Quiet c P _ _ (client_origin-Quiet c P) (λ origin.
                  >>=-Quiet c P _ _
                    (or_throw-Quiet c P no_message (
                      sign_identity c.nacl c.platform reply.challenge origin identity.public_key
                        secret_key))
                    (λ signature. pure-Quiet c P (signature, reply.challenge))))))

    -- A login that throws has not undone what was so of the page; one that returns opened the session
    -- of the server's reply, under the key by the iterations of the reply to its first request, to a
    -- request that was signed with the auth key of that session over the challenge of that reply.
    pub login_with_email_sound :
        SeedsVerify c.platform c.nacl
        → (pg : Page E) → P pg
        → Ends c P (SoundLogin pg) (login_with_email c address passkey pg)
    unfolding login_with_email
    login_with_email_sound seeds pg h =
        let ask = record no_fields { email_address = some address } in
        >>=-ends c P (Ends c P (SoundLogin pg)) (λ e u k. k) (post_challenge c ask) _ pg
          (post_challenge-Quiet c P awaits ask) h
          (λ reply u e k.
            let app_key = email_key_of c passkey address reply.pbkdf2_iterations in
            let signature = sign_auth_challenge c.nacl c.platform app_key reply.challenge in
            post_session-Ends c P awaits (SoundLogin pg) (codes "login")
              (login_post c address signature reply.challenge)
              (email_session c app_key address reply.pbkdf2_iterations) u k
              (λ result. (
                reply,
                u,
                signature,
                post_challenge-eq_ok c ask reply pg u e,
                (refl, refl, refl, refl),
                refl,
                refl,
                sign_auth_challenge-verifies c.platform c.nacl seeds app_key reply.challenge,
              )))

    refuse_weak-Quiet : (o : Option String) → Quiet c P (Unit {0}) (refuse_weak o)
    refuse_weak-Quiet none = record { keeps = λ pg h. h }
    refuse_weak-Quiet (some message) = record { keeps = λ pg h. h }

    refuse_weak-eq_ok :
        (o : Option String) (x : Unit {0}) (pg u : Page E)
        → refuse_weak o pg ≡ (ok x, u)
        → (o ≡ none) × (pg ≡ u)
    refuse_weak-eq_ok none x pg u h = (refl, ground arith)
    refuse_weak-eq_ok (some message) x pg u h = absurd (ground arith)

    -- A registration that throws has not undone what was so of the page; one that returns opened the
    -- session of the server's reply to a request with the wallets of a bundle that was drawn from the
    -- page, which open under the key of the session, and with a proof for the first identity of the
    -- bundle: its key pair's signature over the challenge that was asked for it. The passkey is not too
    -- short.
    pub register_with_email_sound :
        Opens c.web_crypto
        → ((s : Text) → c.web_crypto.utf8_decode (c.web_crypto.utf8 s) ≡ s)
        → (pg : Page E) → P pg
        → Ends c P (SoundRegistration pg) (register_with_email c address passkey pg)
    unfolding register_with_email
    register_with_email_sound opens reads pg h =
        let iterations = some (pbkdf2_iterations c.config.security_level) in
        let app_key = email_key_of c passkey address iterations in
        let ends = Ends c P (SoundRegistration pg) in
        >>=-ends c P ends (λ e u k. k) (refuse_weak (check_passkey_length passkey)) _ pg
          (refuse_weak-Quiet (check_passkey_length passkey)) h
          (λ x pg1 long k1.
            >>=-ends c P ends (λ e u k. k) (new_bundle c app_key c.wallet_gen) _ pg1
              (new_bundle-Quiet c P awaits app_key c.wallet_gen) k1
              (λ bundle pg2 made k2.
                >>=-ends c P ends (λ e u k. k) (or_throw no_identity (identity_of bundle)) _ pg2
                  (or_throw-Quiet c P no_identity (identity_of bundle)) k2
                  (λ identity pg3 found k3.
                    >>=-ends c P ends (λ e u k. k) (prove_identity c identity app_key) _ pg3
                      (prove_identity-Quiet identity app_key) k3
                      (λ proof pg4 proved k4.
                        let (fits, here) =
                          refuse_weak-eq_ok (check_passkey_length passkey) x pg pg1 long in
                        let (drawn, left) =
                          new_bundle-eq_ok c app_key c.wallet_gen bundle pg1 pg2 made in
                        let stays =
                          or_throw-same no_identity (identity_of bundle) identity pg2 pg3 found in
                        let (asked, proof_of) =
                          prove_identity-eq_ok identity app_key proof pg3 pg4 proved in
                        post_session-Ends c P awaits (SoundRegistration pg) (codes "register")
                          (registration c app_key address iterations bundle identity proof)
                          (email_session c app_key address iterations) pg4 k4
                          (λ result. (
                            (refl, refl, refl, refl),
                            fits,
                            bundle,
                            identity,
                            proof,
                            asked,
                            subst
                                (λ v.
                                  generate_wallet_bundle c.web_crypto c.keys app_key c.wallet_gen
                                    (c.draw v).0.0 (c.draw v).0.1
                                  ≡ ok bundle)
                                (sym here) drawn,
                            or_throw-eq_ok no_identity (identity_of bundle) identity pg2 pg3 found,
                            subst (λ v. Proves v app_key identity proof asked)
                                (sym (ap (λ v. (c.draw v).1) here ∙ (left ∙ stays))) proof_of,
                            refl,
                            refl,
                            generated-IsOpened c.web_crypto c.keys app_key opens reads c.wallet_gen
                                _ _ bundle drawn,
                          ))))))
