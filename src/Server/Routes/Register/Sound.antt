-- ===== src/Server/Routes/Register/Sound.antt =====
-- What a successful `register` (server/routes.ts) went through.
use tetrac_login_sdk.Prelude.{
  Bool-cases, inl, inr, Bool, true, false, not, ◌&&◌, ◌||◌, ◌≡◌, ◌≤◌, ◌<◌, refl, sym, subst, Option,
  none, some, String, Text, codes, is_some, Result, ok, err, if◌then◌else◌, arith,
}
use tetrac_login_sdk.Core.Js.{Js, str, prop, truthy, default_to}
use tetrac_login_sdk.Core.Types.{UserData}
use tetrac_login_sdk.Effect.{Act, World, Fault, pure, ◌>>=◌, >>=-eq_ok}
use tetrac_login_sdk.Storage.Kv.{lift}
use tetrac_login_sdk.Server.Http.{Request, Response, error, read_json}
use tetrac_login_sdk.Server.Signature.{verify_solana_signature}
use tetrac_login_sdk.Server.Sessions.{consume_challenge}
use tetrac_login_sdk.Server.Routes.{
  Deployment, body_of, with_input, answer_or, app_id_of, bucket, bucket_id, rate_limited,
  account_creation_limited,
}
use tetrac_login_sdk.Server.Validate.{
  validate_app_id, validate_public_key, validate_email, validate_auth_public_key,
}
use tetrac_login_sdk.Server.Routes.Refusals.{
  IsClientError, refuse_or-IsClientError, if-IsClientError, with_wallets-IsClientError,
}
use tetrac_login_sdk.Server.Routes.Login.{sign_in}
use tetrac_login_sdk.Server.Routes.Login.Sound.{rate_limited-status}
use tetrac_login_sdk.Server.Routes.ConnectWallet.Sound.{account_creation_limited-status}
use tetrac_login_sdk.Server.Routes.Register.{
  RegisterInput, read_register, register, register_with, register_proved, refuse_register,
  prove_register, create_account, settle, new_user, challenge_text, holder_of, account_exists,
  is_wallet_method,
}

module _ {S : Type 0} (d : Deployment S) where
  refuse_register-status :
      (req : Request) (i : RegisterInput) (identifier : Text) (m : String) (w : World S)
      {r : Response} {v : World S}
      → refuse_register d req i identifier m w ≡ (ok r, v)
      → 400 ≤ r.status
  unfolding refuse_register
  refuse_register-status req i identifier m w {r} {v} h =
      let (limited, u, asked, rest) =
        >>=-eq_ok (rate_limited d req (some (bucket (codes "register") (some i.app_id) identifier)))
          _ w h in
      refusal limited u asked rest
    where
      refusal :
          (limited : Option Response) (u : World S)
          → rate_limited d req (some (bucket (codes "register") (some i.app_id) identifier)) w
            ≡ (ok limited, u)
          → answer_or limited (pure (error m 401)) u ≡ (ok r, v)
          → 400 ≤ r.status
      refusal none u asked rest = ground arith
      refusal (some l) u asked rest = ground (arith, rate_limited-status d req _ w asked)

  -- The record was written within the cap on new accounts, and its session is the answer.
  pub Registered : Request → RegisterInput → World S → Response → World S → Type 0
  Registered req i w r v =
      (capped : World S) × (written : World S) × (account_creation_limited d req w
        ≡ (ok none, capped))
      × (d.store.put_user (new_user d i capped.now) capped ≡ (ok tt, written))
      × (sign_in d req (new_user d i capped.now) 201 written ≡ (ok r, v))

  create_account-ok :
      (req : Request) (u : UserData) (w : World S) {r : Response} {v : World S}
      → create_account d req u 201 w ≡ (ok r, v)
      → r.status < 300
      → (written : World S) × (d.store.put_user u w ≡ (ok tt, written))
        × (sign_in d req u 201 written ≡ (ok r, v))
  unfolding create_account
  create_account-ok req u w {r} {v} h s = split (d.store.put_user u w) refl h
    where
      split :
          (p : Result Fault Unit × World S)
          → d.store.put_user u w ≡ p
          → settle p.0 (sign_in d req u 201) p.1 ≡ (ok r, v)
          → (written : World S) × (d.store.put_user u w ≡ (ok tt, written))
            × (sign_in d req u 201 written ≡ (ok r, v))
      split (ok tt, u1) e h = (u1, e, h)
      split (err x, u1) e h = absurd (ground arith)

  register_proved-Registered :
      (req : Request) (i : RegisterInput) (w : World S) {r : Response} {v : World S}
      → register_proved d req i w ≡ (ok r, v)
      → r.status < 300
      → Registered req i w r v
  unfolding register_proved Registered
  register_proved-Registered req i w {r} {v} h s =
      let (capped, w1, asked, rest) = >>=-eq_ok (account_creation_limited d req) _ w h in
      split capped w1 asked rest
    where
      split :
          (capped : Option Response) (w1 : World S)
          → account_creation_limited d req w ≡ (ok capped, w1)
          → answer_or capped (λ u. create_account d req (new_user d i u.now) 201 u) w1 ≡ (ok r, v)
          → Registered req i w r v
      split none w1 asked h =
          let (w2, put, session) = create_account-ok req (new_user d i w1.now) w1 h s in
          (w1, w2, asked, put, session)
      split (some x) w1 asked h =
          absurd (ground (arith, account_creation_limited-status d req w asked))

  -- The key of the request signed the challenge, which was outstanding and is now spent.
  abbrev pub Possessed : RegisterInput → World S → World S → Type 0
  Possessed i w v =
      (verify_solana_signature d.platform i.key i.signature (challenge_text d i) d.config.origin
        ≡ true)
      × (consume_challenge d.platform d.store i.app_id i.key (challenge_text d i) w ≡ (ok true, v))

  prove_register-Possessed :
      (req : Request) (i : RegisterInput) (identifier : Text) (w : World S) {r : Response}
      {v : World S}
      → prove_register d req i identifier w ≡ (ok r, v)
      → r.status < 300
      → (consumed : World S) × Possessed i w consumed × Registered req i consumed r v
  unfolding prove_register
  prove_register-Possessed req i identifier w {r} {v} h s =
      elim (Bool-cases (not (truthy i.signature) || not (truthy i.challenge))) [
        | inl missing ↦ absurd (ground arith)
        | inr given ↦
            elim (Bool-cases (
              verify_solana_signature d.platform i.key i.signature (challenge_text d i)
                d.config.origin)) [
                  | inr forged ↦ absurd (
                      omega (
                        arith,
                        refuse_register-status req i identifier "Signature verification failed" w
                            {r = r} {v = v} (ground arith),
                      ))
                  | inl valid ↦ consumed_then valid (rw (given, valid) at h)
                ]
      ]
    where
      consumed_then :
          verify_solana_signature d.platform i.key i.signature (challenge_text d i) d.config.origin
            ≡ true
          → (consume_challenge d.platform d.store i.app_id i.key (challenge_text d i)
                >>= λ consumed.
                    if consumed
                    then register_proved d req i
                    else refuse_register d req i identifier "Invalid or expired challenge")
              w
            ≡ (ok r, v)
          → (consumed : World S) × Possessed i w consumed × Registered req i consumed r v
      consumed_then valid h =
          let (consumed, v1, taken, rest) =
            >>=-eq_ok (consume_challenge d.platform d.store i.app_id i.key (challenge_text d i)) _ w
              h in
          last consumed v1 taken rest
        where
          last :
              (consumed : Bool) (v1 : World S)
              → consume_challenge d.platform d.store i.app_id i.key (challenge_text d i) w
                ≡ (ok consumed, v1)
              → (if consumed
                    then register_proved d req i
                    else refuse_register d req i identifier "Invalid or expired challenge")
                  v1
                ≡ (ok r, v)
              → (consumed : World S) × Possessed i w consumed × Registered req i consumed r v
          last true v1 taken rest = (v1, (valid, taken), register_proved-Registered req i v1 rest s)
          last false v1 taken rest = absurd (
              omega (
                arith,
                refuse_register-status req i identifier "Invalid or expired challenge" v1 rest,
              ))

-- What lies behind a successful registration: the request's input, no record of its key, nobody
-- with its address, an auth key unless the method is a wallet, the proof of its key, and the new account with its session.
pub record RegisterEvidence (S : Type 0) (d : Deployment S) (req : Request) (w : World S)
    (r : Response) (v : World S) : Type 0 where
  pub input : RegisterInput
  pub searched : World S
  pub resolved : World S
  pub consumed : World S
  pub well_formed : read_register d (body_of (read_json d.parser req)) ≡ ok input
  pub no_record : d.store.get_user input.app_id input.key w ≡ (ok none, searched)
  pub no_holder : holder_of d input searched ≡ (ok none, resolved)
  pub has_auth_key :
      (not (is_wallet_method input.auth_method) && not (truthy input.auth_public_key)) ≡ false
  pub proved : Possessed d input resolved consumed
  pub registered : Registered d req input consumed r v

module _ {S : Type 0} (d : Deployment S) where
  read_register-IsClientError : (body : Js) → IsClientError (read_register d body)
  unfolding read_register
  read_register-IsClientError body =
      if-IsClientError (not (truthy (prop "publicKey" body))) "publicKey required" _ (
        refuse_or-IsClientError (validate_app_id (app_id_of d (prop "appId" body)) d.config) _ (
          refuse_or-IsClientError (validate_public_key d.platform (prop "publicKey" body)) _ (
            refuse_or-IsClientError
              (if truthy (prop "email" body) then validate_email (prop "email" body) else none) _
              (refuse_or-IsClientError
                (if truthy (prop "authPublicKey" body)
                  then validate_auth_public_key (prop "authPublicKey" body)
                  else none)
                _ (with_wallets-IsClientError (prop "wallets" body) _ (λ ws x h. ground arith))))))

  -- No answer that a check gives is a success.
  absent :
      {A : Type 0} (o : Option A) (rest : Act S Response) (w : World S) {r : Response} {v : World S}
      → (if is_some o then pure account_exists else rest) w ≡ (ok r, v)
      → r.status < 300
      → (o ≡ none) × (rest w ≡ (ok r, v))
  absent none rest w h s = (refl, h)
  absent (some a) rest w h s = absurd (ground arith)

  passed :
      (b : Bool) (m : String) (rest : Act S Response) (w : World S) {r : Response} {v : World S}
      → (if b then pure (error m 400) else rest) w ≡ (ok r, v)
      → r.status < 300
      → (b ≡ false) × (rest w ≡ (ok r, v))
  passed true m rest w h s = absurd (ground arith)
  passed false m rest w h s = (refl, h)

  register_with_sound :
      (req : Request) (i : RegisterInput) (w : World S) {r : Response} {v : World S}
      → read_register d (body_of (read_json d.parser req)) ≡ ok i
      → register_with d req i w ≡ (ok r, v)
      → r.status < 300
      → RegisterEvidence S d req w r v
  unfolding register_with
  register_with_sound req i w {r} {v} e h s =
      let (identifier, w0, named, h0) =
        >>=-eq_ok (lift (bucket_id d.platform (default_to i.email (str i.key)))) _ w h in
      let same : w ≡ w0 = ground arith in
      let (user, w1, asked, h1) = >>=-eq_ok (d.store.get_user i.app_id i.key) _ w0 h0 in
      let (no_user, h2) = absent user _ w1 h1 s in
      let (holder, w2, held, h3) = >>=-eq_ok (holder_of d i) _ w1 h2 in
      let (nobody, h4) = absent holder _ w2 h3 s in
      let (keyed, h5) =
        passed (not (is_wallet_method i.auth_method) && not (truthy i.auth_public_key))
          "authPublicKey required for email/biometric registration"
          (prove_register d req i identifier) w2 h4 s in
      let (w3, possessed, made) = prove_register-Possessed d req i identifier w2 h5 s in
      record {
        input = i;
        searched = w1;
        resolved = w2;
        consumed = w3;
        well_formed = e;
        no_record =
            subst (λ o. d.store.get_user i.app_id i.key w ≡ (ok o, w1)) no_user
              (subst (λ u. d.store.get_user i.app_id i.key u ≡ (ok user, w1)) (sym same) asked);
        no_holder = subst (λ o. holder_of d i w1 ≡ (ok o, w2)) nobody held;
        has_auth_key = keyed;
        proved = possessed;
        registered = made;
      }

  -- A registration succeeds only for a key without a record and an address without a holder, with a
  -- signature of that key over the challenge of the request for this site, where the challenge was
  -- outstanding and is now spent. The account is then written within the cap, before its session.
  pub register_sound :
      (req : Request) (w : World S) {r : Response} {v : World S}
      → register d req w ≡ (ok r, v)
      → r.status < 300
      → RegisterEvidence S d req w r v
  register_sound req w {r} {v} h s =
      split (read_register d (body_of (read_json d.parser req))) refl (unfold register in h)
    where
      split :
          (input : Result Response RegisterInput)
          → read_register d (body_of (read_json d.parser req)) ≡ input
          → with_input input (register_with d req) w ≡ (ok r, v)
          → RegisterEvidence S d req w r v
      split (ok i) e h = register_with_sound req i w e h s
      split (err x) e h =
          absurd
            (ground (arith, read_register-IsClientError (body_of (read_json d.parser req)) x e))
