-- ===== src/Server/Routes/ConnectWallet/Sound.antt =====
-- What a successful `connectWallet` (server/routes.ts) went through.
use tetrac_login_sdk.Prelude.{
  ℕ, Bool, true, false, not, ◌&&◌, ◌≡◌, ◌≤◌, ◌<◌, refl, Option, none, some, ◌∷◌, codes, Result, ok,
  err, if◌then◌else◌, arith,
}
use tetrac_login_sdk.Core.Js.{Js, prop}
use tetrac_login_sdk.Core.Types.{UserData}
use tetrac_login_sdk.Effect.{Act, World, ◌>>=◌, ◌>>◌, >>=-eq_ok, >>-eq_ok}
use tetrac_login_sdk.Server.Http.{Request, Response, read_json}
use tetrac_login_sdk.Server.Routes.{
  Deployment, body_of, with_input, answer_or, app_id_of, account_creation_limited,
}
use tetrac_login_sdk.Server.Validate.{validate_app_id, validate_public_key, valid_envelope}
use tetrac_login_sdk.Server.Routes.Register.{optional}
use tetrac_login_sdk.Server.Routes.Refusals.{
  IsClientError, refuse_or-IsClientError, if-IsClientError, with_wallets-IsClientError,
}
use tetrac_login_sdk.Server.Routes.Login.{prove_key, refuse_attempt, sign_in}
use tetrac_login_sdk.Server.Routes.Login.Sound.{refuse_attempt-status}
use tetrac_login_sdk.Server.Routes.Login.Wallet.{Proved, prove_key-Proved}
use tetrac_login_sdk.Server.Routes.ConnectWallet.{
  ConnectInput, read_connect, connect_wallet, connect_with, connect_new, connect_known,
  new_wallet_user, is_wallet_user, has_none, put_slots,
}

module _ {S : Type 0} (d : Deployment S) where
  pub account_creation_limited-status :
      (req : Request) (w : World S) {r : Response} {v : World S}
      → account_creation_limited d req w ≡ (ok (some r), v)
      → 400 ≤ r.status
  unfolding account_creation_limited
  account_creation_limited-status req w h = ground arith

  pub sign_in-status :
      (req : Request) (u : UserData) (n : ℕ) (w : World S) {r : Response} {v : World S}
      → sign_in d req u n w ≡ (ok r, v)
      → r.status ≡ n
  unfolding sign_in
  sign_in-status req u n w h = ground arith

  -- A new account: the cap let it pass, the record of the proved key was written, and its session
  -- is the answer.
  pub Created : Request → ConnectInput → World S → Response → World S → Type 0
  Created req i w r v =
      (capped : World S) × (written : World S) × (account_creation_limited d req w
        ≡ (ok none, capped))
      × (d.store.put_user (new_wallet_user d i capped.now) capped ≡ (ok tt, written))
      × (sign_in d req (new_wallet_user d i capped.now) 201 written ≡ (ok r, v))

  -- A known account: it is one of a wallet, and where it has wallets nothing but the session is
  -- written.
  pub Known : Request → UserData → World S → Response → World S → Type 0
  Known req u w r v =
      (is_wallet_user u ≡ true)
      × (r.status ≡ 200)
      × ((w1 : _) (ws : _) → u.wallets ≡ w1 ∷ ws → sign_in d req u 200 w ≡ (ok r, v))

  abbrev pub Outcome :
      Request → ConnectInput → Option UserData → World S → Response → World S → Type 0
  Outcome req i none = Created req i
  Outcome req i (some u) = Known req u

  connect_new-Created :
      (req : Request) (i : ConnectInput) (w : World S) {r : Response} {v : World S}
      → connect_new d req i w ≡ (ok r, v)
      → r.status < 300
      → Created req i w r v
  unfolding connect_new Created
  connect_new-Created req i w {r} {v} h s =
      let (capped, w1, asked, rest) = >>=-eq_ok (account_creation_limited d req) _ w h in
      split capped w1 asked rest
    where
      create : Act S Response
      create w =
          (d.store.put_user (new_wallet_user d i w.now)
              >> sign_in d req (new_wallet_user d i w.now) 201)
            w

      split :
          (capped : Option Response) (w1 : World S)
          → account_creation_limited d req w ≡ (ok capped, w1)
          → answer_or capped create w1 ≡ (ok r, v)
          → Created req i w r v
      split none w1 asked h =
          let (a, w2, put, session) =
            >>-eq_ok (d.store.put_user (new_wallet_user d i w1.now))
              (sign_in d req (new_wallet_user d i w1.now) 201) w1 h in
          (w1, w2, asked, put, session)
      split (some x) w1 asked h =
          absurd (ground (arith, account_creation_limited-status req w asked))

  connect_known-Known :
      (req : Request) (i : ConnectInput) (u : UserData) (w : World S) {r : Response} {v : World S}
      → connect_known d req i u w ≡ (ok r, v)
      → r.status < 300
      → Known req u w r v
  unfolding connect_known Known
  connect_known-Known req i u w {r} {v} h s = (
    ground arith,
    split (has_none u.wallets && not (has_none i.wallets)) (ground arith),
    λ w1 ws e. ground arith,
  )
    where
      split :
          (fill : Bool)
          → (if fill
                then (put_slots d u.app_id u.public_key i.wallets
                    >> sign_in d req (record u { wallets = i.wallets }) 200)
                else sign_in d req u 200)
              w
            ≡ (ok r, v)
          → r.status ≡ 200
      split true h =
          let (a, u1, put, session) =
            >>-eq_ok (put_slots d u.app_id u.public_key i.wallets)
              (sign_in d req (record u { wallets = i.wallets }) 200) w h in
          sign_in-status req (record u { wallets = i.wallets }) 200 u1 session
      split false h = sign_in-status req u 200 w h

-- What lies behind a successful connection: the request's input, the proof of its key, and a new
-- account or a known one of that key.
pub record ConnectEvidence (S : Type 0) (d : Deployment S) (req : Request) (w : World S)
    (r : Response) (v : World S) : Type 0 where
  pub input : ConnectInput
  pub found : Option UserData
  pub consumed : World S
  pub read : World S
  pub well_formed : read_connect d (body_of (read_json d.parser req)) ≡ ok input
  pub proved : Proved d input.signed w consumed
  pub record_of_key :
      d.store.get_user input.signed.app_id input.signed.name consumed ≡ (ok found, read)
  pub outcome : Outcome d req input found read r v

module _ {S : Type 0} (d : Deployment S) where
  read_connect-IsClientError : (body : Js) → IsClientError (read_connect d body)
  unfolding read_connect
  read_connect-IsClientError body = if-IsClientError _ _ _ (
      refuse_or-IsClientError (validate_app_id (app_id_of d (prop "appId" body)) d.config) _ (
        refuse_or-IsClientError (validate_public_key d.platform (prop "publicKey" body)) _ (
          refuse_or-IsClientError
            (optional "Invalid offchainEnvelope" (prop "offchainEnvelope" body)
              (valid_envelope (prop "offchainEnvelope" body)))
            _
            (with_wallets-IsClientError (prop "wallets" body) _
              (λ ws x h. absurd (ground arith))))))

  connect_with_sound :
      (req : Request) (i : ConnectInput) (w : World S) {r : Response} {v : World S}
      → read_connect d (body_of (read_json d.parser req)) ≡ ok i
      → connect_with d req i w ≡ (ok r, v)
      → r.status < 300
      → ConnectEvidence S d req w r v
  unfolding connect_with
  connect_with_sound req i w {r} {v} e h s =
      let (proved, v1, proof, rest) = >>=-eq_ok (prove_key d i.signed) _ w h in
      split proved v1 proof rest
    where
      connected : Option UserData → Act S Response
      connected none = connect_new d req i
      connected (some u) = connect_known d req i u

      outcome_of :
          (found : Option UserData) (v2 : World S)
          → connected found v2 ≡ (ok r, v)
          → Outcome d req i found v2 r v
      outcome_of none v2 h = connect_new-Created d req i v2 h s
      outcome_of (some u) v2 h = connect_known-Known d req i u v2 h s

      split :
          (proved : Bool) (v1 : World S)
          → prove_key d i.signed w ≡ (ok proved, v1)
          → (if not proved
                then refuse_attempt d req (codes "connect") i.signed.app_id i.signed.name
                else d.store.get_user i.signed.app_id i.signed.name >>= λ user. elim user [
                  | none ↦ connect_new d req i
                  | some u ↦ connect_known d req i u
                ])
              v1
            ≡ (ok r, v)
          → ConnectEvidence S d req w r v
      split false v1 proof rest = absurd (
          omega (
            arith,
            refuse_attempt-status d req (codes "connect") i.signed.app_id i.signed.name v1 rest,
          ))
      split true v1 proof rest =
          let (user, v2, asked, last) =
            >>=-eq_ok (d.store.get_user i.signed.app_id i.signed.name) _ v1 rest in
          record {
            input = i;
            found = user;
            consumed = v1;
            read = v2;
            well_formed = e;
            proved = prove_key-Proved d i.signed w proof;
            record_of_key = asked;
            outcome = outcome_of user v2 last;
          }

  -- A connection succeeds only with a key that signed the challenge of the request for this site,
  -- where the challenge was outstanding and is now spent. A key without a record then gets a new
  -- account within the cap, written before its session; a key with one must be of a wallet account,
  -- and where that has wallets only the session is written.
  pub connect_wallet_sound :
      (req : Request) (w : World S) {r : Response} {v : World S}
      → connect_wallet d req w ≡ (ok r, v)
      → r.status < 300
      → ConnectEvidence S d req w r v
  connect_wallet_sound req w {r} {v} h s =
      split (read_connect d (body_of (read_json d.parser req))) refl (unfold connect_wallet in h)
    where
      split :
          (input : Result Response ConnectInput)
          → read_connect d (body_of (read_json d.parser req)) ≡ input
          → with_input input (connect_with d req) w ≡ (ok r, v)
          → ConnectEvidence S d req w r v
      split (ok i) e h = connect_with_sound req i w e h s
      split (err x) e h =
          absurd (ground (arith, read_connect-IsClientError (body_of (read_json d.parser req)) x e))
