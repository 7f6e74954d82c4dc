-- ===== src/Server/Routes/Login/Wallet.antt =====
-- What a successful `loginWallet` (server/routes.ts) went through.
use tetrac_login_sdk.Prelude.{
  Bool, true, false, not, ◌≡◌, refl, Option, none, some, codes, Result, ok, err, if◌then◌else◌,
  arith,
}
use tetrac_login_sdk.Core.Js.{Js}
use tetrac_login_sdk.Core.Types.{UserData}
use tetrac_login_sdk.Effect.{Act, World, pure, ◌>>=◌, >>=-eq_ok}
use tetrac_login_sdk.Server.Http.{Request, Response, error, read_json}
use tetrac_login_sdk.Server.Signature.{verify_solana_signature}
use tetrac_login_sdk.Server.Sessions.{consume_challenge}
use tetrac_login_sdk.Server.Routes.{Deployment, body_of, with_input}
use tetrac_login_sdk.Server.Routes.Login.{
  SignedInput, read_wallet_login, login_wallet, login_wallet_with, prove_key, refuse_attempt,
  sign_in,
}
use tetrac_login_sdk.Server.Routes.Login.Sound.{refuse_attempt-status}

module _ {S : Type 0} (d : Deployment S) where
  -- A proved key: its signature over the challenge verifies, and the challenge was consumed.
  abbrev pub Proved : SignedInput → World S → World S → Type 0
  Proved i w v =
      (verify_solana_signature d.platform i.name i.signature i.challenge d.config.origin ≡ true)
      × (consume_challenge d.platform d.store i.app_id i.name i.challenge w ≡ (ok true, v))

  pub prove_key-Proved :
      (i : SignedInput) (w : World S) {v : World S} → prove_key d i w ≡ (ok true, v) → Proved i w v
  unfolding prove_key
  prove_key-Proved i w h = ground arith

-- What lies behind a successful login by wallet: the request's input, the proof of its key, the
-- record of the key, and the new session.
pub record WalletEvidence (S : Type 0) (d : Deployment S) (req : Request) (w : World S)
    (r : Response) (v : World S) : Type 0 where
  pub input : SignedInput
  pub user : UserData
  pub consumed : World S
  pub read : World S
  pub well_formed : read_wallet_login d (body_of (read_json d.parser req)) ≡ ok input
  pub proved : Proved d input w consumed
  pub record_of_key : d.store.get_user input.app_id input.name consumed ≡ (ok (some user), read)
  pub session : sign_in d req user 200 read ≡ (ok r, v)

module _ {S : Type 0} (d : Deployment S) where
  read_wallet_login-refusal :
      (body : Js) {x : Response} → read_wallet_login d body ≡ err x → x.status ≡ 400
  unfolding read_wallet_login
  read_wallet_login-refusal body e = ground arith

  abbrev answer_found : Request → Option UserData → Act S Response
  answer_found req found = elim found [
    | none ↦ pure (error "Wallet not registered" 422)
    | some u ↦ sign_in d req u 200
  ]

  -- The end of the handler, for the record that was read.
  signed_in_as :
      (req : Request) (i : SignedInput) (w v1 v2 : World S) {r : Response} {v : World S}
      → read_wallet_login d (body_of (read_json d.parser req)) ≡ ok i
      → Proved d i w v1
      → (found : Option UserData) → d.store.get_user i.app_id i.name v1 ≡ (ok found, v2)
      → answer_found req found v2 ≡ (ok r, v)
      → r.status ≡ 200
      → WalletEvidence S d req w r v
  signed_in_as req i w v1 v2 e proof none asked h s = absurd (ground arith)
  signed_in_as req i w v1 v2 e proof (some u) asked h s = record {
    input = i;
    user = u;
    consumed = v1;
    read = v2;
    well_formed = e;
    proved = proof;
    record_of_key = asked;
    session = h;
  }

  login_wallet_with_sound :
      (req : Request) (i : SignedInput) (w : World S) {r : Response} {v : World S}
      → read_wallet_login d (body_of (read_json d.parser req)) ≡ ok i
      → login_wallet_with d req i w ≡ (ok r, v)
      → r.status ≡ 200
      → WalletEvidence S d req w r v
  unfolding login_wallet_with
  login_wallet_with_sound req i w {r} {v} e h s =
      let (proved, v1, proof, rest) = >>=-eq_ok (prove_key d i) _ w h in split proved v1 proof rest
    where
      split :
          (proved : Bool) (v1 : World S)
          → prove_key d i w ≡ (ok proved, v1)
          → (if not proved
                then refuse_attempt d req (codes "login") i.app_id i.name
                else d.store.get_user i.app_id i.name >>= answer_found req)
              v1
            ≡ (ok r, v)
          → WalletEvidence S d req w r v
      split false v1 proof rest =
          absurd
            (omega (arith, refuse_attempt-status d req (codes "login") i.app_id i.name v1 rest))
      split true v1 proof rest =
          let (user, v2, asked, last) = >>=-eq_ok (d.store.get_user i.app_id i.name) _ v1 rest in
          signed_in_as req i w v1 v2 e (prove_key-Proved d i w proof) user asked last s

  -- A login by wallet answers 200 only for a registered key that signed the challenge of the
  -- request for this site, where the challenge was outstanding and is now spent.
  pub login_wallet_sound :
      (req : Request) (w : World S) {r : Response} {v : World S}
      → login_wallet d req w ≡ (ok r, v)
      → r.status ≡ 200
      → WalletEvidence S d req w r v
  login_wallet_sound req w {r} {v} h s =
      split (read_wallet_login d (body_of (read_json d.parser req))) refl (unfold login_wallet in h)
    where
      split :
          (input : Result Response SignedInput)
          → read_wallet_login d (body_of (read_json d.parser req)) ≡ input
          → with_input input (login_wallet_with d req) w ≡ (ok r, v)
          → WalletEvidence S d req w r v
      split (ok i) e h = login_wallet_with_sound req i w e h s
      split (err refusal) e h = absurd (ground (arith, read_wallet_login-refusal _ e))
