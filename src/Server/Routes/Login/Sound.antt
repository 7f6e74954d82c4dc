-- ===== src/Server/Routes/Login/Sound.antt =====
-- What a successful `login` (server/routes.ts) went through.
use tetrac_login_sdk.Prelude.{
  Bool, true, false, ◌≡◌, ◌≤◌, refl, subst, &&_split, Option, none, some, Text, codes, Result, ok,
  err, arith,
}
use tetrac_login_sdk.Core.Js.{Js, str, truthy}
use tetrac_login_sdk.Core.Types.{UserData}
use tetrac_login_sdk.Effect.{World, pure, ◌>>=◌, >>=-eq_ok}
use tetrac_login_sdk.Storage.Adapter.{RateLimitBucket}
use tetrac_login_sdk.Storage.Kv.{lift}
use tetrac_login_sdk.Server.Http.{Request, Response, error, read_json}
use tetrac_login_sdk.Server.Signature.{verify_auth_signature}
use tetrac_login_sdk.Server.Sessions.{consume_challenge}
use tetrac_login_sdk.Server.Routes.{
  Deployment, rate_limited, body_of, text_of, rate_limit_exceeded, bucket_id, bucket, answer_or,
  with_input,
}
use tetrac_login_sdk.Server.Routes.Login.{
  SignedInput, read_login, login, login_with, finish_login, refuse_attempt, auth_signature_valid,
  consume_if, find_user, sign_in,
}

module _ {S : Type 0} (d : Deployment S) where
  -- The rate limiter answers 429 or lets pass.
  pub rate_limited-status :
      (req : Request) (b : Option RateLimitBucket) (w : World S) {r : Response} {v : World S}
      → rate_limited d req b w ≡ (ok (some r), v)
      → r ≡ rate_limit_exceeded
  unfolding rate_limited
  rate_limited-status req none w h = ground arith
  rate_limited-status req (some b) w h = ground arith

  pub refuse_attempt-status :
      (req : Request) (endpoint app_id identifier : Text) (w : World S) {r : Response} {v : World S}
      → refuse_attempt d req endpoint app_id identifier w ≡ (ok r, v)
      → 400 ≤ r.status
  unfolding refuse_attempt
  refuse_attempt-status req endpoint app_id identifier w {r} {v} h =
      let (limited, u, asked, rest) =
        >>=-eq_ok (rate_limited d req (some (bucket endpoint (some app_id) identifier)))
          (λ limited. answer_or limited (pure (error "Invalid credentials" 401))) w h in
      refusal limited u asked rest
    where
      refusal :
          (limited : Option Response) (u : World S)
          → rate_limited d req (some (bucket endpoint (some app_id) identifier)) w ≡ (ok limited, u)
          → answer_or limited (pure (error "Invalid credentials" 401)) u ≡ (ok r, v)
          → 400 ≤ r.status
      refusal none u asked rest = ground arith
      refusal (some l) u asked rest = ground (arith, rate_limited-status req _ w asked)

  failed :
      (req : Request) (i : SignedInput) (w : World S) {r : Response} {v : World S}
      → (lift (bucket_id d.platform (str i.name)) >>= λ identifier.
            refuse_attempt d req (codes "login") i.app_id identifier)
          w
        ≡ (ok r, v)
      → 400 ≤ r.status
  failed req i w {r} {v} h =
      let (identifier, u, named, rest) =
        >>=-eq_ok (lift (bucket_id d.platform (str i.name)))
          (λ identifier. refuse_attempt d req (codes "login") i.app_id identifier) w h in
      refuse_attempt-status req (codes "login") i.app_id identifier u rest

  sign_in_of :
      (req : Request) (i : SignedInput) (user : Option UserData) (consumed : Bool) (w : World S)
      {r : Response} {v : World S}
      → finish_login d req i user consumed w ≡ (ok r, v)
      → r.status ≡ 200
      → (u : UserData) × (user ≡ some u) × (consumed ≡ true) × (sign_in d req u 200 w ≡ (ok r, v))
  unfolding finish_login
  sign_in_of req i (some u) true w h s = (u, refl, refl, h)
  sign_in_of req i none true w h s = absurd (omega (arith, failed req i w h))
  sign_in_of req i (some u) false w h s = absurd (omega (arith, failed req i w h))
  sign_in_of req i none false w h s = absurd (omega (arith, failed req i w h))

  consumed_with :
      (valid : Bool) (app_id : Text) (key : Option Text) (challenge : Text) (w : World S)
      {v : World S}
      → consume_if d valid app_id key challenge w ≡ (ok true, v)
      → (k : Text) × (key ≡ some k)
        × (valid ≡ true)
        × (consume_challenge d.platform d.store app_id k challenge w ≡ (ok true, v))
  unfolding consume_if
  consumed_with false app_id key challenge w h = absurd (ground arith)
  consumed_with true app_id none challenge w h = absurd (ground arith)
  consumed_with true app_id (some k) challenge w h = (k, refl, refl, h)

-- What lies behind a successful login: the request's input, the key that the address leads to, its
-- record, a signature by the record's auth key, the consumed challenge, and the new session.
pub record LoginEvidence (S : Type 0) (d : Deployment S) (req : Request) (w : World S)
    (r : Response) (v : World S) : Type 0 where
  pub input : SignedInput
  pub key : Text
  pub user : UserData
  pub resolved : World S
  pub read : World S
  pub consumed : World S
  pub well_formed : read_login d (body_of (read_json d.parser req)) ≡ ok input
  pub key_of_address :
      d.store.get_public_key_by_email input.app_id input.name w ≡ (ok (some key), resolved)
  pub record_of_key : d.store.get_user input.app_id key resolved ≡ (ok (some user), read)
  pub has_auth_key : truthy user.auth_public_key ≡ true
  pub signed :
      verify_auth_signature d.platform
        (text_of user.auth_public_key)
        input.signature
        input.challenge
      ≡ true
  pub spent :
      consume_challenge d.platform d.store input.app_id key input.challenge read
      ≡ (ok true, consumed)
  pub session : sign_in d req user 200 consumed ≡ (ok r, v)

module _ {S : Type 0} (d : Deployment S) where
  evidence :
      (req : Request) (i : SignedInput) (w w1 w2 w3 : World S) {r : Response} {v : World S}
      → read_login d (body_of (read_json d.parser req)) ≡ ok i
      → (k : Text) (u : UserData)
      → d.store.get_public_key_by_email i.app_id i.name w ≡ (ok (some k), w1)
      → d.store.get_user i.app_id k w1 ≡ (ok (some u), w2)
      → auth_signature_valid d (some u) i.signature i.challenge ≡ true
      → consume_challenge d.platform d.store i.app_id k i.challenge w2 ≡ (ok true, w3)
      → sign_in d req u 200 w3 ≡ (ok r, v)
      → LoginEvidence S d req w r v
  unfolding auth_signature_valid
  evidence req i w w1 w2 w3 e k u asked read valid taken session = record {
    input = i;
    key = k;
    user = u;
    resolved = w1;
    read = w2;
    consumed = w3;
    well_formed = e;
    key_of_address = asked;
    record_of_key = read;
    has_auth_key = (&&_split _ _ valid).0;
    signed = (&&_split _ _ valid).1;
    spent = taken;
    session = session;
  }

  -- Input that is refused is answered 400.
  read_login-refusal : (body : Js) {x : Response} → read_login d body ≡ err x → x.status ≡ 400
  unfolding read_login
  read_login-refusal body e = ground arith

  login_with_sound :
      (req : Request) (i : SignedInput) (w : World S) {r : Response} {v : World S}
      → read_login d (body_of (read_json d.parser req)) ≡ ok i
      → login_with d req i w ≡ (ok r, v)
      → r.status ≡ 200
      → LoginEvidence S d req w r v
  unfolding login_with
  login_with_sound req i w {r} {v} e h s =
      let (key, w1, asked, h1) =
        >>=-eq_ok (d.store.get_public_key_by_email i.app_id i.name) _ w h in
      let (user, w2, read, h2) = >>=-eq_ok (find_user d i.app_id key) _ w1 h1 in
      let (consumed, w3, spent, h3) =
        >>=-eq_ok
          (consume_if d (auth_signature_valid d user i.signature i.challenge) i.app_id key
            i.challenge)
          _ w2 h2 in
      let (u, is_user, is_consumed, session) = sign_in_of d req i user consumed w3 h3 s in
      let (k, is_key, valid, taken) =
        consumed_with d (auth_signature_valid d user i.signature i.challenge) i.app_id key
          i.challenge w2 (rw (← is_consumed) spent) in
      evidence req i w w1 w2 w3 e k u (rw (← is_key) asked)
        (subst (λ o. d.store.get_user i.app_id k w1 ≡ (ok o, w2)) is_user
          (subst (λ o. find_user d i.app_id o w1 ≡ (ok user, w2)) is_key read))
        (subst (λ o. auth_signature_valid d o i.signature i.challenge ≡ true) is_user valid) taken
        session

  -- A login answers 200 only for a signature by the auth key of the address's record over a
  -- challenge that was outstanding and is now spent.
  pub login_sound :
      (req : Request) (w : World S) {r : Response} {v : World S}
      → login d req w ≡ (ok r, v)
      → r.status ≡ 200
      → LoginEvidence S d req w r v
  login_sound req w {r} {v} h s =
      split (read_login d (body_of (read_json d.parser req))) refl (unfold login in h)
    where
      split :
          (input : Result Response SignedInput)
          → read_login d (body_of (read_json d.parser req)) ≡ input
          → with_input input (login_with d req) w ≡ (ok r, v)
          → LoginEvidence S d req w r v
      split (ok i) e h = login_with_sound req i w e h s
      split (err refusal) e h = absurd (ground (arith, read_login-refusal _ e))
