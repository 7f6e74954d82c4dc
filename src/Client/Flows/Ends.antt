-- ===== src/Client/Flows/Ends.antt =====
-- What a flow of client/authClient.ts leaves of the page, for anything that may be said of a page and
-- that is not undone by what the flow waits for.
use tetrac_login_sdk.Prelude.{
  ℕ, ◌≡◌, refl, ◌∙◌, Bool, true, false, ◌&&◌, if◌then◌else◌, Option, none, some, List, Text, Result,
  ok, err, arith,
}
use tetrac_login_sdk.Core.Crypto.Secrets.{CipherError}
use tetrac_login_sdk.Client.Vault.{usable, SessionParams, set_session}
use tetrac_login_sdk.Client.Wallets.{Bundle, WalletGen, generate_wallet_bundle}
use tetrac_login_sdk.Client.Flows.{
  FlowError, not_signed, no_origin, ChallengeReply, Post, Reply, success, refused, lost, AuthResult,
  Page, Flow, Signer, Client, or_throw, sealed, continue, ◌>>=◌, settled, post_challenge,
  post_session, client_origin, sign_by, new_bundle, open_session, pure,
}

-- What a chain that returned went through.
pub >>=-eq_ok :
    {E A B : Type 0} (m : Flow E A) (f : A → Flow E B) (pg : Page E) {b : B} {v : Page E}
    → (m >>= f) pg ≡ (ok b, v)
    → (a : A) × (u : Page E) × (m pg ≡ (ok a, u)) × (f a u ≡ (ok b, v))
unfolding ◌>>=◌
>>=-eq_ok {E} {A} m f pg {b} {v} h = by_result (m pg).0 (m pg).1 refl h
  where
    by_result :
        (r : Result FlowError A) (u : Page E)
        → m pg ≡ (r, u)
        → continue r f u ≡ (ok b, v)
        → (a : A) × (u : Page E) × (m pg ≡ (ok a, u)) × (f a u ≡ (ok b, v))
    by_result (ok a) u e k = (a, u, e, k)
    by_result (err x) u e k = absurd (ground arith)

pub pure-eq_ok : {E A : Type 0} (a b : A) (pg u : Page E) → pure a pg ≡ (ok b, u) → a ≡ b
pure-eq_ok a b pg u h = ground arith

pub pure-same : {E A : Type 0} (a b : A) (pg u : Page E) → pure a pg ≡ (ok b, u) → pg ≡ u
pure-same a b pg u h = ground arith

pub or_throw-eq_ok :
    {E A : Type 0} (e : FlowError) (o : Option A) (a : A) (pg u : Page E)
    → or_throw e o pg ≡ (ok a, u)
    → o ≡ some a
or_throw-eq_ok e none a pg u h = absurd (ground arith)
or_throw-eq_ok e (some b) a pg u h = ground arith

-- What is there already leaves the page as it is.
pub or_throw-same :
    {E A : Type 0} (e : FlowError) (o : Option A) (a : A) (pg u : Page E)
    → or_throw e o pg ≡ (ok a, u)
    → pg ≡ u
or_throw-same e none a pg u h = absurd (ground arith)
or_throw-same e (some b) a pg u h = ground arith

pub sealed-eq_ok :
    {E A : Type 0} (r : Result CipherError A) (a : A) (pg u : Page E)
    → sealed r pg ≡ (ok a, u)
    → (r ≡ ok a) × (pg ≡ u)
sealed-eq_ok (ok b) a pg u h = (ground arith, ground arith)
sealed-eq_ok (err e) a pg u h = absurd (ground arith)

pub sign_by-eq_ok :
    {E : Type 0} (signer : Signer E) (message : List ℕ) (opts : Option (Option Text))
    (a : List ℕ × Option Text) (pg u : Page E)
    → sign_by signer message opts pg ≡ (ok a, u)
    → signer message opts pg ≡ (some a, u)
sign_by-eq_ok {E} signer message opts a pg u h =
    by_answer (signer message opts pg).0 (signer message opts pg).1 refl h
  where
    by_answer :
        (o : Option (List ℕ × Option Text)) (v : Page E)
        → signer message opts pg ≡ (o, v)
        → or_throw not_signed o v ≡ (ok a, u)
        → signer message opts pg ≡ (some a, u)
    by_answer none v e k = absurd (ground arith)
    by_answer (some b) v e k = let same : (some b, v) ≡ (some a, u) = ground arith in e ∙ same

module _ {E : Type 0} (c : Client E) where
  -- A request for a challenge that was made on a page, and what it left of the page.
  abbrev pub Asked : Post → Page E → ChallengeReply → Page E → Type 0
  Asked body pg reply after = c.request_challenge c.config.app_id body pg ≡ (success reply, after)

  pub post_challenge-eq_ok :
      (body : Post) (reply : ChallengeReply) (pg u : Page E)
      → post_challenge c body pg ≡ (ok reply, u)
      → Asked body pg reply u
  unfolding post_challenge
  post_challenge-eq_ok body reply pg u h =
      by_reply (c.request_challenge c.config.app_id body pg).0
        (c.request_challenge c.config.app_id body pg).1 refl h
    where
      by_reply :
          (r : Reply ChallengeReply) (v : Page E)
          → c.request_challenge c.config.app_id body pg ≡ (r, v)
          → settled c r v ≡ (ok reply, u)
          → Asked body pg reply u
      by_reply (success t) v e k =
          let same : (success t, v) ≡ (success reply, u) = ground arith in e ∙ same
      by_reply (refused status (some x)) v e k = absurd (ground arith)
      by_reply (refused status none) v e k = absurd (ground arith)
      by_reply lost v e k = absurd (ground arith)

  -- The origin is the one that the page has.
  pub client_origin-eq_ok :
      (origin : Text) (pg u : Page E)
      → client_origin c pg ≡ (ok origin, u)
      → (c.location_origin ≡ some origin) × (pg ≡ u)
  unfolding client_origin
  client_origin-eq_ok origin pg u h = by_window (pg.tab.has_window && usable c.location_origin) h
    where
      by_window :
          (b : Bool)
          → or_throw no_origin (if b then c.location_origin else none) pg ≡ (ok origin, u)
          → (c.location_origin ≡ some origin) × (pg ≡ u)
      by_window true k = (
        or_throw-eq_ok no_origin c.location_origin origin pg u k,
        or_throw-same no_origin c.location_origin origin pg u k,
      )
      by_window false k = absurd (ground arith)

  pub new_bundle-eq_ok :
      (app_key : Text) (gen : WalletGen) (b : Bundle) (pg u : Page E)
      → new_bundle c app_key gen pg ≡ (ok b, u)
      → (generate_wallet_bundle c.web_crypto c.keys app_key gen (c.draw pg).0.0 (c.draw pg).0.1
          ≡ ok b)
        × ((c.draw pg).1 ≡ u)
  unfolding new_bundle
  new_bundle-eq_ok app_key gen b pg u h =
      sealed-eq_ok
        (generate_wallet_bundle c.web_crypto c.keys app_key gen (c.draw pg).0.0 (c.draw pg).0.1) b
        (c.draw pg).1 u h

module _ {E : Type 0} (c : Client E) (P : Page E → Type 0) where
  -- What the client waits for keeps it.
  pub record AwaitsKeep : Type 0 where
    pub challenge_keeps :
        (app_id : Text) (body : Post) (pg : Page E)
        → P pg
        → P (c.request_challenge app_id body pg).1
    pub session_keeps :
        (path app_id : Text) (body : Post) (pg : Page E)
        → P pg
        → P (c.request_session path app_id body pg).1
    pub draw_keeps : (pg : Page E) → P pg → P (c.draw pg).1

  abbrev pub SignerKeeps : Signer E → Type 0
  SignerKeeps signer =
      (message : List ℕ) (opts : Option (Option Text)) (pg : Page E)
      → P pg
      → P (signer message opts pg).1

  -- A part of a flow that keeps it.
  pub record Quiet (A : Type 0) (m : Flow E A) : Type 0 where
    pub keeps : (pg : Page E) → P pg → P (m pg).1

  -- The end of a flow: a thrown error, before which it was kept, or a session that the reply to a
  -- request opened, with what is said of the path, the request, the reply and the session.
  abbrev pub Ends :
      (Text → Post → AuthResult → SessionParams → Type 0)
      → Result FlowError AuthResult × Page E
      → Type 0
  Ends R (err e, pg) = P pg
  Ends R (ok result, pg) =
      (path : Text) × (body : Post) × (s : SessionParams) × (before : Page E) × (after : Page E) × P
        before
      × (c.request_session path c.config.app_id body before ≡ (success result, after))
      × (pg ≡ record after { tab = set_session c.platform s after.tab })
      × R path body result s

  -- After a part that keeps it, the rest decides how a flow ends.
  pub >>=-ends :
      {A B : Type 0} (O : Result FlowError B × Page E → Type 0)
      → ((e : FlowError) (pg : Page E) → P pg → O (err e, pg))
      → (m : Flow E A) (f : A → Flow E B) (pg : Page E) → Quiet A m
      → P pg
      → ((a : A) (u : Page E) → m pg ≡ (ok a, u) → P u → O (f a u))
      → O ((m >>= f) pg)
  unfolding ◌>>=◌
  >>=-ends {A} {B} O thrown m f pg quiet h rest =
      by_result (m pg).0 (m pg).1 refl (quiet.keeps pg h)
    where
      by_result : (r : Result FlowError A) (u : Page E) → m pg ≡ (r, u) → P u → O (continue r f u)
      by_result (ok a) u e k = rest a u e k
      by_result (err x) u e k = thrown x u k

  pub >>=-Quiet :
      {A B : Type 0} (m : Flow E A) (f : A → Flow E B)
      → Quiet A m
      → ((a : A) → Quiet B (f a))
      → Quiet B (m >>= f)
  >>=-Quiet m f hm hf = record {
    keeps = λ pg h. >>=-ends (λ r. P r.1) (λ e u k. k) m f pg hm h (λ a u e k. (hf a).keeps u k);
  }

  pub pure-Quiet : {A : Type 0} (a : A) → Quiet A (pure a)
  pure-Quiet a = record { keeps = λ pg h. h }

  pub or_throw-Quiet : {A : Type 0} (e : FlowError) (o : Option A) → Quiet A (or_throw e o)
  or_throw-Quiet e none = record { keeps = λ pg h. h }
  or_throw-Quiet e (some a) = record { keeps = λ pg h. h }

  pub sealed-Quiet : {A : Type 0} (r : Result CipherError A) → Quiet A (sealed r)
  sealed-Quiet (ok a) = record { keeps = λ pg h. h }
  sealed-Quiet (err e) = record { keeps = λ pg h. h }

  settled-Quiet : {T : Type 0} (r : Reply T) → Quiet T (settled c r)
  settled-Quiet (success t) = record { keeps = λ pg h. h }
  settled-Quiet (refused status (some e)) = record { keeps = λ pg h. h }
  settled-Quiet (refused status none) = record { keeps = λ pg h. h }
  settled-Quiet lost = record { keeps = λ pg h. h }

  pub sign_by-Quiet :
      (signer : Signer E)
      → SignerKeeps signer
      → (message : List ℕ) (opts : Option (Option Text))
      → Quiet (List ℕ × Option Text) (sign_by signer message opts)
  sign_by-Quiet signer kept message opts = record {
    keeps = λ pg h.
        let r = signer message opts pg in
        (or_throw-Quiet not_signed r.0).keeps r.1 (kept message opts pg h);
  }

  pub client_origin-Quiet : Quiet Text (client_origin c)
  unfolding client_origin
  client_origin-Quiet = record { keeps = λ pg h. (or_throw-Quiet no_origin _).keeps pg h }

  module _ (awaits : AwaitsKeep) where
    pub post_challenge-Quiet : (body : Post) → Quiet ChallengeReply (post_challenge c body)
    unfolding post_challenge
    post_challenge-Quiet body = record {
      keeps = λ pg h.
          let r = c.request_challenge c.config.app_id body pg in
          (settled-Quiet r.0).keeps r.1 (awaits.challenge_keeps c.config.app_id body pg h);
    }

    pub new_bundle-Quiet :
        (app_key : Text) (gen : WalletGen) → Quiet Bundle (new_bundle c app_key gen)
    unfolding new_bundle
    new_bundle-Quiet app_key gen = record {
      keeps = λ pg h. (sealed-Quiet _).keeps (c.draw pg).1 (awaits.draw_keeps pg h);
    }

    -- A request whose reply opens a session, which the flow then answers.
    pub post_session-Ends :
        (R : Text → Post → AuthResult → SessionParams → Type 0) (path : Text) (body : Post)
        (session : AuthResult → SessionParams) (pg : Page E)
        → P pg
        → ((result : AuthResult) → R path body result (session result))
        → Ends R (
            (post_session c path body >>= λ result.
            open_session c (session result) >>= λ _. pure result)
              pg)
    unfolding post_session open_session ◌>>=◌
    post_session-Ends R path body session pg h related =
        by_reply (c.request_session path c.config.app_id body pg).0
          (c.request_session path c.config.app_id body pg).1 refl
          (awaits.session_keeps path c.config.app_id body pg h)
      where
        by_reply :
            (reply : Reply AuthResult) (u : Page E)
            → c.request_session path c.config.app_id body pg ≡ (reply, u)
            → P u
            → Ends R (
                continue
                  (settled c reply u).0
                  (λ result. open_session c (session result) >>= λ _. pure result)
                  (settled c reply u).1)
        by_reply (success result) u e k =
            (path, body, session result, pg, u, h, e, refl, related result)
        by_reply (refused status (some x)) u e k = k
        by_reply (refused status none) u e k = k
        by_reply lost u e k = k
