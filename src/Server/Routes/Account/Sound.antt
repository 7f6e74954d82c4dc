-- ===== src/Server/Routes/Account/Sound.antt =====
-- What the `userData` handler (server/routes.ts) answers, and to whom.
use tetrac_login_sdk.Prelude.{◌≡◌, refl, subst, Option, none, some, Text, ok, arith}
use tetrac_login_sdk.Core.Js.{undefined}
use tetrac_login_sdk.Core.Types.{UserData}
use tetrac_login_sdk.Effect.{Act, World, pure, >>=-eq_ok}
use tetrac_login_sdk.Server.Http.{Request, Response, json, user_record}
use tetrac_login_sdk.Server.Sessions.{verify_session}
use tetrac_login_sdk.Server.Sessions.Sound.{SessionEvidence, verify_session_sound}
use tetrac_login_sdk.Server.Routes.{Deployment, public_user, header_app_id, request_fingerprint}
use tetrac_login_sdk.Server.Routes.Account.{authenticate, user_data, unauthorized}

module _ {S : Type 0} (d : Deployment S) where
  -- The evidence for the session that the headers of a request name.
  pub Authenticated : Request → Text → World S → UserData → World S → Type 0
  Authenticated req app_id w u v =
      SessionEvidence S d.platform d.store app_id (req.header "ttc-auth-token")
        (req.header "ttc-public-key") (request_fingerprint d req) w u v

  pub authenticate-Authenticated :
      (req : Request) (w : World S) {u : UserData} {v : World S}
      → authenticate d req w ≡ (ok (some u), v)
      → (app_id : Text) × (header_app_id d req ≡ some app_id) × Authenticated req app_id w u v
  unfolding authenticate Authenticated
  authenticate-Authenticated req w {u} {v} h = split (header_app_id d req) refl h
    where
      split :
          (app : Option Text)
          → header_app_id d req ≡ app
          → (elim app as (λ _. Act S (Option UserData)) [
            | none ↦ pure none
            | some app_id ↦
                verify_session d.platform d.store app_id
                  (req.header "ttc-auth-token")
                  (req.header "ttc-public-key")
                  (request_fingerprint d req)
          ])
              w
            ≡ (ok (some u), v)
          → (app_id : Text) × (header_app_id d req ≡ some app_id) × Authenticated req app_id w u v
      split none e h = absurd (ground arith)
      split (some app_id) e h =
          (app_id, e, verify_session_sound d.platform d.store app_id _ _ _ w h)

  -- The record of a user is answered only to the holder of its session, and never with the hash of
  -- the session's token or a raw token of an older version.
  pub user_data_sound :
      (req : Request) (w : World S) {r : Response} {v : World S}
      → user_data d req w ≡ (ok r, v)
      → r.status ≡ 200
      → (u : UserData) × (app_id : Text) × (header_app_id d req ≡ some app_id)
        × Authenticated req app_id w u v
        × (r ≡ json (user_record (record u { auth_token_hash = none; auth_token = undefined })) 200)
  unfolding user_data public_user
  user_data_sound req w {r} {v} h s =
      let (found, w1, asked, rest) = >>=-eq_ok (authenticate d req) _ w h in
      split found w1 asked rest
    where
      answer : Option UserData → Response
      answer none = unauthorized
      answer (some u) = json (user_record (public_user u)) 200

      split :
          (found : Option UserData) (w1 : World S)
          → authenticate d req w ≡ (ok found, w1)
          → pure
              (elim found [ none ↦ unauthorized | some u ↦ json (user_record (public_user u)) 200 ])
              w1
            ≡ (ok r, v)
          → (u : UserData) × (app_id : Text) × (header_app_id d req ≡ some app_id)
            × Authenticated req app_id w u v
            × (r
                ≡ json
                    (user_record (record u { auth_token_hash = none; auth_token = undefined }))
                    200)
      split none w1 asked h = absurd (ground arith)
      split (some u) w1 asked h =
          let same : w1 ≡ v = ground arith in
          let (app_id, e, evidence) =
            authenticate-Authenticated req w
              (subst (λ x. authenticate d req w ≡ (ok (some u), x)) same asked) in
          (u, app_id, e, evidence, ground arith)
