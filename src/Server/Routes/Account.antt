-- ===== src/Server/Routes/Account.antt =====
-- The `logout`, `userData`, `searchWallet` and `importWallet` handlers of server/routes.ts.
pub mod Sound
use tetrac_login_sdk.Prelude.{
  not, Option, none, some, List, [], Text, codes, is_some, if◌then◌else◌, Result, ok, err,
}
use tetrac_login_sdk.Core.Js.{Js, str, prop, length_prop, truthy}
use tetrac_login_sdk.Core.Types.{UserData, EncryptedWallet}
use tetrac_login_sdk.Effect.{Act, pure, ◌>>=◌, ◌>>◌}
use tetrac_login_sdk.Server.Http.{
  Request, Response, json, error, user_record, found, done, read_json,
}
use tetrac_login_sdk.Server.Sessions.{verify_session, revoke_session}
use tetrac_login_sdk.Server.Validate.{validate_app_id, validate_public_key}
use tetrac_login_sdk.Server.Validate.Wallets.{read_wallets}
use tetrac_login_sdk.Server.Routes.{
  Deployment, bucket, answer_or, with_input, refuse_or, is_present, rate_limited, body_of,
  public_user, request_fingerprint, header_app_id,
}
use tetrac_login_sdk.Server.Routes.ConnectWallet.{put_slots}

abbrev pub unauthorized : Response
unauthorized = error "Unauthorized" 401

pub record SearchInput : Type 0 where
  pub app_id : Text
  pub key : Text

abbrev or_default : Option Text → Text → Text
or_default none d = d
or_default (some t) d = t

module _ {S : Type 0} (d : Deployment S) where
  -- `appId ? await verifySession(…) : null`
  unfoldable pub authenticate : Request → Act S (Option UserData)
  authenticate req = elim (header_app_id d req) [
    | none ↦ pure none
    | some app_id ↦
        verify_session d.platform d.store app_id (req.header "ttc-auth-token")
          (req.header "ttc-public-key") (request_fingerprint d req)
  ]

  -- The token of an authenticated request is revoked.
  unfoldable pub revoke_if : Option Text → Option UserData → Option Text → Act S (Unit {0})
  revoke_if (some app_id) (some user) (some token) = revoke_session d.platform d.store app_id token
  revoke_if app_id user token = pure tt

  unfoldable pub logout : Request → Act S Response
  unfolding ◌>>=◌ ◌>>◌ authenticate revoke_if
  logout req = do
    user ← authenticate req
    revoke_if (header_app_id d req) user (req.header "ttc-auth-token")
    pure (json done 200)

  unfoldable pub user_data : Request → Act S Response
  unfolding ◌>>=◌ authenticate
  user_data req = do
    user ← authenticate req
    pure (elim user [ none ↦ unauthorized | some u ↦ json (user_record (public_user u)) 200 ])

  unfoldable pub read_search : Request → Result Response SearchInput
  read_search req =
      let key = or_default (req.query "publicKey") [] in
      let app_id = or_default (req.query "appId") d.config.app_id in
      if not (is_present (req.query "publicKey"))
      then err (error "publicKey required" 400)
      else refuse_or (validate_app_id (str app_id) d.config) (
          refuse_or (validate_public_key d.platform (str key))
            (ok (record { app_id = app_id; key = key })))

  unfoldable pub search_with : Request → SearchInput → Act S Response
  unfolding ◌>>=◌
  search_with req i = do
    limited ← rate_limited d req (some (bucket (codes "search") (some i.app_id) i.key))
    answer_or limited
        (do user ← d.store.get_user i.app_id i.key; pure (json (found (is_some user)) 200))

  unfoldable pub search_wallet : Request → Act S Response
  unfolding read_search search_with
  search_wallet req = with_input (read_search req) (search_with req)

  unfoldable pub read_import : Js → Result Response (List EncryptedWallet)
  read_import body =
      if not (truthy (length_prop (prop "wallets" body)))
      then err (error "wallets required" 400)
      else elim (read_wallets (prop "wallets" body)) [ err m ↦ err (error m 400) | ok ws ↦ ok ws ]

  abbrev updated_or : Option UserData → UserData → UserData
  updated_or none user = user
  updated_or (some u) user = u

  -- One slot-scoped write for each wallet, and the record as it reads then.
  unfoldable pub import_slots : UserData → List EncryptedWallet → Act S Response
  unfolding ◌>>=◌ ◌>>◌ put_slots
  import_slots user wallets = do
    put_slots d user.app_id user.public_key wallets
    updated ← d.store.get_user user.app_id user.public_key
    pure (json (user_record (public_user (updated_or updated user))) 200)

  unfoldable pub import_wallet : Request → Act S Response
  unfolding ◌>>=◌ authenticate read_import import_slots
  import_wallet req = do
    user ← authenticate req
    elim user [
      | none ↦ pure unauthorized
      | some u ↦ with_input (read_import (body_of (read_json d.parser req))) (import_slots u)
    ]
