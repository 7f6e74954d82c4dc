-- ===== src/Server/Validate/AppIds.antt =====
-- `validateAppId` (server/routes.ts) and the separators of keys.
use tetrac_login_sdk.Prelude.{
  ℕ, ◌≡◌, refl, true, false, none, [], ◌∷◌, Text, all, lacks, all-lacks, arith,
}
use tetrac_login_sdk.Core.Js.{str}
use tetrac_login_sdk.Core.Config.{AuthConfig}
use tetrac_login_sdk.Storage.Keys.{app_scoped, app_scoped-injective}
use tetrac_login_sdk.Server.Validate.{is_app_id, is_app_id_char, validate_app_id}

is_app_id-all : (a : Text) → is_app_id a ≡ true → all is_app_id_char a ≡ true
unfolding is_app_id
is_app_id-all [] h = absurd (ground arith)
is_app_id-all (c ∷ s) h = ground arith

module _ (config : AuthConfig) where
  validate_app_id-is_app_id :
      (a : Text) → validate_app_id (str a) config ≡ none → is_app_id a ≡ true
  unfolding validate_app_id
  validate_app_id-is_app_id a h = ground arith

  pub validate_app_id-lacks :
      (a : Text) (c : ℕ)
      → is_app_id_char c ≡ false
      → validate_app_id (str a) config ≡ none
      → lacks c a ≡ true
  validate_app_id-lacks a c out h =
      all-lacks is_app_id_char c out a (is_app_id-all a (validate_app_id-is_app_id a h))

  -- Two accepted app ids never share a key: equal keys of one prefix belong to one app and one id,
  -- whatever the ids are.
  pub validate_app_id-app_scoped :
      (prefix app_id id app_id' id' : Text)
      → validate_app_id (str app_id) config ≡ none
      → validate_app_id (str app_id') config ≡ none
      → app_scoped prefix app_id id ≡ app_scoped prefix app_id' id'
      → (app_id ≡ app_id') × (id ≡ id')
  validate_app_id-app_scoped prefix app_id id app_id' id' h h' e =
      app_scoped-injective prefix app_id id app_id' id' (validate_app_id-lacks app_id b':' refl h)
        (validate_app_id-lacks app_id' b':' refl h') e
