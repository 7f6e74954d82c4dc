-- ===== src/Storage/Keys.antt =====
-- server/keys.ts: the app-scoped keys.
use tetrac_login_sdk.Prelude.{◌++◌, ◌∷◌, ◌≡◌, true, Text, lacks, split_unique, append_cancel}

unfoldable pub app_scoped : Text → Text → Text → Text
app_scoped prefix app_id id = prefix ++ (app_id ++ (b':' ∷ id))

-- Where app ids hold no ':', a key belongs to one app and one id.
pub app_scoped-injective :
    (prefix app_id id app_id' id' : Text)
    → lacks b':' app_id ≡ true
    → lacks b':' app_id' ≡ true
    → app_scoped prefix app_id id ≡ app_scoped prefix app_id' id'
    → (app_id ≡ app_id') × (id ≡ id')
unfolding app_scoped
app_scoped-injective prefix app_id id app_id' id' h h' e =
    split_unique b':' app_id app_id' id id' h h' (append_cancel prefix e)
