-- ===== src/Server/Next.antt =====
-- next/routes.ts: the catch-all routes, which dispatch an action's path to a handler.
use tetrac_login_sdk.Prelude.{ℕ, Option, none, some, List, [], ◌∷◌, ◌++◌, Text, codes}
use tetrac_login_sdk.Effect.{Act, pure}
use tetrac_login_sdk.Storage.Map.{Map, lookup}
use tetrac_login_sdk.Server.Http.{Request, Response, error}
use tetrac_login_sdk.Server.Routes.{Deployment}
use tetrac_login_sdk.Server.Routes.Challenge.{challenge}
use tetrac_login_sdk.Server.Routes.Register.{register}
use tetrac_login_sdk.Server.Routes.Login.{login, login_wallet}
use tetrac_login_sdk.Server.Routes.ConnectWallet.{connect_wallet}
use tetrac_login_sdk.Server.Routes.Account.{import_wallet, logout, user_data, search_wallet}

-- `segments.join("/")`
unfoldable pub join : List Text → Text
join [] = []
join (s ∷ []) = s
join (s ∷ rest) = s ++ (b'/' ∷ join rest)

abbrev segments_of : Option (List Text) → List Text
segments_of none = []
segments_of (some segments) = segments

-- `(params.action ?? []).join("/")`
unfoldable pub action_of : Option (List Text) → Text
unfolding join
action_of action = join (segments_of action)

module _ {S : Type 0} (d : Deployment S) (unknown_action_status : Option ℕ) where
  abbrev Handler : Type 0
  Handler = Request → Act S Response

  unfoldable pub post_routes : Map Handler
  post_routes =
      (codes "challenge", challenge d)
      ∷ (codes "register", register d)
      ∷ (codes "login", login d)
      ∷ (codes "login-wallet", login_wallet d)
      ∷ (codes "connect-wallet", connect_wallet d)
      ∷ (codes "import-wallet", import_wallet d)
      ∷ (codes "logout", logout d)
      ∷ []

  unfoldable pub get_routes : Map Handler
  get_routes = (codes "user-data", user_data d) ∷ (codes "search-wallet", search_wallet d) ∷ []

  abbrev unknown_status : ℕ
  unknown_status = elim unknown_action_status [ none ↦ 400 | some status ↦ status ]

  -- The message of the refusal, which also names the action and the known ones, is shortened.
  unfoldable pub dispatch : Map Handler → Option (List Text) → Handler
  unfolding action_of
  dispatch table action req = elim (lookup (action_of action) table) [
    | none ↦ pure (error "Unknown auth action" unknown_status)
    | some handler ↦ handler req
  ]

  unfoldable pub post : Option (List Text) → Handler
  unfolding dispatch post_routes
  post action = dispatch post_routes action

  unfoldable pub get : Option (List Text) → Handler
  unfolding dispatch get_routes
  get action = dispatch get_routes action
