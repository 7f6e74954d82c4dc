-- ===== src/Server/Routes/Refusals.antt =====
-- The statuses with which readers of a request's input (server/routes.ts) refuse.
use tetrac_login_sdk.Prelude.{
  Bool, true, false, ◌≡◌, refl, Option, none, some, String, List, Result, ok, err, if◌then◌else◌,
  arith,
}
use tetrac_login_sdk.Core.Js.{Js, undefined}
use tetrac_login_sdk.Core.Types.{EncryptedWallet}
use tetrac_login_sdk.Server.Http.{Response, error}
use tetrac_login_sdk.Server.Routes.{refuse_or}
use tetrac_login_sdk.Server.Routes.Register.{optional_wallets, with_wallets}

module _ {I : Type 0} where
  -- What is refused is answered 400.
  abbrev pub IsClientError : Result Response I → Type 0
  IsClientError r = (x : Response) → r ≡ err x → x.status ≡ 400

  pub ok-IsClientError : (i : I) → IsClientError (ok i)
  ok-IsClientError i x h = absurd (ground arith)

  pub refuse_or-IsClientError :
      (m : Option String) (rest : Result Response I)
      → IsClientError rest
      → IsClientError (refuse_or m rest)
  refuse_or-IsClientError none rest h x e = h x e
  refuse_or-IsClientError (some m) rest h x e = ground arith

  pub if-IsClientError :
      (b : Bool) (m : String) (rest : Result Response I)
      → IsClientError rest
      → IsClientError (if b then err (error m 400) else rest)
  if-IsClientError true m rest h x e = ground arith
  if-IsClientError false m rest h x e = h x e

optional_wallets-IsClientError : (v : Js) → IsClientError (optional_wallets v)
unfolding optional_wallets
optional_wallets-IsClientError undefined x e = absurd (ground arith)
optional_wallets-IsClientError v x e = ground arith

module _ {I : Type 0} where
  pub with_wallets-IsClientError :
      (v : Js) (f : List EncryptedWallet → Result Response I)
      → ((ws : List EncryptedWallet) → IsClientError (f ws))
      → IsClientError (with_wallets (optional_wallets v) f)
  with_wallets-IsClientError v f h = split (optional_wallets v) (optional_wallets-IsClientError v)
    where
      split :
          (r : Result Response (List EncryptedWallet))
          → IsClientError r
          → IsClientError (with_wallets r f)
      split (ok ws) k x e = h ws x e
      split (err y) k x e = let same : y ≡ x = ground arith in ground (arith, k y refl)
