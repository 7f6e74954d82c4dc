-- ===== src/Server/Routes/Register/Faults.antt =====
-- A body that makes `register` (server/routes.ts) throw.
use tetrac_login_sdk.Prelude.{◌≡◌, ◌≢◌, refl, false, Text, ok, err, arith}
use tetrac_login_sdk.Core.Platform.{Platform}
use tetrac_login_sdk.Core.Js.{
  Js, undefined, null, bool, num, other_num, str, arr, obj, nullish, default_to,
}
use tetrac_login_sdk.Effect.{World, type_error, ◌>>=◌}
use tetrac_login_sdk.Server.Http.{Request, read_json}
use tetrac_login_sdk.Server.Routes.{Deployment, body_of, bucket_id}
use tetrac_login_sdk.Server.Routes.Register.{RegisterInput, read_register, register, register_with}

bucket_id-type_error :
    (p : Platform) (v w : Js)
    → nullish v ≡ false
    → ((s : Text) → v ≢ str s)
    → bucket_id p (default_to v w) ≡ err type_error
unfolding bucket_id default_to nullish
bucket_id-type_error p undefined w n t = absurd (ground arith)
bucket_id-type_error p null w n t = absurd (ground arith)
bucket_id-type_error p (bool b) w n t = refl
bucket_id-type_error p (num k) w n t = refl
bucket_id-type_error p (other_num s) w n t = refl
bucket_id-type_error p (str s) w n t = absurd (t s refl)
bucket_id-type_error p (arr vs) w n t = refl
bucket_id-type_error p (obj fs) w n t = refl

module _ {S : Type 0} (d : Deployment S) where
  -- An accepted body whose email is there and is no text makes the handler throw a type error
  -- before it reads or writes anything.
  pub register-type_error :
      (req : Request) (i : RegisterInput) (w : World S)
      → read_register d (body_of (read_json d.parser req)) ≡ ok i
      → nullish i.email ≡ false
      → ((s : Text) → i.email ≢ str s)
      → register d req w ≡ (err type_error, w)
  unfolding register register_with ◌>>=◌
  register-type_error req i w e n t =
      rw e (rw (bucket_id-type_error d.platform i.email (str i.key) n t) refl)
