-- ===== src/Storage/Sql/Users/Claimed.antt =====
-- `putUser` (storage/sql/engine.ts) that returns, and the address that it claimed.
use tetrac_login_sdk.Prelude.{
  ◌≡◌, refl, sym, ap, subst, ◌∙◌, Bool, true, false, Option, none, some, [], ◌∷◌, ◌++◌, Text,
  text_eq, text_eq_iff, text_eq_refl, if◌then◌else◌, Result, ok, err, arith,
}
use tetrac_login_sdk.Core.Platform.{Platform}
use tetrac_login_sdk.Core.Js.{Js, str}
use tetrac_login_sdk.Core.Types.{UserData}
use tetrac_login_sdk.Effect.{World, Fault, email_taken, pure, throw, ◌>>=◌, >>-eq_ok}
use tetrac_login_sdk.Storage.Kv.{JsonCodec, normalize_email}
use tetrac_login_sdk.Storage.Sql.Engine.{
  put_user, write_user, write_record, index_email, claim_email, get_public_key_by_email, as_taken,
}
use tetrac_login_sdk.Storage.Sql.Tables.{
  Db, Email, answer_with, database, execute, query, is_address,
}
use tetrac_login_sdk.Storage.Sql.Query.{some_row, find, find-append_fresh}
use tetrac_login_sdk.Storage.Sql.Extends.{claim_held}
use tetrac_login_sdk.Storage.Sql.Users.{
  key_of, holder_of-rows_where, begun, closed, held_by, holder_lem, put_lem,
}

module _ (p : Platform) (json : JsonCodec) (returning : Bool) where
  claim_lem :
      (email a k : Text) (u : World Db)
      → claim_email p json database returning email a k u
        ≡ claim_held p json returning email a k
            (key_of (find (is_address email a) u.state.tables.emails))
            u
  unfolding claim_email ◌>>=◌ query execute
  claim_lem email a k u =
      ap (λ o. claim_held p json returning email a k o u)
        (holder_of-rows_where (is_address email a) u.state.tables.emails)

  claimed :
      (email a k : Text) (u v : World Db)
      → claim_email p json database returning email a k u ≡ (ok tt, v)
      → key_of (find (is_address email a) v.state.tables.emails) ≡ some k
  claimed email a k u v h =
      at (find (is_address email a) u.state.tables.emails) refl (sym (claim_lem email a k u) ∙ h)
    where
      row : Email
      row = record { email = email; app_id = a; public_key = k }

      its_own : is_address email a row ≡ true
      its_own = rw (text_eq_refl email, text_eq_refl a) refl

      fresh :
          (b : Bool)
          → find (is_address email a) u.state.tables.emails ≡ none
          → as_taken p json database returning
              (answer_with (
                if b
                then none
                else some
                    ([], record u.state.tables { emails = u.state.tables.emails ++ (row ∷ []) })))
              u
            ≡ (ok tt, v)
          → key_of (find (is_address email a) v.state.tables.emails) ≡ some k
      fresh true none_found h = absurd (ground arith)
      fresh false none_found h =
          subst (λ x. key_of (find (is_address email a) x.state.tables.emails) ≡ some k)
            (ap (λ x. x.1) h)
            (rw (find-append_fresh (is_address email a) u.state.tables.emails row none_found)
              (rw its_own refl))

      own :
          (r : Email) (b : Bool)
          → text_eq r.public_key k ≡ b
          → find (is_address email a) u.state.tables.emails ≡ some r
          → (if b then pure tt else throw email_taken) u ≡ (ok tt, v)
          → key_of (find (is_address email a) v.state.tables.emails) ≡ some k
      own r true same found h =
          subst (λ x. key_of (find (is_address email a) x.state.tables.emails) ≡ some k)
            (ap (λ x. x.1) h) (rw found (ap some ((text_eq_iff r.public_key k).0 same)))
      own r false same found h = absurd (ground arith)

      at :
          (o : Option Email)
          → find (is_address email a) u.state.tables.emails ≡ o
          → claim_held p json returning email a k (key_of o) u ≡ (ok tt, v)
          → key_of (find (is_address email a) v.state.tables.emails) ≡ some k
      at none found h =
          fresh (some_row (is_address email a) u.state.tables.emails) found
            (unfold query execute in h)
      at (some r) found h = own r (text_eq r.public_key k) refl found h

  indexed :
      (value : Js) (email a k : Text) (u : World Db)
      → value ≡ str email
      → text_eq email [] ≡ false
      → index_email p json database returning value a k u
        ≡ claim_email p json database returning (normalize_email p email) a k u
  unfolding index_email
  indexed value email a k u e nonempty = rw e (rw nonempty refl)

  wrote :
      (email : Text) (user : UserData) (u v : World Db)
      → user.email ≡ str email
      → text_eq email [] ≡ false
      → write_user p json database returning user u ≡ (ok tt, v)
      → held_by p json returning user.app_id email v.state.tables ≡ some user.public_key
  unfolding write_user
  wrote email user u v is_text nonempty h =
      let (x, y, before, last) =
        >>-eq_ok (write_record p json database returning user)
          (index_email p json database returning user.email user.app_id user.public_key) u h in
      claimed (normalize_email p email) user.app_id user.public_key y v
        (sym (indexed user.email email user.app_id user.public_key y is_text nonempty) ∙ last)

  -- A `putUser` that returns has made its address, whatever its case and surrounding blanks, that of
  -- its key.
  address_claimed :
      (email : Text) (user : UserData) (w : World Db)
      → user.email ≡ str email
      → text_eq email [] ≡ false
      → (put_user p json database returning user w).0 ≡ ok tt
      → (get_public_key_by_email p json database returning user.app_id email
          (put_user p json database returning user w).1).0
        ≡ ok (some user.public_key)
  address_claimed email user w is_text nonempty done =
      holder_lem p json returning user.app_id email (put_user p json database returning user w).1
      ∙ ap ok (
          rw (put_lem p json returning user w) (
            at (write_user p json database returning user (begun w)) refl
              (ap (λ r. r.0) (sym (put_lem p json returning user w)) ∙ done)))
    where
      at :
          (r : Result Fault (Unit {0}) × World Db)
          → write_user p json database returning user (begun w) ≡ r
          → (closed Unit w.state.tables r).0 ≡ ok tt
          → held_by p json returning user.app_id email (closed Unit w.state.tables r).1.state.tables
            ≡ some user.public_key
      at (ok x, v) e h = wrote email user (begun w) v is_text nonempty e
      at (err x, v) e h = absurd (ground arith)
