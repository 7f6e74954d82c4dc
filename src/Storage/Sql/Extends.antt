-- ===== src/Storage/Sql/Extends.antt =====
-- What `putUser` (storage/sql/engine.ts) does within its transaction: no row of an email goes away.
use tetrac_login_sdk.Prelude.{
  ◌≡◌, refl, sym, ap, ◌∙◌, Bool, true, false, Option, none, some, List, [], ◌∷◌, ◌++◌, append_assoc,
  append-nil, Text, text_eq, if◌then◌else◌, Result, ok, err,
}
use tetrac_login_sdk.Core.Platform.{Platform}
use tetrac_login_sdk.Core.Js.{Js, str, truthy}
use tetrac_login_sdk.Core.Types.{EncryptedWallet, UserData}
use tetrac_login_sdk.Effect.{
  World, Act, Fault, email_taken, type_error, pure, throw, continue, ◌>>=◌, ◌>>◌,
}
use tetrac_login_sdk.Storage.Kv.{JsonCodec, normalize_email}
use tetrac_login_sdk.Storage.Sql.{
  Statement, Row, insert_email, delete_expired, of_sessions, of_challenges, of_rates,
}
use tetrac_login_sdk.Storage.Sql.Engine.{
  write_user, write_record, put_wallets, put_wallet_slot, index_email, claim_email, as_taken,
  holder_of,
}
use tetrac_login_sdk.Storage.Sql.Tables.{
  Db, Email, answer_with, database, execute, query, is_address,
}
use tetrac_login_sdk.Storage.Sql.Query.{some_row}

-- Within a transaction: the tables set aside stay, and rows of emails are only added.
abbrev pub Extended : World Db → World Db → Type 0
Extended w v =
    (v.state.saved ≡ w.state.saved)
    × ((more : List Email) × (v.state.tables.emails ≡ w.state.tables.emails ++ more))

pub record Extends (A : Type 0) (m : Act Db A) : Type 0 where
  pub extends : (w : World Db) → Extended w (m w).1

Extended-refl : (w : World Db) → Extended w w
Extended-refl w = (refl, ([], sym (append-nil w.state.tables.emails)))

Extended-trans : (u v w : World Db) → Extended u v → Extended v w → Extended u w
Extended-trans u v w (s, (more, e)) (s', (more', e')) = (
  s' ∙ s,
  (more ++ more', e' ∙ (ap (λ t. t ++ more') e ∙ append_assoc u.state.tables.emails more more')),
)

nothing-Extends : {A : Type 0} (r : Result Fault A) → Extends A (λ w. (r, w))
nothing-Extends r = record { extends = Extended-refl }

query-Extends : (st : Statement) → Extends (List Row) (query st)
unfolding query execute
query-Extends (insert_email e a k) = record {
  extends = λ w. inserted w (some_row (is_address e a) w.state.tables.emails);
}
  where
    inserted :
        (w : World Db) (b : Bool)
        → Extended w
            (answer_with
              (if b
                then none
                else some (
                  [],
                  record w.state.tables {
                    emails =
                        w.state.tables.emails
                        ++ (record { email = e; app_id = a; public_key = k } ∷ []);
                  },
                ))
              w).1
    inserted w true = Extended-refl w
    inserted w false = (refl, (record { email = e; app_id = a; public_key = k } ∷ [], refl))
query-Extends (delete_expired of_sessions n now returning) = record { extends = Extended-refl }
query-Extends (delete_expired of_challenges n now returning) = record { extends = Extended-refl }
query-Extends (delete_expired of_rates n now returning) = record { extends = Extended-refl }
query-Extends _ = record { extends = Extended-refl }

either-Extends :
    {A : Type 0} {m n : Act Db A} (b : Bool)
    → Extends A m
    → Extends A n
    → Extends A (if b then m else n)
either-Extends true em en = em
either-Extends false em en = en

module _ {A B : Type 0} where
  Extends->>= :
      {m : Act Db A} {f : A → Act Db B}
      → Extends A m
      → ((a : A) → Extends B (f a))
      → Extends B (m >>= f)
  unfolding ◌>>=◌
  Extends->>= {m} {f} em ef = record { extends = λ w. at w (m w) (em.extends w) }
    where
      at :
          (w : World Db) (r : Result Fault A × World Db)
          → Extended w r.1
          → Extended w (continue r.0 f r.1).1
      at w (ok a, v) e = Extended-trans w v (f a v).1 e ((ef a).extends v)
      at w (err x, v) e = e

  Extends->> : {m : Act Db A} {n : Act Db B} → Extends A m → Extends B n → Extends B (m >> n)
  unfolding ◌>>◌ ◌>>=◌
  Extends->> {m} {n} em en = Extends->>= {m = m} {f = λ a. n} em (λ a. en)

module _ (p : Platform) (json : JsonCodec) (returning : Bool) where
  put_wallets-Extends :
      (a k : Text) (ws : List EncryptedWallet)
      → Extends Unit (put_wallets p json database returning a k ws)
  unfolding put_wallets put_wallet_slot
  put_wallets-Extends a k [] = nothing-Extends (ok tt)
  put_wallets-Extends a k (w ∷ ws) =
      Extends->> (Extends->> (query-Extends _) (nothing-Extends (ok tt)))
        (put_wallets-Extends a k ws)

  abbrev pub claim_held : Text → Text → Text → Option Text → Act Db (Unit {0})
  claim_held email a k o = elim o [
    | none ↦ as_taken p json database returning (query (insert_email email a k))
    | some holder ↦ (if text_eq holder k then pure tt else throw email_taken)
  ]

  claim_held-Extends : (email a k : Text) (o : Option Text) → Extends Unit (claim_held email a k o)
  claim_held-Extends email a k none = record {
    extends = (query-Extends (insert_email email a k)).extends;
  }
  claim_held-Extends email a k (some holder) =
      either-Extends (text_eq holder k) (nothing-Extends (ok tt))
        (nothing-Extends (err email_taken))

  claim_email-Extends :
      (email a k : Text) → Extends Unit (claim_email p json database returning email a k)
  unfolding claim_email
  claim_email-Extends email a k =
      Extends->>= (query-Extends _) (λ held. claim_held-Extends email a k (holder_of held))

  index_email-Extends :
      (v : Js) (a k : Text) → Extends Unit (index_email p json database returning v a k)
  unfolding index_email
  index_email-Extends (str email) a k =
      either-Extends (text_eq email []) (nothing-Extends (ok tt))
        (claim_email-Extends (normalize_email p email) a k)
  index_email-Extends v a k =
      either-Extends (truthy v) (nothing-Extends (err type_error)) (nothing-Extends (ok tt))

  pub write_user-Extends :
      (user : UserData) → Extends Unit (write_user p json database returning user)
  unfolding write_user write_record
  write_user-Extends user =
      Extends->> (Extends->> (query-Extends _) (put_wallets-Extends _ _ _))
        (index_email-Extends _ _ _)
