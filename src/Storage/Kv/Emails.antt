-- ===== src/Storage/Kv/Emails.antt =====
-- The email index of `putUser` (storage/store.ts) over the in-memory adapter.
use tetrac_login_sdk.Prelude.{
  ◌≡◌, refl, ap, ◌∙◌, Option, none, some, Text, text_eq, text_eq_refl, if◌then◌else◌, Result, ok,
  err, arith,
}
use tetrac_login_sdk.Core.Platform.{Platform}
use tetrac_login_sdk.Core.Config.{KeyPrefixes}
use tetrac_login_sdk.Effect.{World, Fault, email_taken}
use tetrac_login_sdk.Storage.Map.{Map, lookup, insert, lookup-insert}
use tetrac_login_sdk.Storage.Memory.{Memory, memory_adapter, hash_of, put_hash, hget, hsetnx}
use tetrac_login_sdk.Storage.Kv.{JsonCodec, email_key, claim_email}

module _ (p : Platform) (json : JsonCodec) (prefixes : KeyPrefixes) (email app_id : Text) where
  -- The key that an address leads to in an app.
  abbrev pub holder : World Memory → Option Text
  holder w = lookup app_id (hash_of (email_key p json memory_adapter prefixes email) w.state.hstore)

  abbrev pub claim : Text → World Memory → Result Fault (Unit {0}) × World Memory
  claim pk w = claim_email p json memory_adapter prefixes email app_id pk w

  abbrev key : Text
  key = email_key p json memory_adapter prefixes email

  -- Whoever came first.
  abbrev pub owner : Option Text → Text → Text
  owner none pk = pk
  owner (some q) pk = q

  hash_of-put_hash :
      (key : Text) (h : Map Text) (w : World Memory)
      → hash_of key (put_hash key h w).state.hstore ≡ h
  unfolding hash_of put_hash
  hash_of-put_hash key h w =
      ground (arith, lookup-insert key key h w.state.hstore, text_eq_refl key)

  -- An address belongs to the key that claimed it first: a claim succeeds exactly for that key,
  -- and no claim changes whom a claimed address leads to.
  pub first_claim_wins :
      (pk : Text) (w : World Memory)
      → ((claim pk w).0 ≡ (if text_eq (owner (holder w) pk) pk then ok tt else err email_taken))
        × (holder (claim pk w).1 ≡ some (owner (holder w) pk))
  unfolding claim_email hsetnx hget
  first_claim_wins pk w = by_holder (holder w) refl
    where
      by_holder :
          (h : Option Text)
          → holder w ≡ h
          → ((claim pk w).0 ≡ (if text_eq (owner (holder w) pk) pk then ok tt else err email_taken))
            × (holder (claim pk w).1 ≡ some (owner (holder w) pk))
      by_holder none e = rw e (
        rw (text_eq_refl pk) refl,
        rw (hash_of-put_hash key (insert app_id pk (hash_of key w.state.hstore)) w) (
            lookup-insert app_id app_id pk (hash_of key w.state.hstore)
            ∙ rw (text_eq_refl app_id) refl),
      )
      by_holder (some q) e =
          let same : claim pk w ≡ (if text_eq q pk then ok tt else err email_taken, w) =
            rw e (rw e (ground arith)) in
          (ap (λ x. x.0) same ∙ rw e refl, ap (λ x. holder x.1) same ∙ (e ∙ rw e refl))
