-- ===== src/Storage/Conformance/Records.antt =====
-- The suite's cases on records, the email index and the isolation of tenants and accounts
-- (storage/conformance.ts). Calls that the suite starts together are made one after the other.
use tetrac_login_sdk.Prelude.{
  Bool, not, ◌&&◌, ◌==◌, Option, none, some, List, [], ◌∷◌, Text, codes, is_some, if◌then◌else◌,
  length,
}
use tetrac_login_sdk.Core.Js.{Js, undefined, str}
use tetrac_login_sdk.Core.Types.{
  UserData, EncryptedWallet, chain_eq, role_eq, solana, evm, funds, signing, email,
}
use tetrac_login_sdk.Effect.{Act, ◌>>=◌, ◌>>◌}
use tetrac_login_sdk.Storage.Adapter.{AuthStore}
use tetrac_login_sdk.Storage.Conformance.{assert, same_text, repeated, pk_a, pk_b, app1, app2}
use tetrac_login_sdk.Storage.Conformance.Cases.{threw}

abbrev pub make_user : Text → Text → Js → List EncryptedWallet → UserData
make_user app_id pk address wallets = record {
  app_id = app_id;
  public_key = pk;
  email = address;
  auth_public_key = undefined;
  auth_method = email;
  wallets = wallets;
  created_at = 1700000000000;
  pbkdf2_iterations = none;
  offchain_envelope = none;
  auth_token_hash = none;
  auth_token = undefined;
}

-- `?.encryptedSecret` of the first wallet that passes a test.
abbrev secret_of : (EncryptedWallet → Bool) → List EncryptedWallet → Option Text
secret_of test [] = none
secret_of test (w ∷ ws) = if test w then some w.encrypted_secret else secret_of test ws

-- `got?.wallets`
abbrev wallets_of : Option UserData → List EncryptedWallet
wallets_of none = []
wallets_of (some u) = u.wallets

abbrev key_of : Option UserData → Option Text
key_of none = none
key_of (some u) = some u.public_key

abbrev pointer_of : Option UserData → Option Text
pointer_of none = none
pointer_of (some u) = u.auth_token_hash

module _ {S : Type 0} (store : AuthStore S) where
  -- The lookup of an address, asserted.
  unfoldable pub leads_to : Text → Text → Option Text → Act S (Unit {0})
  unfolding ◌>>=◌ assert
  leads_to app_id address pk =
      store.get_public_key_by_email app_id address >>= λ found. assert (same_text found pk)

  -- The key of a record that is read, asserted.
  unfoldable pub reads_key : Text → Text → Option Text → Act S (Unit {0})
  unfolding ◌>>=◌ assert
  reads_key app_id pk expected =
      store.get_user app_id pk >>= λ got. assert (same_text (key_of got) expected)

  unfoldable pub index_is_per_tenant : Act S (Unit {0})
  unfolding ◌>>◌ leads_to
  index_is_per_tenant = do
    store.put_user (make_user app1 pk_a (str (codes "idx@example.com")) [])
    leads_to app1 (codes "idx@example.com") (some pk_a)
    leads_to app2 (codes "idx@example.com") none

  unfoldable pub index_ignores_case : Act S (Unit {0})
  unfolding ◌>>◌ leads_to
  index_ignores_case = do
    store.put_user (make_user app1 pk_a (str (codes "MixedCase@Example.COM")) [])
    leads_to app1 (codes "  mixedcase@example.com  ") (some pk_a)

  unfoldable pub address_is_claimed : Act S (Unit {0})
  unfolding ◌>>=◌ ◌>>◌ assert threw leads_to
  address_is_claimed = do
    store.put_user (make_user app1 pk_a (str (codes "contested@example.com")) [])
    rejected ← threw (store.put_user (make_user app1 pk_b (str (codes "contested@example.com")) []))
    assert rejected
    leads_to app1 (codes "contested@example.com") (some pk_a)

  unfoldable pub own_record_rewritten : Act S (Unit {0})
  unfolding ◌>>◌ leads_to
  own_record_rewritten =
      let u = make_user app1 pk_a (str (codes "owner@example.com")) [] in
      (do
        store.put_user u
        store.put_user (record u { pbkdf2_iterations = some 600000 })
        leads_to app1 (codes "owner@example.com") (some pk_a))

  unfoldable pub two_apps_one_address : Act S (Unit {0})
  unfolding ◌>>◌ leads_to
  two_apps_one_address = do
    store.put_user (make_user app1 pk_a (str (codes "shared@example.com")) [])
    store.put_user (make_user app2 pk_b (str (codes "shared@example.com")) [])
    leads_to app1 (codes "shared@example.com") (some pk_a)
    leads_to app2 (codes "shared@example.com") (some pk_b)

  unfoldable pub dotted_app_ids : Act S (Unit {0})
  unfolding ◌>>◌ leads_to
  dotted_app_ids = do
    store.put_user (make_user (codes "myapp") pk_a (str (codes "d@example.com")) [])
    store.put_user (make_user (codes "myapp.example") pk_b (str (codes "d@example.com")) [])
    leads_to (codes "myapp") (codes "d@example.com") (some pk_a)
    leads_to (codes "myapp.example") (codes "d@example.com") (some pk_b)

  unfoldable pub slot_and_pointer_kept : Act S (Unit {0})
  unfolding ◌>>=◌ ◌>>◌ assert
  slot_and_pointer_kept =
      let imported : EncryptedWallet = record {
        chain = evm;
        role = funds;
        public_key = codes "0xabc";
        encrypted_secret = codes "IMPORTED";
      } in
      (do
        store.put_user (make_user app1 pk_a (str (codes "slots@example.com")) [])
        store.put_wallet_slot app1 pk_a imported
        store.set_session_pointer app1 pk_a (repeated "d")
        got ← store.get_user app1 pk_a
        assert (
            same_text
              (secret_of (λ w. chain_eq w.chain evm && role_eq w.role funds) (wallets_of got))
              (some (codes "IMPORTED")))
        assert (same_text (pointer_of got) (some (repeated "d"))))

  unfoldable pub other_slots_kept : Act S (Unit {0})
  unfolding ◌>>=◌ ◌>>◌ assert
  other_slots_kept =
      let kept : EncryptedWallet = record {
        chain = solana;
        role = funds;
        public_key = pk_a;
        encrypted_secret = codes "KEEP-ME";
      } in
      let added : EncryptedWallet = record {
        chain = evm;
        role = signing;
        public_key = codes "0xdef";
        encrypted_secret = codes "NEW";
      } in
      (do
        store.put_user (make_user app1 pk_b (str (codes "twoslots@example.com")) (kept ∷ []))
        store.put_wallet_slot app1 pk_b added
        got ← store.get_user app1 pk_b
        assert (length (wallets_of got) == 2)
        assert (
            same_text (secret_of (λ w. chain_eq w.chain solana) (wallets_of got))
              (some (codes "KEEP-ME"))))

  unfoldable pub absent_user : Act S (Unit {0})
  unfolding ◌>>=◌ assert
  absent_user = store.get_user app1 pk_b >>= λ got. assert (not (is_some got))

  unfoldable pub tenants_by_case : Act S (Unit {0})
  unfolding ◌>>◌ reads_key
  tenants_by_case = do
    store.put_user (make_user (codes "Acme") pk_a undefined [])
    store.put_user (make_user (codes "acme") pk_b undefined [])
    reads_key (codes "Acme") pk_a (some pk_a)
    reads_key (codes "Acme") pk_b none

  unfoldable pub keys_by_case : Act S (Unit {0})
  unfolding ◌>>◌ reads_key
  keys_by_case = do
    store.put_user (make_user app1 (codes "AaBbCc") undefined [])
    store.put_user (make_user app1 (codes "aabbcc") undefined [])
    reads_key app1 (codes "AaBbCc") (some (codes "AaBbCc"))
