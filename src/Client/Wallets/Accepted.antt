-- ===== src/Client/Wallets/Accepted.antt =====
-- The wallets that the browser generates, and `readWallets` of the server that receives them.
use tetrac_login_sdk.Prelude.{
  subst, suc, sym, ◌∙◌, ℕ, ◌≤◌, ◌≡◌, refl, ap, true, false, ◌&&◌, Option, List, [], ◌∷◌, ◌++◌, Text,
  length, length-append, All, ok, Bool-cases, inl, inr, arith, text_eq,
}
use tetrac_login_sdk.Core.Js.{Js, str, arr, obj, Items, nil, item, end, field, items, prop}
use tetrac_login_sdk.Core.Types.{
  Chain, solana, evm, WalletRole, funds, signing, EncryptedWallet, role_eq, chain_eq,
}
use tetrac_login_sdk.Core.Crypto.Secrets.{WebCrypto}
use tetrac_login_sdk.Storage.Kv.{chain_text, role_text}
use tetrac_login_sdk.Server.Validate.Wallets.{
  Slots, has_slot, read_wallet, read_texts, read_slot, read_role, read_chain, read_entries,
  read_wallets,
}
use tetrac_login_sdk.Server.Validate.Wallets.Bounds.{same_slot, DistinctSlots, IsBounded}
use tetrac_login_sdk.Client.Wallets.Made.{
  All-set_role, All-append, generate_wallet-eq_ok, chain_of-ind, generate_wallet_bundle-eq_ok,
}
use tetrac_login_sdk.Client.Wallets.{
  KeySource, ChainWallets, Bundle, WalletGen, set_role, chain_of, generate_wallet_bundle,
  wallets_in, flatten_bundle,
}

-- A wallet in the body of a request.
unfoldable pub wallet_json : EncryptedWallet → Js
wallet_json w = obj (
    field "chain" (str (chain_text w.chain)) (
      field "role" (str (role_text w.role)) (
        field "publicKey" (str w.public_key)
          (field "encryptedSecret" (str w.encrypted_secret) end))))

unfoldable pub items_json : List EncryptedWallet → Items
unfolding wallet_json
items_json [] = nil
items_json (w ∷ ws) = item (wallet_json w) (items_json ws)

unfoldable pub wallets_json : List EncryptedWallet → Js
unfolding items_json
wallets_json ws = arr (items_json ws)

abbrev Unseen : Slots → EncryptedWallet → Type 0
Unseen seen w = has_slot w.chain w.role seen ≡ false

read_wallet-json :
    (w : EncryptedWallet) (seen : Slots)
    → IsBounded w
    → Unseen seen w
    → read_wallet (wallet_json w) seen ≡ ok w
unfolding read_wallet wallet_json read_role read_chain text_eq prop read_texts read_slot
read_wallet-json w seen bounded unseen = by_slot w.chain w.role unseen
  where
    by_slot :
        (c : Chain) (r : WalletRole)
        → has_slot c r seen ≡ false
        → read_texts
            (str w.public_key)
            (str w.encrypted_secret)
            (read_role (str (role_text r)))
            (read_chain (str (chain_text c)))
            seen
          ≡ ok (record {
            chain = c;
            role = r;
            public_key = w.public_key;
            encrypted_secret = w.encrypted_secret;
          })
    by_slot solana funds h = ground arith
    by_slot solana signing h = ground arith
    by_slot evm funds h = ground arith
    by_slot evm signing h = ground arith

Unseen-after :
    (w : EncryptedWallet) (seen : Slots) (ws : List EncryptedWallet)
    → All (Unseen seen) ws
    → All (λ v. same_slot w v ≡ false) ws
    → All (Unseen ((w.chain, w.role) ∷ seen)) ws
unfolding has_slot
Unseen-after w seen [] h k = tt
Unseen-after w seen (v ∷ ws) h k = (ground arith, Unseen-after w seen ws h.1 k.1)

read_entries-json :
    (ws : List EncryptedWallet) (seen : Slots)
    → All (Unseen seen) ws
    → DistinctSlots ws
    → All IsBounded ws
    → read_entries (items (items_json ws)) seen ≡ ok ws
unfolding read_entries items_json items DistinctSlots
read_entries-json [] seen h d b = refl
read_entries-json (w ∷ ws) seen h d b = ground (
  arith,
  read_wallet-json w seen b.0 h.0,
  read_entries-json ws ((w.chain, w.role) ∷ seen) (Unseen-after w seen ws h.1 d.0) d.1 b.1,
)

length-items_json : (ws : List EncryptedWallet) → length (items (items_json ws)) ≡ length ws
unfolding items_json items
length-items_json [] = refl
length-items_json (w ∷ ws) = ap suc (length-items_json ws)

-- At most four wallets, no two in one slot and each within its limits, are read back as they are.
pub read_wallets-json :
    (ws : List EncryptedWallet)
    → length ws ≤ 4
    → DistinctSlots ws
    → All IsBounded ws
    → read_wallets (wallets_json ws) ≡ ok ws
unfolding read_wallets wallets_json
read_wallets-json ws few distinct bounded =
    rw (read_entries-json ws [] (none_seen ws) distinct bounded)
      (ground (arith, length-items_json ws))
  where
    none_seen : (ws : List EncryptedWallet) → All (Unseen []) ws
    none_seen [] = tt
    none_seen (w ∷ ws) = (refl, none_seen ws)

-- The wallets of one chain, no two of one role.
record IsChain (c : Chain) (ws : ChainWallets) : Type 0 where
  of_chain : All (λ w. w.chain ≡ c) ws
  distinct : DistinctSlots ws

role_eq-eq : (r s : WalletRole) → role_eq r s ≡ true → r ≡ s
role_eq-eq funds funds h = refl
role_eq-eq signing signing h = refl
role_eq-eq funds signing h = cc
role_eq-eq signing funds h = cc

apart_of_role : (v w : EncryptedWallet) → role_eq v.role w.role ≡ false → same_slot v w ≡ false
apart_of_role v w h = elim (Bool-cases (chain_eq v.chain w.chain)) [
  | inl e ↦ rw e h
  | inr e ↦ rw e refl
]

same_apart :
    (v w : EncryptedWallet) (us : ChainWallets)
    → v.chain ≡ w.chain
    → v.role ≡ w.role
    → All (λ u. same_slot v u ≡ false) us
    → All (λ u. same_slot w u ≡ false) us
same_apart v w [] c r h = tt
same_apart v w (u ∷ us) c r h = (rw (sym c, sym r) h.0, same_apart v w us c r h.1)

set_role-distinct :
    (c : Chain) (w : EncryptedWallet) (ws : ChainWallets)
    → w.chain ≡ c
    → All (λ v. v.chain ≡ c) ws
    → DistinctSlots ws
    → DistinctSlots (set_role w ws)
unfolding set_role DistinctSlots
set_role-distinct c w [] here chains d = (tt, tt)
set_role-distinct c w (v ∷ vs) here chains d = elim (Bool-cases (role_eq v.role w.role)) [
  | inl same ↦
      rw same (same_apart v w vs (chains.0 ∙ sym here) (role_eq-eq v.role w.role same) d.0, d.1)
  | inr other ↦ rw other (
    All-set_role (λ u. same_slot v u ≡ false) w vs (apart_of_role v w other) d.0,
    set_role-distinct c w vs here chains.1 d.1,
  )
]

set_role-IsChain :
    (c : Chain) (w : EncryptedWallet) (ws : ChainWallets)
    → w.chain ≡ c
    → IsChain c ws
    → IsChain c (set_role w ws)
set_role-IsChain c w ws here h = record {
  of_chain = All-set_role (λ v. v.chain ≡ c) w ws here h.of_chain;
  distinct = set_role-distinct c w ws here h.of_chain h.distinct;
}

other_role :
    (v w : EncryptedWallet)
    → v.chain ≡ w.chain
    → same_slot v w ≡ false
    → role_eq v.role w.role ≡ false
other_role v w e h =
    by_chain v.chain (subst (λ d. (chain_eq v.chain d && role_eq v.role w.role) ≡ false) (sym e) h)
  where
    by_chain :
        (c : Chain)
        → (chain_eq c c && role_eq v.role w.role) ≡ false
        → role_eq v.role w.role ≡ false
    by_chain solana h = h
    by_chain evm h = h

three_roles :
    (r s t : WalletRole) → role_eq r s ≡ false → role_eq r t ≡ false → role_eq s t ≡ false → ⊥
three_roles funds funds t p q n = cc
three_roles signing signing t p q n = cc
three_roles funds signing funds p q n = cc
three_roles funds signing signing p q n = cc
three_roles signing funds signing p q n = cc
three_roles signing funds funds p q n = cc

-- Two roles, two wallets.
IsChain-few : (c : Chain) (ws : ChainWallets) → IsChain c ws → length ws ≤ 2
unfolding DistinctSlots
IsChain-few c [] h = omega arith
IsChain-few c (u ∷ []) h = omega arith
IsChain-few c (u ∷ v ∷ []) h = omega arith
IsChain-few c (u ∷ v ∷ w ∷ ws) h =
    let (a, bs) = h.of_chain in
    let (b, ds) = bs in
    let (d, _) = ds in
    let (apart, rest) = h.distinct in
    absurd (
      three_roles u.role v.role w.role (other_role u v (a ∙ sym b) apart.0)
        (other_role u w (a ∙ sym d) apart.1.0) (other_role v w (b ∙ sym d) rest.0.0))

distinct-append :
    (c d : Chain) (ws vs : ChainWallets)
    → chain_eq c d ≡ false
    → IsChain c ws
    → IsChain d vs
    → DistinctSlots (ws ++ vs)
unfolding DistinctSlots
distinct-append c d [] vs apart h k = k.distinct
distinct-append c d (w ∷ ws) vs apart h k = (
  All-append (λ v. same_slot w v ≡ false) ws vs h.distinct.0 (others vs k.of_chain),
  distinct-append c d ws vs apart (record { of_chain = h.of_chain.1; distinct = h.distinct.1 }) k,
)
  where
    others : (us : ChainWallets) → All (λ u. u.chain ≡ d) us → All (λ u. same_slot w u ≡ false) us
    others [] e = tt
    others (u ∷ us) e = (rw (h.of_chain.0, e.0, apart) refl, others us e.1)

module _ (wc : WebCrypto) (keys : KeySource) (app_key : Text) where
  chain_of-IsChain :
      (c : Chain) (roles : Option (List WalletRole)) (n : ℕ) (o : Option ChainWallets)
      → chain_of wc keys app_key c roles n ≡ ok o
      → IsChain c (wallets_in o)
  unfolding DistinctSlots
  chain_of-IsChain c =
      chain_of-ind wc keys app_key c (IsChain c) (record { of_chain = tt; distinct = tt })
        (λ r n w ws made h.
          let (_, _, same) = generate_wallet-eq_ok wc keys app_key c r n w made in
          set_role-IsChain c w ws (ap (λ v. v.chain) (sym same)) h)

  -- Whatever roles are asked for, the wallets of a bundle that is generated are sent as a payload
  -- that the server's readWallets takes as they are, where each key has at most 128 characters and
  -- each sealed secret at most 8192.
  pub generated-read_wallets :
      (gen : WalletGen) (n m : ℕ) (b : Bundle)
      → generate_wallet_bundle wc keys app_key gen n m ≡ ok b
      → All IsBounded (flatten_bundle b)
      → read_wallets (wallets_json (flatten_bundle b)) ≡ ok (flatten_bundle b)
  unfolding flatten_bundle
  generated-read_wallets gen n m b h bounded =
      let (one, two) = generate_wallet_bundle-eq_ok wc keys app_key gen n m b h in
      let s = chain_of-IsChain solana gen.solana_roles n b.solana_wallets one in
      let e = chain_of-IsChain evm gen.evm_roles m b.evm_wallets two in
      read_wallets-json (flatten_bundle b)
        (omega (
          arith,
          length-append (wallets_in b.solana_wallets) (wallets_in b.evm_wallets),
          IsChain-few solana (wallets_in b.solana_wallets) s,
          IsChain-few evm (wallets_in b.evm_wallets) e,
        ))
        (distinct-append solana evm (wallets_in b.solana_wallets) (wallets_in b.evm_wallets) refl s
          e)
        bounded
