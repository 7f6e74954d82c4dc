-- ===== src/Client/Wallets/Opens.antt =====
-- What the wallets of a bundle (client/wallet.ts) hold, and which are generated for a connected wallet.
use tetrac_login_sdk.Prelude.{
  ℕ, ◌≡◌, refl, subst, Bool, false, ◌&&◌, Option, none, some, List, [], ◌∷◌, Text, ok,
  and_then-eq_ok, ◌+◌, All,
}
use tetrac_login_sdk.Core.Types.{
  Chain, solana, evm, WalletRole, funds, signing, EncryptedWallet, role_eq, chain_eq,
}
use tetrac_login_sdk.Core.Crypto.Secrets.{WebCrypto, Opens, decrypt_secret-encrypt_secret}
use tetrac_login_sdk.Client.Wallets.Made.{
  ok-injective, All-set_role, All-append, generate_wallet-eq_ok, chain_of-ind,
  generate_wallet_bundle-eq_ok,
}
use tetrac_login_sdk.Client.Wallets.{
  KeySource, ChainWallets, Bundle, WalletGen, pair_of, or_none, without_funds, web3_wallet_gen,
  set_role, generate_wallet, generate_chain, chain_of, generate_wallet_bundle, wallets_in,
  flatten_bundle, decrypt_wallet_secret,
}

-- The wallet that a connected wallet is itself.
abbrev pub solana_funds : EncryptedWallet → Bool
solana_funds w = chain_eq w.chain solana && role_eq w.role funds

abbrev pub NotFunds : EncryptedWallet → Type 0
NotFunds w = solana_funds w ≡ false

module _ (wc : WebCrypto) (keys : KeySource) (app_key : Text) where
  -- A wallet that names the address of a key pair and opens to its secret.
  abbrev pub IsOpened : EncryptedWallet → Type 0
  IsOpened w =
      (n : ℕ) × (w.public_key ≡ (pair_of keys w.chain n).address)
      × (decrypt_wallet_secret wc w app_key ≡ ok (pair_of keys w.chain n).secret)

  module _ (opens : Opens wc) (reads : (s : Text) → wc.utf8_decode (wc.utf8 s) ≡ s) where
    generate_wallet-IsOpened :
        (c : Chain) (r : WalletRole) (n : ℕ) (w : EncryptedWallet)
        → generate_wallet wc keys app_key c r n ≡ ok w
        → IsOpened w
    unfolding decrypt_wallet_secret
    generate_wallet-IsOpened c r n w made =
        let (sealed, enc, same) = generate_wallet-eq_ok wc keys app_key c r n w made in
        let opened =
          decrypt_secret-encrypt_secret wc opens (keys.nonce n) (pair_of keys c n).secret app_key
            sealed (reads (pair_of keys c n).secret) enc in
        subst IsOpened same (n, refl, opened)

    chain_of-IsOpened :
        (c : Chain) (roles : Option (List WalletRole)) (n : ℕ) (o : Option ChainWallets)
        → chain_of wc keys app_key c roles n ≡ ok o
        → All IsOpened (wallets_in o)
    chain_of-IsOpened c =
        chain_of-ind wc keys app_key c (All IsOpened) tt
          (λ r n w ws made h. All-set_role IsOpened w ws (generate_wallet-IsOpened c r n w made) h)

    -- Every wallet of a bundle that is generated under an app key names the address of a generated
    -- key pair and opens, under that app key, to the secret of that pair, where the cipher opens
    -- what it sealed and the decoder reads encodings back.
    pub generated-IsOpened :
        (gen : WalletGen) (n m : ℕ) (b : Bundle)
        → generate_wallet_bundle wc keys app_key gen n m ≡ ok b
        → All IsOpened (flatten_bundle b)
    unfolding flatten_bundle
    generated-IsOpened gen n m b h =
        let (one, two) = generate_wallet_bundle-eq_ok wc keys app_key gen n m b h in
        All-append IsOpened (wallets_in b.solana_wallets) (wallets_in b.evm_wallets)
          (chain_of-IsOpened solana gen.solana_roles n b.solana_wallets one)
          (chain_of-IsOpened evm gen.evm_roles m b.evm_wallets two)

  without_funds-All :
      (roles : List WalletRole) → All (λ r. role_eq r funds ≡ false) (without_funds roles)
  unfolding without_funds
  without_funds-All [] = tt
  without_funds-All (funds ∷ rs) = without_funds-All rs
  without_funds-All (signing ∷ rs) = (refl, without_funds-All rs)

  other_roles :
      (roles : List WalletRole) (n : ℕ) (ws vs : ChainWallets)
      → All (λ r. role_eq r funds ≡ false) roles
      → All NotFunds ws
      → generate_chain wc keys app_key solana roles n ws ≡ ok vs
      → All NotFunds vs
  unfolding generate_chain
  other_roles [] n ws vs none_left h e = subst (All NotFunds) (ok-injective e) h
  other_roles (r ∷ rs) n ws vs others h e =
      let (w, made, rest) =
        and_then-eq_ok (generate_wallet wc keys app_key solana r n)
          (λ w. generate_chain wc keys app_key solana rs (n + 1) (set_role w ws)) e in
      let (sealed, _, same) = generate_wallet-eq_ok wc keys app_key solana r n w made in
      other_roles rs (n + 1) (set_role w ws) vs others.1
        (All-set_role NotFunds w ws (subst NotFunds same others.0) h) rest

  web3_solana :
      (roles : List WalletRole) (n : ℕ) (o : Option ChainWallets)
      → All (λ r. role_eq r funds ≡ false) roles
      → chain_of wc keys app_key solana (or_none roles) n ≡ ok o
      → All NotFunds (wallets_in o)
  unfolding chain_of
  web3_solana [] n o others e = subst (λ o. All NotFunds (wallets_in o)) (ok-injective e) tt
  web3_solana (r ∷ rs) n o others e =
      let (ws, made, same) =
        and_then-eq_ok (generate_chain wc keys app_key solana (r ∷ rs) n []) (λ ws. ok (some ws))
          e in
      subst (λ o. All NotFunds (wallets_in o)) (ok-injective same)
        (other_roles (r ∷ rs) n [] ws others tt made)

  -- Whatever roles an app asks for, the bundle for a connected wallet holds no Solana wallet of the
  -- role funds, which would stand in for the connected one.
  pub web3-NotFunds :
      (gen : WalletGen) (n m : ℕ) (b : Bundle)
      → generate_wallet_bundle wc keys app_key (web3_wallet_gen gen) n m ≡ ok b
      → All NotFunds (flatten_bundle b)
  unfolding flatten_bundle web3_wallet_gen
  web3-NotFunds gen n m b h =
      let (one, two) = generate_wallet_bundle-eq_ok wc keys app_key (web3_wallet_gen gen) n m b h in
      All-append NotFunds (wallets_in b.solana_wallets) (wallets_in b.evm_wallets)
        (by_roles gen.solana_roles one)
        (chain_of-ind wc keys app_key evm (All NotFunds) tt
          (λ r k w ws made h.
            let (sealed, _, same) = generate_wallet-eq_ok wc keys app_key evm r k w made in
            All-set_role NotFunds w ws (subst NotFunds same refl) h)
          gen.evm_roles m b.evm_wallets two)
    where
      by_roles :
          (roles : Option (List WalletRole))
          → chain_of wc keys app_key solana
              (elim roles [ none ↦ none | some rs ↦ or_none (without_funds rs) ])
              n
            ≡ ok b.solana_wallets
          → All NotFunds (wallets_in b.solana_wallets)
      by_roles none e = web3_solana [] n b.solana_wallets tt e
      by_roles (some rs) e =
          web3_solana (without_funds rs) n b.solana_wallets (without_funds-All rs) e
