-- ===== src/Client/Wallets/Made.antt =====
-- What the generation of wallets (client/wallet.ts) went through where it succeeds.
use tetrac_login_sdk.Prelude.{
  ℕ, ◌+◌, ◌≡◌, ap, ◌∙◌, subst, Option, none, some, List, [], ◌∷◌, ◌++◌, Text, Result, ok, and_then,
  and_then-eq_ok, All, Bool-cases, inl, inr,
}
use tetrac_login_sdk.Core.Types.{Chain, solana, evm, WalletRole, EncryptedWallet, role_eq}
use tetrac_login_sdk.Core.Crypto.Secrets.{WebCrypto, CipherError, encrypt_secret}
use tetrac_login_sdk.Client.Wallets.{
  KeySource, ChainWallets, Bundle, WalletGen, pair_of, pair_wallet, set_role, generate_wallet,
  generate_chain, chain_of, generate_wallet_bundle, wallets_in,
}

pub ok-injective : {A : Type 0} {a b : A} → ◌≡◌ {A = Result CipherError A} (ok a) (ok b) → a ≡ b
ok-injective e = cc

pub All-set_role :
    (P : EncryptedWallet → Type 0) (w : EncryptedWallet) (ws : ChainWallets)
    → P w
    → All P ws
    → All P (set_role w ws)
unfolding set_role
All-set_role P w [] h k = (h, tt)
All-set_role P w (v ∷ vs) h k = elim (Bool-cases (role_eq v.role w.role)) [
  | inl same ↦ rw same (h, k.1)
  | inr other ↦ rw other (k.0, All-set_role P w vs h k.1)
]

pub All-append :
    (P : EncryptedWallet → Type 0) (xs ys : List EncryptedWallet)
    → All P xs
    → All P ys
    → All P (xs ++ ys)
All-append P [] ys h k = k
All-append P (x ∷ xs) ys h k = (h.0, All-append P xs ys h.1 k)

module _ (wc : WebCrypto) (keys : KeySource) (app_key : Text) where
  pub generate_wallet-eq_ok :
      (c : Chain) (r : WalletRole) (n : ℕ) (w : EncryptedWallet)
      → generate_wallet wc keys app_key c r n ≡ ok w
      → (sealed : Text) × (encrypt_secret wc (keys.nonce n) (pair_of keys c n).secret app_key
          ≡ ok sealed)
        × (pair_wallet keys c r n sealed ≡ w)
  unfolding generate_wallet
  generate_wallet-eq_ok c r n w h =
      let (sealed, enc, made) =
        and_then-eq_ok (encrypt_secret wc (keys.nonce n) (pair_of keys c n).secret app_key)
          (λ s. ok (pair_wallet keys c r n s)) h in
      (sealed, enc, ok-injective made)

  -- What holds of each wallet as it is made, and of no wallets, holds of the wallets of a chain.
  pub generate_chain-ind :
      (c : Chain) (P : ChainWallets → Type 0)
      → ((r : WalletRole) (n : ℕ) (w : EncryptedWallet) (ws : ChainWallets)
          → generate_wallet wc keys app_key c r n ≡ ok w
          → P ws
          → P (set_role w ws))
      → (roles : List WalletRole) (n : ℕ) (ws vs : ChainWallets) → P ws
      → generate_chain wc keys app_key c roles n ws ≡ ok vs
      → P vs
  unfolding generate_chain
  generate_chain-ind c P step [] n ws vs h e = subst P (ok-injective e) h
  generate_chain-ind c P step (r ∷ rs) n ws vs h e =
      let (w, made, rest) =
        and_then-eq_ok (generate_wallet wc keys app_key c r n)
          (λ w. generate_chain wc keys app_key c rs (n + 1) (set_role w ws)) e in
      generate_chain-ind c P step rs (n + 1) (set_role w ws) vs (step r n w ws made h) rest

  pub chain_of-ind :
      (c : Chain) (P : ChainWallets → Type 0)
      → P []
      → ((r : WalletRole) (n : ℕ) (w : EncryptedWallet) (ws : ChainWallets)
          → generate_wallet wc keys app_key c r n ≡ ok w
          → P ws
          → P (set_role w ws))
      → (roles : Option (List WalletRole)) (n : ℕ) (o : Option ChainWallets)
      → chain_of wc keys app_key c roles n ≡ ok o
      → P (wallets_in o)
  unfolding chain_of
  chain_of-ind c P none_yet step none n o e =
      subst (λ o. P (wallets_in o)) (ok-injective e) none_yet
  chain_of-ind c P none_yet step (some []) n o e =
      subst (λ o. P (wallets_in o)) (ok-injective e) none_yet
  chain_of-ind c P none_yet step (some (r ∷ rs)) n o e =
      let (ws, made, same) =
        and_then-eq_ok (generate_chain wc keys app_key c (r ∷ rs) n []) (λ ws. ok (some ws)) e in
      subst (λ o. P (wallets_in o)) (ok-injective same)
        (generate_chain-ind c P step (r ∷ rs) n [] ws none_yet made)

  pub generate_wallet_bundle-eq_ok :
      (gen : WalletGen) (n m : ℕ) (b : Bundle)
      → generate_wallet_bundle wc keys app_key gen n m ≡ ok b
      → (chain_of wc keys app_key solana gen.solana_roles n ≡ ok b.solana_wallets)
        × (chain_of wc keys app_key evm gen.evm_roles m ≡ ok b.evm_wallets)
  unfolding generate_wallet_bundle
  generate_wallet_bundle-eq_ok gen n m b h =
      let (s, one, rest) =
        and_then-eq_ok (chain_of wc keys app_key solana gen.solana_roles n)
          (λ s.
            and_then (chain_of wc keys app_key evm gen.evm_roles m)
              (λ e. ok (record { solana_wallets = s; evm_wallets = e })))
          h in
      let (e, two, same) =
        and_then-eq_ok (chain_of wc keys app_key evm gen.evm_roles m)
          (λ e. ok (record { solana_wallets = s; evm_wallets = e })) rest in
      let made = ok-injective same in
      (one ∙ ap (λ b. ok b.solana_wallets) made, two ∙ ap (λ b. ok b.evm_wallets) made)
