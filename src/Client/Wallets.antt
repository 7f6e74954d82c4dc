-- ===== src/Client/Wallets.antt =====
-- client/wallet.ts: wallets that are generated in the browser, and the choice of them for a connected
-- wallet (`web3WalletGen` of client/authClient.ts).
pub mod Made
pub mod Accepted
pub mod Opens
use tetrac_login_sdk.Prelude.{
  ℕ, ◌+◌, Option, none, some, List, [], ◌∷◌, ◌++◌, Text, if◌then◌else◌, Result, ok, and_then,
}
use tetrac_login_sdk.Core.Types.{
  Chain, solana, evm, WalletRole, funds, signing, EncryptedWallet, role_eq,
}
use tetrac_login_sdk.Core.Crypto.Secrets.{WebCrypto, CipherError, encrypt_secret, decrypt_secret}

-- A key pair: the hex text of its secret, and its address.
pub record KeyPair : Type 0 where
  pub secret : Text
  pub address : Text

-- `Keypair.generate()`, `generatePrivateKey()` and the nonces, by the number of the draw.
pub record KeySource : Type 0 where
  pub solana_pair : ℕ → KeyPair
  pub evm_pair : ℕ → KeyPair
  pub nonce : ℕ → List ℕ

-- The wallets of one chain, one for a role, in the order in which their roles were first set.
abbrev pub ChainWallets : Type 0
ChainWallets = List EncryptedWallet

pub record Bundle : Type 0 where
  pub solana_wallets : Option ChainWallets
  pub evm_wallets : Option ChainWallets

pub record WalletGen : Type 0 where
  pub solana_roles : Option (List WalletRole)
  pub evm_roles : Option (List WalletRole)

abbrev pub default_wallet_gen : WalletGen
default_wallet_gen = record {
  solana_roles = some (funds ∷ signing ∷ []);
  evm_roles = some (funds ∷ signing ∷ []);
}

unfoldable pub without_funds : List WalletRole → List WalletRole
without_funds [] = []
without_funds (r ∷ rs) = let rest = without_funds rs in if role_eq r funds then rest else r ∷ rest

abbrev pub or_none : List WalletRole → Option (List WalletRole)
or_none [] = none
or_none (r ∷ rs) = some (r ∷ rs)

-- No Solana wallet of the role `funds`: the connected wallet is that one.
unfoldable pub web3_wallet_gen : WalletGen → WalletGen
unfolding without_funds
web3_wallet_gen gen = record gen {
  solana_roles = elim gen.solana_roles [ none ↦ none | some rs ↦ or_none (without_funds rs) ];
}

-- `wallets[role] = w`
unfoldable pub set_role : EncryptedWallet → ChainWallets → ChainWallets
set_role w [] = w ∷ []
set_role w (v ∷ vs) = if role_eq v.role w.role then w ∷ vs else v ∷ set_role w vs

abbrev pub pair_of : KeySource → Chain → ℕ → KeyPair
pair_of keys solana n = keys.solana_pair n
pair_of keys evm n = keys.evm_pair n

abbrev pub pair_wallet : KeySource → Chain → WalletRole → ℕ → Text → EncryptedWallet
pair_wallet keys chain role n sealed = record {
  chain = chain;
  role = role;
  public_key = (pair_of keys chain n).address;
  encrypted_secret = sealed;
}

module _ (wc : WebCrypto) (keys : KeySource) (app_key : Text) where
  -- `generateSolanaWallet` and `generateEvmWallet`.
  unfoldable pub generate_wallet : Chain → WalletRole → ℕ → Result CipherError EncryptedWallet
  unfolding encrypt_secret
  generate_wallet chain role n =
      and_then (encrypt_secret wc (keys.nonce n) (pair_of keys chain n).secret app_key)
        (λ sealed. ok (pair_wallet keys chain role n sealed))

  -- The loop over the roles, with the wallets so far and the next draw.
  unfoldable pub generate_chain :
      Chain → List WalletRole → ℕ → ChainWallets → Result CipherError ChainWallets
  unfolding generate_wallet set_role
  generate_chain chain [] n ws = ok ws
  generate_chain chain (role ∷ roles) n ws =
      and_then (generate_wallet chain role n)
        (λ w. generate_chain chain roles (n + 1) (set_role w ws))

  -- A chain with no roles is left out.
  unfoldable pub chain_of :
      Chain → Option (List WalletRole) → ℕ → Result CipherError (Option ChainWallets)
  unfolding generate_chain
  chain_of chain none n = ok none
  chain_of chain (some []) n = ok none
  chain_of chain (some (role ∷ roles)) n =
      and_then (generate_chain chain (role ∷ roles) n []) (λ ws. ok (some ws))

  -- `n` and `m` number the draws of the two chains.
  unfoldable pub generate_wallet_bundle : WalletGen → ℕ → ℕ → Result CipherError Bundle
  unfolding chain_of
  generate_wallet_bundle gen n m = and_then (chain_of solana gen.solana_roles n) (λ s.
      and_then (chain_of evm gen.evm_roles m)
        (λ e. ok (record { solana_wallets = s; evm_wallets = e })))

abbrev pub wallets_in : Option ChainWallets → List EncryptedWallet
wallets_in none = []
wallets_in (some ws) = ws

unfoldable pub flatten_bundle : Bundle → List EncryptedWallet
flatten_bundle b = wallets_in b.solana_wallets ++ wallets_in b.evm_wallets

unfoldable pub decrypt_wallet_secret : WebCrypto → EncryptedWallet → Text → Result CipherError Text
unfolding decrypt_secret
decrypt_wallet_secret wc w app_key = decrypt_secret wc w.encrypted_secret app_key
