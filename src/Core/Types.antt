-- ===== src/Core/Types.antt =====
-- core/types.ts: wallets, their slots, and the user record.
pub mod Slots
use tetrac_login_sdk.Prelude.{
  ℕ, suc, Bool, true, false, ◌&&◌, List, [], ◌∷◌, Option, Text, leb, if◌then◌else◌,
}
use tetrac_login_sdk.Core.Js.{Js}
use tetrac_login_sdk.Core.Offchain.{OffchainEnvelope}

pub data Chain : Type 0 where
  solana evm : Chain

pub data WalletRole : Type 0 where
  funds signing : WalletRole

pub data AuthMethod : Type 0 where
  email wallet biometric : AuthMethod

pub record EncryptedWallet : Type 0 where
  pub chain : Chain
  pub role : WalletRole
  pub public_key : Text
  pub encrypted_secret : Text

abbrev pub chain_eq : Chain → Chain → Bool
chain_eq solana solana = true
chain_eq evm evm = true
chain_eq _ _ = false

abbrev pub role_eq : WalletRole → WalletRole → Bool
role_eq funds funds = true
role_eq signing signing = true
role_eq _ _ = false

abbrev pub wallet_slots : List (Chain × WalletRole)
wallet_slots = (solana, funds) ∷ (solana, signing) ∷ (evm, funds) ∷ (evm, signing) ∷ []

-- `findIndex`, with the length of the list for -1.
unfoldable pub find_slot : Chain → WalletRole → List (Chain × WalletRole) → ℕ
find_slot c r [] = 0
find_slot c r ((d, s) ∷ slots) =
    if chain_eq d c && role_eq s r then 0 else suc (find_slot c r slots)

unfoldable pub rank : EncryptedWallet → ℕ
unfolding find_slot
rank w = find_slot w.chain w.role wallet_slots

-- `Array.prototype.sort` is stable: a wallet stays before a later one of its rank.
unfoldable pub insert_by_rank : EncryptedWallet → List EncryptedWallet → List EncryptedWallet
unfolding rank
insert_by_rank w [] = w ∷ []
insert_by_rank w (v ∷ vs) = if leb (rank w) (rank v) then w ∷ v ∷ vs else v ∷ insert_by_rank w vs

unfoldable pub sort_wallets_by_slot : List EncryptedWallet → List EncryptedWallet
unfolding insert_by_rank
sort_wallets_by_slot [] = []
sort_wallets_by_slot (w ∷ ws) = insert_by_rank w (sort_wallets_by_slot ws)

-- The optional `email` and `authPublicKey` are kept as the request's values, because a falsy value
-- of any type passes the handlers' checks. Of the other optional fields `none` is absent or null.
pub record UserData : Type 0 where
  pub app_id : Text
  pub public_key : Text
  pub email : Js
  pub auth_public_key : Js
  pub auth_method : AuthMethod
  pub wallets : List EncryptedWallet
  pub created_at : ℕ
  pub pbkdf2_iterations : Option ℕ
  pub offchain_envelope : Option OffchainEnvelope
  pub auth_token_hash : Option Text
  -- The raw token of records before v0.5.0, one of the extra fields.
  pub auth_token : Js
