-- ===== src/Server/Validate/Wallets.antt =====
-- `readWallets` of server/routes.ts: a payload of wallets is rebuilt from its checked fields.
pub mod Bounds
use tetrac_login_sdk.Prelude.{
  Bool, false, ◌&&◌, ◌||◌, List, [], ◌∷◌, Option, none, some, String, Text, codes, text_eq, length,
  ltb, if◌then◌else◌, Result, ok, err,
}
use tetrac_login_sdk.Core.Js.{Js, str, arr, items, prop}
use tetrac_login_sdk.Core.Types.{
  Chain, solana, evm, WalletRole, funds, signing, EncryptedWallet, wallet_slots, chain_eq, role_eq,
}

unfoldable pub read_role : Js → Option WalletRole
read_role (str s) =
    if text_eq s (codes "funds")
    then some funds
    else if text_eq s (codes "signing")
    then some signing
    else none
read_role _ = none

unfoldable pub read_chain : Js → Option Chain
read_chain (str s) =
    if text_eq s (codes "solana")
    then some solana
    else if text_eq s (codes "evm")
    then some evm
    else none
read_chain _ = none

abbrev pub Slots : Type 0
Slots = List (Chain × WalletRole)

-- `seen.has(slot)`
unfoldable pub has_slot : Chain → WalletRole → Slots → Bool
has_slot c r [] = false
has_slot c r ((d, s) ∷ slots) = (chain_eq d c && role_eq s r) || has_slot c r slots

-- The checks from the role on.
unfoldable pub read_slot :
    Text → Text → Option WalletRole → Option Chain → Slots → Result String EncryptedWallet
unfolding has_slot
read_slot key secret none chain seen = err "invalid wallet entry"
read_slot key secret (some role) none seen = err "invalid wallet entry"
read_slot key secret (some role) (some chain) seen =
    if ltb 8192 (length secret)
    then err "encryptedSecret too large"
    else if has_slot chain role seen
    then err "duplicate wallet slot"
    else ok (record { chain = chain; role = role; public_key = key; encrypted_secret = secret })

unfoldable pub read_texts :
    Js → Js → Option WalletRole → Option Chain → Slots → Result String EncryptedWallet
unfolding read_slot
read_texts (str key) (str secret) role chain seen =
    if ltb 128 (length key)
    then err "wallet publicKey too long"
    else read_slot key secret role chain seen
read_texts key secret role chain seen = err "invalid wallet entry"

-- One round of the loop.
unfoldable pub read_wallet : Js → Slots → Result String EncryptedWallet
unfolding read_texts read_role read_chain
read_wallet e seen =
    read_texts (prop "publicKey" e) (prop "encryptedSecret" e) (read_role (prop "role" e))
      (read_chain (prop "chain" e)) seen

unfoldable pub read_entries : List Js → Slots → Result String (List EncryptedWallet)
unfolding read_wallet
read_entries [] seen = ok []
read_entries (e ∷ es) seen = elim (read_wallet e seen) [
  | err m ↦ err m
  | ok w ↦ elim (read_entries es ((w.chain, w.role) ∷ seen)) [ err m ↦ err m | ok ws ↦ ok (w ∷ ws) ]
]

unfoldable pub read_wallets : Js → Result String (List EncryptedWallet)
unfolding read_entries items
read_wallets (arr vs) =
    if ltb (length wallet_slots) (length (items vs))
    then err "too many wallets"
    else read_entries (items vs) []
read_wallets _ = err "wallets must be an array"
