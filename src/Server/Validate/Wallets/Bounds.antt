-- ===== src/Server/Validate/Wallets/Bounds.antt =====
-- What `readWallets` (server/routes.ts) lets through.
use tetrac_login_sdk.Prelude.{
  subst, ◌≤◌, ◌≡◌, refl, Bool, false, ◌&&◌, List, [], ◌∷◌, Option, none, some, String, length, All,
  Result, ok, err, Text, arith,
}
use tetrac_login_sdk.Core.Js.{Js, arr, str, items, prop}
use tetrac_login_sdk.Core.Types.{Chain, WalletRole, EncryptedWallet, chain_eq, role_eq}
use tetrac_login_sdk.Server.Validate.Wallets.{
  Slots, has_slot, read_slot, read_texts, read_wallet, read_role, read_chain, read_entries,
  read_wallets,
}

-- Two wallets in one slot.
abbrev pub same_slot : EncryptedWallet → EncryptedWallet → Bool
same_slot v w = chain_eq v.chain w.chain && role_eq v.role w.role

unfoldable pub DistinctSlots : List EncryptedWallet → Type 0
DistinctSlots [] = Unit
DistinctSlots (w ∷ ws) = All (λ v. same_slot w v ≡ false) ws × DistinctSlots ws

abbrev pub IsBounded : EncryptedWallet → Type 0
IsBounded w = (length w.public_key ≤ 128) × (length w.encrypted_secret ≤ 8192)

abbrev Unseen : Slots → EncryptedWallet → Type 0
Unseen seen w = has_slot w.chain w.role seen ≡ false

read_slot_lem :
    (key secret : Text) (role : Option WalletRole) (chain : Option Chain) (seen : Slots)
    {w : EncryptedWallet}
    → length key ≤ 128
    → read_slot key secret role chain seen ≡ ok w
    → IsBounded w × Unseen seen w
unfolding read_slot
read_slot_lem key secret none chain seen b h = absurd (ground arith)
read_slot_lem key secret (some r) none seen b h = absurd (ground arith)
read_slot_lem key secret (some r) (some c) seen b h = ground arith

read_texts_lem :
    (key secret : Js) (role : Option WalletRole) (chain : Option Chain) (seen : Slots)
    {w : EncryptedWallet}
    → read_texts key secret role chain seen ≡ ok w
    → IsBounded w × Unseen seen w
unfolding read_texts
read_texts_lem (str key) (str secret) role chain seen h =
    read_slot_lem key secret role chain seen (ground arith) (ground arith)
read_texts_lem _ _ role chain seen h = absurd (ground arith)

read_wallet_lem :
    (e : Js) (seen : Slots) {w : EncryptedWallet}
    → read_wallet e seen ≡ ok w
    → IsBounded w × Unseen seen w
unfolding read_wallet
read_wallet_lem e seen h =
    read_texts_lem (prop "publicKey" e) (prop "encryptedSecret" e) (read_role (prop "role" e))
      (read_chain (prop "chain" e)) seen h

-- Slots that were not seen after a wallet are neither its own nor one seen before it.
not_seen_before :
    (w : EncryptedWallet) (seen : Slots) (ws : List EncryptedWallet)
    → All (Unseen ((w.chain, w.role) ∷ seen)) ws
    → All (λ v. same_slot w v ≡ false) ws × All (Unseen seen) ws
unfolding has_slot
not_seen_before w seen [] h = (tt, tt)
not_seen_before w seen (v ∷ ws) h =
    let rest = not_seen_before w seen ws h.1 in ((ground arith, rest.0), (ground arith, rest.1))

abbrev Accepted : Slots → List Js → List EncryptedWallet → Type 0
Accepted seen es ws =
    (length ws ≡ length es) × All (Unseen seen) ws × DistinctSlots ws × All IsBounded ws

-- A round of the loop, given what the rounds after it accept.
accept_entry :
    (e : Js) (es : List Js) (seen : Slots) (ws : List EncryptedWallet)
    → ((after : Slots) (vs : List EncryptedWallet)
        → read_entries es after ≡ ok vs
        → Accepted after es vs)
    → read_entries (e ∷ es) seen ≡ ok ws
    → Accepted seen (e ∷ es) ws
unfolding read_entries DistinctSlots
accept_entry e es seen ws later h = first (read_wallet e seen) refl h
  where
    second :
        (w : EncryptedWallet) (r : Result String (List EncryptedWallet))
        → read_wallet e seen ≡ ok w
        → read_entries es ((w.chain, w.role) ∷ seen) ≡ r
        → (elim r [ err m ↦ err m | ok vs ↦ ok (w ∷ vs) ]) ≡ ok ws
        → Accepted seen (e ∷ es) ws
    second w (err m) one more h = absurd (ground arith)
    second w (ok vs) one more h =
        let (size, unseen, distinct, bounded) = later ((w.chain, w.role) ∷ seen) vs more in
        let head = read_wallet_lem e seen one in
        let apart = not_seen_before w seen vs unseen in
        let same : w ∷ vs ≡ ws = ground arith in
        subst (Accepted seen (e ∷ es)) same
          (omega arith, (head.1, apart.1), (apart.0, distinct), (head.0, bounded))

    first :
        (r : Result String EncryptedWallet)
        → read_wallet e seen ≡ r
        → (elim r [
          | err m ↦ err m
          | ok w ↦ elim (read_entries es ((w.chain, w.role) ∷ seen)) [
            | err m ↦ err m
            | ok vs ↦ ok (w ∷ vs)
          ]
        ])
          ≡ ok ws
        → Accepted seen (e ∷ es) ws
    first (err m) one h = absurd (ground arith)
    first (ok w) one h = second w (read_entries es ((w.chain, w.role) ∷ seen)) one refl h

read_entries_lem :
    (es : List Js) (seen : Slots) (ws : List EncryptedWallet)
    → read_entries es seen ≡ ok ws
    → Accepted seen es ws
unfolding read_entries DistinctSlots
read_entries_lem [] seen [] h = (refl, tt, tt, tt)
read_entries_lem [] seen (w ∷ ws) h = absurd (ground arith)
read_entries_lem (e ∷ es) seen ws h = accept_entry e es seen ws (read_entries_lem es) h

abbrev pub entries_of : Js → List Js
entries_of (arr vs) = items vs
entries_of _ = []

-- A payload of wallets that is accepted comes to at most one wallet for each of the four slots,
-- one for each entry, and every key and secret is within its limit.
pub read_wallets_lem :
    (payload : Js) (ws : List EncryptedWallet)
    → read_wallets payload ≡ ok ws
    → (length ws ≤ 4)
      × (length ws ≡ length (entries_of payload))
      × DistinctSlots ws
      × All IsBounded ws
unfolding read_wallets
read_wallets_lem (arr vs) ws h =
    let (size, unseen, distinct, bounded) = read_entries_lem (items vs) [] ws (ground arith) in
    (ground arith, size, distinct, bounded)
read_wallets_lem _ ws h = absurd (ground arith)
