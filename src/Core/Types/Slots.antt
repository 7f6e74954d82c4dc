-- ===== src/Core/Types/Slots.antt =====
-- `sortWalletsBySlot` (core/types.ts) and the order of the slots.
use tetrac_login_sdk.Prelude.{
  ℕ, ◌≤◌, ◌≡◌, refl, ap, ◌∙◌, ◌+◌, Bool, List, [], ◌∷◌, All, leb, if◌then◌else◌, Bool-cases, inl,
  inr, arith,
}
use tetrac_login_sdk.Core.Types.{EncryptedWallet, rank, insert_by_rank, sort_wallets_by_slot}

-- No wallet stands before one of an earlier slot.
pub InSlotOrder : List EncryptedWallet → Type 0
InSlotOrder [] = Unit
InSlotOrder (w ∷ ws) = All (λ v. rank w ≤ rank v) ws × InSlotOrder ws

ranked_after_insert :
    (n : ℕ) (w : EncryptedWallet) (ws : List EncryptedWallet)
    → n ≤ rank w
    → All (λ v. n ≤ rank v) ws
    → All (λ v. n ≤ rank v) (insert_by_rank w ws)
unfolding insert_by_rank
ranked_after_insert n w [] h rest = (h, tt)
ranked_after_insert n w (v ∷ vs) h rest =
    let later = ranked_after_insert n w vs h rest.1 in
    elim (Bool-cases (leb (rank w) (rank v))) [
      | inl before ↦ rw before (h, rest)
      | inr after ↦ rw after (rest.0, later)
    ]

ranked_above :
    (n m : ℕ) (ws : List EncryptedWallet)
    → n ≤ m
    → All (λ v. m ≤ rank v) ws
    → All (λ v. n ≤ rank v) ws
ranked_above n m [] h rest = tt
ranked_above n m (v ∷ vs) h rest = (omega (arith, rest.0), ranked_above n m vs h rest.1)

insert_by_rank-InSlotOrder :
    (w : EncryptedWallet) (ws : List EncryptedWallet)
    → InSlotOrder ws
    → InSlotOrder (insert_by_rank w ws)
unfolding insert_by_rank InSlotOrder
insert_by_rank-InSlotOrder w [] h = (tt, tt)
insert_by_rank-InSlotOrder w (v ∷ vs) h =
    let later = insert_by_rank-InSlotOrder w vs h.1 in
    elim (Bool-cases (leb (rank w) (rank v))) [
      | inl before ↦
          let le : rank w ≤ rank v = ground arith in
          rw before ((le, ranked_above (rank w) (rank v) vs le h.0), h)
      | inr after ↦
          let le : rank v ≤ rank w = ground arith in
          rw after (ranked_after_insert (rank v) w vs le h.0, later)
    ]

abbrev pub count : (EncryptedWallet → Bool) → List EncryptedWallet → ℕ
count p [] = 0
count p (w ∷ ws) = (if p w then 1 else 0) + count p ws

count-insert_by_rank :
    (p : EncryptedWallet → Bool) (w : EncryptedWallet) (ws : List EncryptedWallet)
    → count p (insert_by_rank w ws) ≡ count p (w ∷ ws)
unfolding insert_by_rank
count-insert_by_rank p w [] = refl
count-insert_by_rank p w (v ∷ vs) =
    let later = count-insert_by_rank p w vs in
    elim (Bool-cases (leb (rank w) (rank v))) [
      | inl before ↦ rw before refl
      | inr after ↦ rw after (omega arith)
    ]

-- The wallets of a record come out in the order of their slots, and are the wallets that went in:
-- as many of any description.
sort_wallets_by_slot_lem :
    (ws : List EncryptedWallet)
    → InSlotOrder (sort_wallets_by_slot ws)
      × ((p : EncryptedWallet → Bool) → count p (sort_wallets_by_slot ws) ≡ count p ws)
unfolding sort_wallets_by_slot InSlotOrder
sort_wallets_by_slot_lem [] = (tt, λ p. refl)
sort_wallets_by_slot_lem (w ∷ ws) =
    let (order, counts) = sort_wallets_by_slot_lem ws in
    (
      insert_by_rank-InSlotOrder w (sort_wallets_by_slot ws) order,
      λ p.
          count-insert_by_rank p w (sort_wallets_by_slot ws)
          ∙ ap (λ n. (if p w then 1 else 0) + n) (counts p),
    )
