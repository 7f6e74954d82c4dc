-- ===== src/Storage/Kv/Challenges.antt =====
-- `putChallenge` and `takeChallenge` (storage/store.ts) over the in-memory adapter.
use tetrac_login_sdk.Prelude.{
  ℕ, suc, ◌+◌, ◌*◌, ◌≡◌, refl, sym, ap, ◌∙◌, ◌∷◌, ◌++◌, append_cancel, append_assoc, Bool, true,
  false, none, some, Text, codes, lacks, ltb, is_some, text_eq, text_eq_refl, text_eq_iff,
  split_unique, Result, ok, Bool-cases, inl, inr, arith,
}
use tetrac_login_sdk.Core.Platform.{Platform}
use tetrac_login_sdk.Core.Config.{KeyPrefixes}
use tetrac_login_sdk.Effect.{World, Fault}
use tetrac_login_sdk.Storage.Map.{lookup, lookup-remove}
use tetrac_login_sdk.Storage.Keys.{app_scoped}
use tetrac_login_sdk.Storage.Memory.{Memory, memory_adapter, drop_entry, getdel, is_expired}
use tetrac_login_sdk.Storage.Memory.Laws.{
  live, unless_expired, purged, live-set, getdel_lem, live-getdel, lookup_of_live,
}
use tetrac_login_sdk.Storage.Kv.{JsonCodec, put_challenge, take_challenge, challenge_key}

module _ (p : Platform) (json : JsonCodec) (prefixes : KeyPrefixes) where
  abbrev pub name : Text → Text → Text → Text
  name app_id pk challenge = challenge_key p json memory_adapter prefixes app_id pk challenge

  abbrev pub issue : Text → Text → Text → ℕ → World Memory → World Memory
  issue app_id pk challenge ttl w =
      (put_challenge p json memory_adapter prefixes app_id pk challenge ttl w).1

  abbrev pub take : Text → Text → Text → World Memory → Result Fault Bool × World Memory
  take app_id pk challenge w = take_challenge p json memory_adapter prefixes app_id pk challenge w

  abbrev pub later : ℕ → World Memory → World Memory
  later t w = record w { now = t }

  take_lem :
      (app_id pk challenge : Text) (w : World Memory)
      → take app_id pk challenge w ≡ (
        ok (is_some (live (name app_id pk challenge) w)),
        drop_entry (name app_id pk challenge) (purged (name app_id pk challenge) w),
      )
  unfolding take_challenge
  take_lem app_id pk challenge w = rw (getdel_lem (name app_id pk challenge) w) (ground arith)

  gone :
      (app_id pk challenge : Text) (w : World Memory)
      → lookup (name app_id pk challenge) (take app_id pk challenge w).1.state.store ≡ none
  unfolding drop_entry
  gone app_id pk challenge w = rw (take_lem app_id pk challenge w) (
      lookup-remove (name app_id pk challenge) (name app_id pk challenge) _
      ∙ rw (text_eq_refl (name app_id pk challenge)) refl)

  issued :
      (app_id pk challenge : Text) (seconds : ℕ) (w : World Memory)
      → lookup (name app_id pk challenge) (issue app_id pk challenge (suc seconds) w).state.store
        ≡ some (record { value = codes "1"; expires_at = some (w.now + suc seconds * 1000) })
  unfolding put_challenge
  issued app_id pk challenge seconds w =
      lookup_of_live (name app_id pk challenge) (issue app_id pk challenge (suc seconds) w) _ (
        live-set (name app_id pk challenge) w (codes "1") (some (suc seconds))
          (name app_id pk challenge)
        ∙ rw (text_eq_refl (name app_id pk challenge)) refl)

  -- An issued challenge is taken exactly once, and only before its deadline: the first try answers
  -- whether the deadline is still to come, and every later one answers no.
  pub taken_once :
      (app_id pk challenge : Text) (seconds t t' : ℕ) (w : World Memory)
      → ((take app_id pk challenge (later t (issue app_id pk challenge (suc seconds) w))).0
          ≡ ok (ltb t (w.now + suc seconds * 1000)))
        × ((take app_id pk challenge (
              later t'
                (take app_id pk challenge
                  (later t (issue app_id pk challenge (suc seconds) w))).1)).0
            ≡ ok false)
  unfolding live unless_expired is_expired
  taken_once app_id pk challenge seconds t t' w = (
    ap (λ x. x.0)
          (take_lem app_id pk challenge (later t (issue app_id pk challenge (suc seconds) w)))
        ∙ rw (issued app_id pk challenge seconds w) (ground arith),
    ap (λ x. x.0)
          (take_lem app_id pk challenge (
            later t'
              (take app_id pk challenge (later t (issue app_id pk challenge (suc seconds) w))).1))
        ∙ rw (gone app_id pk challenge (later t (issue app_id pk challenge (suc seconds) w))) refl,
  )

  taken_state :
      (app_id pk challenge : Text) (w : World Memory)
      → (take app_id pk challenge w).1 ≡ (getdel (name app_id pk challenge) w).1
  taken_state app_id pk challenge w =
      ap (λ x. x.1) (take_lem app_id pk challenge w)
      ∙ sym (ap (λ x. x.1) (getdel_lem (name app_id pk challenge) w))

  pub name-injective :
      (app_id pk challenge app_id' pk' challenge' : Text)
      → (lacks b':' app_id ≡ true) × (lacks b':' app_id' ≡ true)
      → (lacks b':' pk ≡ true) × (lacks b':' pk' ≡ true)
      → name app_id pk challenge ≡ name app_id' pk' challenge'
      → (app_id ≡ app_id') × (pk ≡ pk') × (challenge ≡ challenge')
  unfolding app_scoped
  name-injective app_id pk challenge app_id' pk' challenge' a k e =
      let split : (x y c : Text)
          → name x y c ≡ prefixes.challenge ++ (x ++ (b':' ∷ (y ++ (b':' ∷ c)))) =
        λ x y c.
          append_assoc prefixes.challenge (x ++ (b':' ∷ y)) (b':' ∷ c)
          ∙ ap (λ t. prefixes.challenge ++ t) (append_assoc x (b':' ∷ y) (b':' ∷ c)) in
      let first = split_unique b':' app_id app_id' _ _ a.0 a.1 (
        append_cancel prefixes.challenge
          (sym (split app_id pk challenge) ∙ (e ∙ split app_id' pk' challenge'))) in
      let second = split_unique b':' pk pk' _ _ k.0 k.1 first.1 in (first.0, second.0, second.1)

  -- Issuing or taking one challenge changes no other: not that of another app, of another key, or
  -- another one of the same key, where neither app ids nor keys hold a colon.
  others_kept :
      (app_id pk challenge app_id' pk' challenge' : Text) (ttl : ℕ) (w : World Memory)
      → (lacks b':' app_id ≡ true) × (lacks b':' app_id' ≡ true)
      → (lacks b':' pk ≡ true) × (lacks b':' pk' ≡ true)
      → ((app_id ≡ app_id') × (pk ≡ pk') × (challenge ≡ challenge') → ⊥)
      → ((take app_id pk challenge (issue app_id' pk' challenge' ttl w)).0
          ≡ (take app_id pk challenge w).0)
        × ((take app_id pk challenge (take app_id' pk' challenge' w).1).0
            ≡ (take app_id pk challenge w).0)
  unfolding put_challenge take_challenge
  others_kept app_id pk challenge app_id' pk' challenge' ttl w a k other =
      elim (Bool-cases (text_eq (name app_id' pk' challenge') (name app_id pk challenge))) [
        | inl same ↦ absurd (
            other (
              name-injective app_id pk challenge app_id' pk' challenge' a k (
                sym
                  ((text_eq_iff (name app_id' pk' challenge') (name app_id pk challenge)).0 same))))
        | inr apart ↦ (
          same_answer (issue app_id' pk' challenge' ttl w) w (
              live-set (name app_id' pk' challenge') w (codes "1") (some ttl)
                (name app_id pk challenge)
              ∙ rw apart refl),
          same_answer (take app_id' pk' challenge' w).1 w (
              ap (λ x. live (name app_id pk challenge) x) (taken_state app_id' pk' challenge' w)
              ∙ (live-getdel (name app_id' pk' challenge') w (name app_id pk challenge)
                  ∙ rw apart refl)),
        )
      ]
    where
      same_answer :
          (u v : World Memory)
          → live (name app_id pk challenge) u ≡ live (name app_id pk challenge) v
          → (take app_id pk challenge u).0 ≡ (take app_id pk challenge v).0
      same_answer u v e =
          ap (λ x. x.0) (take_lem app_id pk challenge u)
          ∙ (ap (λ o. ok (is_some o)) e ∙ sym (ap (λ x. x.0) (take_lem app_id pk challenge v)))
