-- ===== src/Storage/Sql/Query.antt =====
-- The rows of a table under SELECT, DELETE, UPDATE and an upsert, and what a lookup finds after them.
use tetrac_login_sdk.Prelude.{
  ℕ, zero, suc, ◌≡◌, refl, ◌∙◌, Bool, true, false, not, ◌&&◌, ◌||◌, Option, none, some, List, [],
  ◌∷◌, ◌++◌, if◌then◌else◌, Bool-cases, inl, inr, arith,
}

module _ {R : Type 0} where
  -- SELECT * FROM t WHERE p
  unfoldable pub rows_where : (R → Bool) → List R → List R
  rows_where p [] = []
  rows_where p (r ∷ t) = let rest = rows_where p t in if p r then r ∷ rest else rest

  -- DELETE FROM t WHERE p
  unfoldable pub delete_where : (R → Bool) → List R → List R
  unfolding rows_where
  delete_where p t = rows_where (λ r. not (p r)) t

  -- UPDATE t SET f WHERE p
  unfoldable pub change_where : (R → Bool) → (R → R) → List R → List R
  change_where p f [] = []
  change_where p f (r ∷ t) = (if p r then f r else r) ∷ change_where p f t

  -- DELETE FROM t WHERE p LIMIT n
  unfoldable pub delete_up_to : ℕ → (R → Bool) → List R → List R
  delete_up_to zero p t = t
  delete_up_to (suc n) p [] = []
  delete_up_to (suc n) p (r ∷ t) =
      let fewer = delete_up_to n p t in
      let as_many = delete_up_to (suc n) p t in if p r then fewer else r ∷ as_many

  unfoldable pub some_row : (R → Bool) → List R → Bool
  some_row p [] = false
  some_row p (r ∷ t) = p r || some_row p t

  -- INSERT INTO t new, and f of the rows p on a conflict with them.
  unfoldable pub upsert : (R → Bool) → (R → R) → R → List R → List R
  unfolding change_where some_row
  upsert p f new t = if some_row p t then change_where p f t else t ++ (new ∷ [])

  -- The first row of an answer.
  unfoldable pub find : (R → Bool) → List R → Option R
  find p [] = none
  find p (r ∷ t) = let rest = find p t in if p r then some r else rest

  module _ (q : R → Bool) where
    find-append : (t : List R) (new : R) → q new ≡ false → find q (t ++ (new ∷ [])) ≡ find q t
    unfolding find
    find-append [] new h = rw h refl
    find-append (r ∷ t) new h = rw (find-append t new h) refl

    pub find-append_fresh :
        (t : List R) (new : R)
        → find q t ≡ none
        → find q (t ++ (new ∷ [])) ≡ (if q new then some new else none)
    unfolding find
    find-append_fresh [] new h = refl
    find-append_fresh (r ∷ t) new h = ground (arith, find-append_fresh t new)

    pub find-append_found :
        (t more : List R) (r : R) → find q t ≡ some r → find q (t ++ more) ≡ some r
    unfolding find
    find-append_found [] more r h = absurd (ground arith)
    find-append_found (s ∷ t) more r h = ground (arith, find-append_found t more r)

    module _ (p : R → Bool) where
      pub find-change_other :
          (f : R → R) (t : List R)
          → ((r : R) → p r ≡ true → (q r ≡ false) × (q (f r) ≡ false))
          → find q (change_where p f t) ≡ find q t
      unfolding find change_where
      find-change_other f [] other = refl
      find-change_other f (r ∷ t) other =
          let rest = find-change_other f t other in
          elim (Bool-cases (p r)) [
            | inl hit ↦ (let (a, b) = other r hit in rw (hit, a, b) rest)
            | inr miss ↦ rw miss (rw rest refl)
          ]

      -- An upsert of a row that the lookup does not see.
      pub find-upsert_other :
          (f : R → R) (new : R) (t : List R)
          → ((r : R) → p r ≡ true → (q r ≡ false) × (q (f r) ≡ false))
          → q new ≡ false
          → find q (upsert p f new t) ≡ find q t
      unfolding upsert
      find-upsert_other f new t other h = elim (Bool-cases (some_row p t)) [
        | inl hit ↦ rw hit (find-change_other f t other)
        | inr miss ↦ rw miss (find-append t new h)
      ]

      pub find-delete_other :
          (t : List R) → ((r : R) → p r ≡ true → q r ≡ false) → find q (delete_where p t) ≡ find q t
      unfolding find delete_where rows_where
      find-delete_other [] other = refl
      find-delete_other (r ∷ t) other =
          let rest = find-delete_other t other in
          elim (Bool-cases (p r)) [
            | inl hit ↦ rw (hit, other r hit) rest
            | inr miss ↦ rw miss (rw rest refl)
          ]

      pub find-delete_up_to :
          (n : ℕ) (t : List R)
          → ((r : R) → p r ≡ true → q r ≡ false)
          → find q (delete_up_to n p t) ≡ find q t
      unfolding find delete_up_to
      find-delete_up_to zero t other = refl
      find-delete_up_to (suc n) [] other = refl
      find-delete_up_to (suc n) (r ∷ t) other =
          let fewer = find-delete_up_to n t other in
          let as_many = find-delete_up_to (suc n) t other in
          elim (Bool-cases (p r)) [
            | inl hit ↦ rw (hit, other r hit) fewer
            | inr miss ↦ rw miss (rw as_many refl)
          ]

      pub find-delete_same :
          (t : List R) → ((r : R) → p r ≡ false → q r ≡ false) → find q (delete_where p t) ≡ none
      unfolding find delete_where rows_where
      find-delete_same [] covered = refl
      find-delete_same (r ∷ t) covered =
          let rest = find-delete_same t covered in
          elim (Bool-cases (p r)) [
            | inl hit ↦ rw hit rest
            | inr miss ↦ rw (miss, covered r miss) rest
          ]

      find-none :
          (t : List R)
          → ((r : R) → p r ≡ false → q r ≡ false)
          → some_row p t ≡ false
          → find q t ≡ none
      unfolding find some_row
      find-none [] covered h = refl
      find-none (r ∷ t) covered h =
          rw (covered r (ground arith)) (find-none t covered (ground arith))

      find-change_same :
          (f : R → R) (new : R) (t : List R)
          → ((r : R) → p r ≡ false → q r ≡ false)
          → ((r : R) → p r ≡ true → f r ≡ new)
          → find q (change_where p f t) ≡ (if some_row p t && q new then some new else none)
      unfolding find change_where some_row
      find-change_same f new [] covered same = refl
      find-change_same f new (r ∷ t) covered same =
          let rest = find-change_same f new t covered same in
          elim (Bool-cases (p r)) [
            | inl hit ↦ rw (hit, same r hit, rest) (ground arith)
            | inr miss ↦ rw (miss, covered r miss, rest) refl
          ]

      -- An upsert of the row that the lookup looks for.
      pub find-upsert_same :
          (f : R → R) (new : R) (t : List R)
          → ((r : R) → p r ≡ false → q r ≡ false)
          → ((r : R) → p r ≡ true → f r ≡ new)
          → find q (upsert p f new t) ≡ (if q new then some new else none)
      unfolding upsert
      find-upsert_same f new t covered same = elim (Bool-cases (some_row p t)) [
        | inl hit ↦ rw hit (find-change_same f new t covered same ∙ rw hit refl)
        | inr miss ↦ rw miss (find-append_fresh t new (find-none t covered miss))
      ]

  module _ (p : R → Bool) (f : R → R) (keeps : (r : R) → p r ≡ true → p (f r) ≡ true) where
    -- A row is among those that satisfy its own test.
    some_row-find : (t : List R) → some_row p t ≡ (elim (find p t) [ none ↦ false | some r ↦ true ])
    unfolding some_row find
    some_row-find [] = refl
    some_row-find (r ∷ t) = ground (arith, some_row-find t)

    find-change :
        (t : List R)
        → find p (change_where p f t) ≡ (elim (find p t) [ none ↦ none | some r ↦ some (f r) ])
    unfolding find change_where
    find-change [] = refl
    find-change (r ∷ t) = elim (Bool-cases (p r)) [
      | inl hit ↦ rw (hit, keeps r hit) refl
      | inr miss ↦ rw miss (rw miss (find-change t))
    ]

    -- An upsert of the rows that the lookup finds: the first of them is changed, or the new row is there.
    pub find-upsert :
        (new : R) (t : List R)
        → p new ≡ true
        → find p (upsert p f new t) ≡ some (elim (find p t) [ none ↦ new | some r ↦ f r ])
    unfolding upsert
    find-upsert new t h = rw (some_row-find t) (at (find p t) refl)
      where
        at :
            (o : Option R)
            → find p t ≡ o
            → find p (
                if (elim o [ none ↦ false | some r ↦ true ])
                then change_where p f t
                else t ++ (new ∷ []))
              ≡ some (elim o [ none ↦ new | some r ↦ f r ])
        at none e = find-append_fresh p t new e ∙ rw h refl
        at (some r) e = find-change t ∙ rw e refl
