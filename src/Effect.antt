-- ===== src/Effect.antt =====
-- Asynchronous code that may reject: an action on the state of a store, the clock and the supply of
-- random bytes. What was written before a rejection stays written. Each `await` is one step of the
-- chain, and a request runs with no other between its steps unless a theorem says otherwise.
use tetrac_login_sdk.Prelude.{ℕ, ◌≡◌, refl, Result, ok, err, arith}

pub data Fault : Type 0 where
  -- A `TypeError` of the language.
  type_error : Fault
  -- `JSON.parse` of a stored record.
  parse_error : Fault
  -- `EmailTakenError`
  email_taken : Fault
  -- A failed assertion of the conformance suite.
  assertion_failed : Fault
  -- Anything that a storage backend throws.
  backend_failed : Fault

pub record World (S : Type 0) : Type 0 where
  pub state : S
  -- How often random bytes were drawn.
  pub draws : ℕ
  -- `Date.now()`, in milliseconds.
  pub now : ℕ

abbrev pub Act : Type 0 → Type 0 → Type 0
Act S A = World S → Result Fault A × World S

module _ {S A : Type 0} where
  abbrev pub pure : A → Act S A
  pure a w = (ok a, w)

  abbrev pub throw : Fault → Act S A
  throw e w = (err e, w)

module _ {S A B : Type 0} where
  abbrev pub continue : Result Fault A → (A → Act S B) → Act S B
  continue (ok a) f w = f a w
  continue (err e) f w = (err e, w)

  infixl 5 ◌>>=◌ ◌>>◌
  unfoldable pub ◌>>=◌ : Act S A → (A → Act S B) → Act S B
  ◌>>=◌ m f w = let r = m w in continue r.0 f r.1

  unfoldable pub ◌>>◌ : Act S A → Act S B → Act S B
  ◌>>◌ m n w = let r = m w in continue r.0 (λ _. n) r.1

  -- What a chain that returned went through.
  pub >>=-eq_ok :
      (m : Act S A) (f : A → Act S B) (w : World S) {b : B} {v : World S}
      → (m >>= f) w ≡ (ok b, v)
      → (a : A) × (u : World S) × (m w ≡ (ok a, u)) × (f a u ≡ (ok b, v))
  unfolding ◌>>=◌
  >>=-eq_ok m f w {b} {v} h = split (m w) h
    where
      split :
          (r : Result Fault A × World S)
          → continue r.0 f r.1 ≡ (ok b, v)
          → (a : A) × (u : World S) × (r ≡ (ok a, u)) × (f a u ≡ (ok b, v))
      split (ok a, u) h = (a, u, refl, h)
      split (err e, u) h = absurd (ground arith)

  pub >>-eq_ok :
      (m : Act S A) (n : Act S B) (w : World S) {b : B} {v : World S}
      → (m >> n) w ≡ (ok b, v)
      → (a : A) × (u : World S) × (m w ≡ (ok a, u)) × (n u ≡ (ok b, v))
  unfolding ◌>>◌
  >>-eq_ok m n w h = >>=-eq_ok m (λ _. n) w (unfold ◌>>=◌ in h)
