-- ===== src/Ledger/Verified.antt =====
-- The signatures of a device (ledger/solanaSigner.ts) at the server that verifies them
-- (server/signature.ts).
use tetrac_login_sdk.Prelude.{
  length, ap, ◌∙◌, subst, ℕ, ◌≡◌, refl, Bool, true, false, Bool-cases, inl, inr, Option, none, some,
  List, [], ◌∷◌, Result, ok, err, and_then-eq_ok, then?, arith, if◌then◌else◌,
}
use tetrac_login_sdk.Core.Platform.{Platform}
use tetrac_login_sdk.Core.Offchain.{
  EncodeError, OffchainEnvelope, no_options, offchain_message_candidates,
}
use tetrac_login_sdk.Server.Signature.{verify_any, verify_message}
use tetrac_login_sdk.Ledger.{
  SignError, Device, sign_envelope, sign_message, cascade, no_format, offchain_envelopes, encoded,
  settle_try, Signed, assert64, is_header_rejection,
}
use tetrac_login_sdk.Ledger.Pinned.{encoded-eq_ok}

module _ (p : Platform) (key : List ℕ) (device : Device) where
  -- What the device signs verifies under its key, for the bytes that it signed.
  abbrev pub IsHonest : Type 0
  IsHonest = (x s : List ℕ) → device x ≡ ok s → p.verify x s key ≡ some true

  -- The verification of a signature of 64 bytes does not throw.
  abbrev pub Answers : Type 0
  Answers = (m s : List ℕ) → length s ≡ 64 → (b : Bool) × (p.verify m s key ≡ some b)

  sign_envelope_lem :
      (x s : List ℕ) → sign_envelope device x ≡ ok s → (device x ≡ ok s) × (length s ≡ 64)
  unfolding sign_envelope assert64
  sign_envelope_lem x s h =
      let (t, made, checked) = and_then-eq_ok (device x) assert64 h in
      let size : length t ≡ 64 = ground arith in
      let same : t ≡ s = ground arith in (made ∙ ap ok same, subst (λ u. length u ≡ 64) same size)

  module _ (honest : IsHonest) (answers : Answers) where
    settle_try-verify_any :
        (x : List ℕ) (xs : List (List ℕ)) (e : OffchainEnvelope) (rest : SignError → Signed)
        (r : List ℕ × Option OffchainEnvelope) (t : Result SignError (List ℕ))
        → sign_envelope device x ≡ t
        → ((last : SignError)
            → rest last ≡ ok r
            → (length r.0 ≡ 64) × (verify_any p xs r.0 key ≡ some true))
        → settle_try e t rest ≡ ok r
        → (length r.0 ≡ 64) × (verify_any p (x ∷ xs) r.0 key ≡ some true)
    unfolding verify_any
    settle_try-verify_any x xs e rest r (ok s) made later h =
        let same : s ≡ r.0 = cc in
        let (signed, size) = sign_envelope_lem x s made in
        subst (λ u. (length u ≡ 64) × (verify_any p (x ∷ xs) u key ≡ some true)) same
          (size, rw (honest x s signed) refl)
    settle_try-verify_any x xs e rest r (err last) made later h =
        elim (Bool-cases (is_header_rejection last)) [
          | inl again ↦
              let (size, good) = later last (ground arith) in
              let (b, answer) = answers x r.0 size in (size, rw answer (either b good))
          | inr stop ↦ absurd (ground arith)
        ]
      where
        either :
            (b : Bool)
            → verify_any p xs r.0 key ≡ some true
            → (if b then some true else verify_any p xs r.0 key) ≡ some true
        either true good = refl
        either false good = good

    cascade-verify_any :
        (last : SignError) (xs : List (List ℕ)) (es : List OffchainEnvelope)
        (r : List ℕ × Option OffchainEnvelope)
        → cascade device last xs es ≡ ok r
        → (length r.0 ≡ 64) × (verify_any p xs r.0 key ≡ some true)
    unfolding cascade
    cascade-verify_any last [] es r h = absurd (ground arith)
    cascade-verify_any last (x ∷ xs) [] r h = absurd (ground arith)
    cascade-verify_any last (x ∷ xs) (e ∷ es) r h =
        settle_try-verify_any x xs e (λ l. cascade device l xs es) r (sign_envelope device x) refl
          (λ l. cascade-verify_any l xs es r) h

    -- Whatever layout the device's firmware accepts, the signature that the cascade returns is one
    -- that the server's verification of the same message takes, where the device's signatures
    -- verify for the bytes it signed and the verification of 64 bytes does not throw.
    pub cascaded-verify_message :
        (message : List ℕ) (r : List ℕ × Option OffchainEnvelope)
        → sign_message device p.is_utf8 key message none ≡ ok r
        → verify_message p message r.0 key ≡ some true
    unfolding sign_message verify_message
    cascaded-verify_message message r h =
        let (xs, enc, rest) =
          and_then-eq_ok (encoded (offchain_message_candidates p.is_utf8 message key no_options))
            (λ xs. cascade device no_format xs offchain_envelopes) h in
        let (size, good) = cascade-verify_any no_format xs offchain_envelopes r rest in
        let (b, answer) = answers message r.0 size in
        let found =
          encoded-eq_ok (offchain_message_candidates p.is_utf8 message key no_options) xs enc in
        rw answer (
          either b (
            ap
              (λ (c : Result EncodeError (List (List ℕ))).
                then? (elim c as (λ _. Option (List (List ℕ))) [ ok ms ↦ some ms | err e ↦ none ])
                  (λ ms. verify_any p ms r.0 key))
              found
            ∙ good))
      where
        either :
            (b : Bool) {o : Option Bool} → o ≡ some true → (if b then some true else o) ≡ some true
        either true good = refl
        either false good = good
