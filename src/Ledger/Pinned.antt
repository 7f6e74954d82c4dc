-- ===== src/Ledger/Pinned.antt =====
-- A pinned layout, and the app key of a hardware account.
use tetrac_login_sdk.Prelude.{
  ℕ, ◌≡◌, refl, subst, Bool, Bool-cases, inl, inr, Option, none, some, List, [], ◌∷◌, Result, ok,
  err, and_then, and_then-eq_ok, arith,
}
use tetrac_login_sdk.Core.Offchain.{
  EncodeError, OffchainEnvelope, no_options, encode_offchain_message_as,
  encode_offchain_message_legacy, encode_offchain_message, offchain_message_candidates,
}
use tetrac_login_sdk.Ledger.{
  SignError, no_format, Device, Signed, encoded, is_header_rejection, sign_envelope, cascade,
  settle_try, sign_message, offchain_envelopes,
}

-- The encoder as the signer calls it.
pub encoded-eq_ok : {A : Type 0} (r : Result EncodeError A) (a : A) → encoded r ≡ ok a → r ≡ ok a
encoded-eq_ok (ok b) a h = cc
encoded-eq_ok (err e) a h = cc

-- The later device, with any firmware: to an envelope that both sign it gives the same signature.
abbrev pub SameKey : Device → Device → Type 0
SameKey before after =
    (x s t : List ℕ) → sign_envelope before x ≡ ok s → sign_envelope after x ≡ ok t → t ≡ s

module _ (is_utf8 : List ℕ → Bool) (signer message : List ℕ) where
  -- The envelope of a layout.
  abbrev pub envelope_of : OffchainEnvelope → Result EncodeError (List ℕ)
  envelope_of e = encode_offchain_message_as is_utf8 e message signer no_options

  -- A signature comes from the device, over the envelope of the layout that is reported.
  abbrev pub MadeOver : Device → List ℕ → OffchainEnvelope → Type 0
  MadeOver device signature e =
      (envelope : List ℕ) × (envelope_of e ≡ ok envelope)
      × (sign_envelope device envelope ≡ ok signature)

  -- Every candidate is the envelope of its name.
  abbrev pub Named : List (List ℕ) → List OffchainEnvelope → Type 0
  Named (x ∷ xs) (e ∷ es) = (envelope_of e ≡ ok x) × Named xs es
  Named _ _ = Unit {0}

  -- What the loop returns was made over the envelope whose name is reported.
  abbrev pub Reported : Device → List ℕ × Option OffchainEnvelope → Type 0
  Reported device r = (e : OffchainEnvelope) × (r.1 ≡ some e) × MadeOver device r.0 e

  settle_try-Reported :
      (device : Device) (x : List ℕ) (e : OffchainEnvelope) (rest : SignError → Signed)
      (r : List ℕ × Option OffchainEnvelope) (t : Result SignError (List ℕ))
      → envelope_of e ≡ ok x
      → sign_envelope device x ≡ t
      → ((last : SignError) → rest last ≡ ok r → Reported device r)
      → settle_try e t rest ≡ ok r
      → Reported device r
  settle_try-Reported device x e rest r (ok s) named made later h =
      let same : (s, some e) ≡ r = cc in subst (Reported device) same (e, refl, (x, named, made))
  settle_try-Reported device x e rest r (err last) named made later h =
      elim (Bool-cases (is_header_rejection last)) [
        | inl again ↦ later last (ground arith)
        | inr stop ↦ absurd (ground arith)
      ]

  cascade-Reported :
      (device : Device) (last : SignError) (xs : List (List ℕ)) (es : List OffchainEnvelope)
      (r : List ℕ × Option OffchainEnvelope)
      → Named xs es
      → cascade device last xs es ≡ ok r
      → Reported device r
  unfolding cascade
  cascade-Reported device last [] es r named h = absurd (ground arith)
  cascade-Reported device last (x ∷ xs) [] r named h = absurd (ground arith)
  cascade-Reported device last (x ∷ xs) (e ∷ es) r named h =
      settle_try-Reported device x e (λ l. cascade device l xs es) r (sign_envelope device x)
        named.0 refl (λ l. cascade-Reported device l xs es r named.1) h

  candidates-Named :
      (xs : List (List ℕ))
      → offchain_message_candidates is_utf8 message signer no_options ≡ ok xs
      → Named xs offchain_envelopes
  unfolding offchain_message_candidates encode_offchain_message_as
  candidates-Named xs h =
      let (old, is_old, rest) =
        and_then-eq_ok (encode_offchain_message_legacy is_utf8 message no_options)
          (λ old.
            and_then (encode_offchain_message is_utf8 message signer no_options)
              (λ new. ok (old ∷ new ∷ [])))
          h in
      let (new, is_new, same) =
        and_then-eq_ok (encode_offchain_message is_utf8 message signer no_options)
          (λ new. ok (old ∷ new ∷ [])) rest in
      let both : old ∷ new ∷ [] ≡ xs = cc in
      subst (λ ys. Named ys offchain_envelopes) both (is_old, (is_new, tt))

  pub cascaded-Reported :
      (device : Device) (r : List ℕ × Option OffchainEnvelope)
      → sign_message device is_utf8 signer message none ≡ ok r
      → Reported device r
  unfolding sign_message
  cascaded-Reported device r h =
      let (xs, enc, rest) =
        and_then-eq_ok (encoded (offchain_message_candidates is_utf8 message signer no_options))
          (λ xs. cascade device no_format xs offchain_envelopes) h in
      cascade-Reported device no_format xs offchain_envelopes r
        (candidates-Named xs (encoded-eq_ok _ xs enc)) rest

  pub pinned-MadeOver :
      (device : Device) (e : OffchainEnvelope) (r : List ℕ × Option OffchainEnvelope)
      → sign_message device is_utf8 signer message (some e) ≡ ok r
      → MadeOver device r.0 e
  unfolding sign_message
  pinned-MadeOver device e r h =
      let (x, enc, rest) =
        and_then-eq_ok (encoded (envelope_of e))
          (λ x. and_then (sign_envelope device x) (λ signature. ok (signature, none))) h in
      let (signature, made, same) =
        and_then-eq_ok (sign_envelope device x) (λ signature. ok (signature, none)) rest in
      let answer : (signature, none) ≡ r = cc in
      subst (λ q. MadeOver device q.0 e) answer (x, encoded-eq_ok _ x enc, made)

  -- A device that answered the cascade of a registration, and the layout that was recorded: with any
  -- later firmware that gives the same signature to an envelope that it still signs, a signing that
  -- is pinned to that layout gives the signature of the registration, from which the app key is
  -- derived, or throws.
  pub pinned-cascaded :
      (before after : Device) (r r' : List ℕ × Option OffchainEnvelope) (e : OffchainEnvelope)
      → SameKey before after
      → sign_message before is_utf8 signer message none ≡ ok r
      → r.1 ≡ some e
      → sign_message after is_utf8 signer message (some e) ≡ ok r'
      → r'.0 ≡ r.0
  pinned-cascaded before after r r' e same registered recorded again =
      let (f, reported, old) = cascaded-Reported before r registered in
      let layout : f ≡ e = cc in
      let (x, is_x, made) = subst (λ g. MadeOver before r.0 g) layout old in
      let (y, is_y, made') = pinned-MadeOver after e r' again in
      let one : x ≡ y = cc in
      same y r.0 r'.0 (subst (λ z. sign_envelope before z ≡ ok r.0) one made) made'
