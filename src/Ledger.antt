-- ===== src/Ledger.antt =====
-- ledger/solanaSigner.ts: the signer over a Ledger device. The device is a parameter: what it answers
-- to the bytes it is shown, within one call.
pub mod Pinned
pub mod Verified
use tetrac_login_sdk.Prelude.{
  ℕ, Bool, true, false, Option, none, some, List, [], ◌∷◌, length, ◌==◌, if◌then◌else◌, Result, ok,
  err, and_then,
}
use tetrac_login_sdk.Core.Offchain.{
  EncodeError, OffchainEnvelope, legacy, v0, no_options, encode_offchain_message_as,
  offchain_message_candidates,
}

pub data SignError : Type 0 where
  -- The message holds 0x6a81.
  header_rejected : SignError
  -- Any other failure of the device: refused by the user, locked, no blind signing.
  device_failed : SignError
  wrong_length : ℕ → SignError
  not_encoded : EncodeError → SignError
  -- "Ledger rejected every known off-chain message format": there was no candidate.
  no_format : SignError

abbrev pub Device : Type 0
Device = List ℕ → Result SignError (List ℕ)

-- OFFCHAIN_ENVELOPES
abbrev pub offchain_envelopes : List OffchainEnvelope
offchain_envelopes = legacy ∷ v0 ∷ []

unfoldable pub assert64 : List ℕ → Result SignError (List ℕ)
assert64 signature =
    if length signature == 64 then ok signature else err (wrong_length (length signature))

abbrev pub encoded : {A : Type 0} → Result EncodeError A → Result SignError A
encoded (ok a) = ok a
encoded (err e) = err (not_encoded e)

abbrev pub is_header_rejection : SignError → Bool
is_header_rejection header_rejected = true
is_header_rejection _ = false

-- A signature, and the layout that `onEnvelope` is told of.
abbrev pub Signed : Type 0
Signed = Result SignError (List ℕ × Option OffchainEnvelope)

-- A round of the loop, and what comes after it.
abbrev pub settle_try : OffchainEnvelope → Result SignError (List ℕ) → (SignError → Signed) → Signed
settle_try name (ok signature) rest = ok (signature, some name)
settle_try name (err e) rest = if is_header_rejection e then rest e else err e

module _ (device : Device) where
  unfoldable pub sign_envelope : List ℕ → Result SignError (List ℕ)
  unfolding assert64
  sign_envelope envelope = and_then (device envelope) assert64

  -- The loop over the candidates and their names, with the last error.
  unfoldable pub cascade : SignError → List (List ℕ) → List OffchainEnvelope → Signed
  unfolding sign_envelope
  cascade last (envelope ∷ envelopes) (name ∷ names) =
      settle_try name (sign_envelope envelope) (λ e. cascade e envelopes names)
  cascade last _ _ = err last

  -- `pinned` is `opts.envelope`.
  unfoldable pub sign_message : (List ℕ → Bool) → List ℕ → List ℕ → Option OffchainEnvelope → Signed
  unfolding cascade encode_offchain_message_as offchain_message_candidates
  sign_message is_utf8 signer message (some pinned) =
      and_then (encoded (encode_offchain_message_as is_utf8 pinned message signer no_options))
        (λ envelope. and_then (sign_envelope envelope) (λ signature. ok (signature, none)))
  sign_message is_utf8 signer message none =
      and_then (encoded (offchain_message_candidates is_utf8 message signer no_options))
        (λ envelopes. cascade no_format envelopes offchain_envelopes)
