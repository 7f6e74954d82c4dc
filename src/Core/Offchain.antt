-- ===== src/Core/Offchain.antt =====
-- core/offchainMessage.ts: the envelopes of Solana off-chain messages. A message is its bytes; the
-- callers encode a text before.
pub mod Layout
pub mod Separation
use tetrac_login_sdk.Prelude.{
  ℕ, ◌+◌, ◌/◌, ◌%◌, Bool, true, false, ◌&&◌, ◌||◌, not, List, [], ◌∷◌, ◌++◌, Option, none, some,
  length, replicate, all, ◌==◌, ltb, leb, if◌then◌else◌, Result, ok, err, and_then, codes,
}

pub data EncodeError : Type 0 where
  empty_message too_long not_utf8 not_ascii bad_signer_length bad_domain_length : EncodeError

pub record Options : Type 0 where
  pub application_domain : Option (List ℕ)
  pub allow_utf8 : Bool
  pub max_message_bytes : Option ℕ

-- The parameter's default, `{}`.
abbrev pub no_options : Options
no_options = record { application_domain = none; allow_utf8 = false; max_message_bytes = none }

abbrev pub default_max_message_bytes : ℕ
default_max_message_bytes = 1212

abbrev pub signing_domain : List ℕ
signing_domain = 0xff ∷ codes "solana offchain"

abbrev pub or_else {ℓ} : {A : Type ℓ} → Option A → A → A
or_else none d = d
or_else (some a) d = a

abbrev pub is_printable : ℕ → Bool
is_printable c = (c == 0x0a) || (leb 0x20 c && leb c 0x7e)

unfoldable pub is_printable_ascii : List ℕ → Bool
is_printable_ascii bytes = all is_printable bytes

-- The format byte; the message is returned as it is.
unfoldable pub prepare_message : (List ℕ → Bool) → List ℕ → Options → Result EncodeError ℕ
prepare_message is_utf8 msg options =
    if length msg == 0
    then err empty_message
    else if ltb (or_else options.max_message_bytes default_max_message_bytes) (length msg)
    then err too_long
    else if is_printable_ascii msg
    then ok 0
    else if options.allow_utf8
    then (if is_utf8 msg then ok 1 else err not_utf8)
    else err not_ascii

-- The two bytes that `u16le` writes.
unfoldable pub u16le : ℕ → List ℕ
u16le value = (value % 256) ∷ ((value / 256) % 256) ∷ []

unfoldable pub legacy_bytes : ℕ → List ℕ → List ℕ
legacy_bytes format msg = signing_domain ++ (0 ∷ format ∷ (u16le (length msg) ++ msg))

unfoldable pub encode_offchain_message_legacy :
    (List ℕ → Bool) → List ℕ → Options → Result EncodeError (List ℕ)
unfolding prepare_message legacy_bytes
encode_offchain_message_legacy is_utf8 msg options =
    and_then (prepare_message is_utf8 msg options) (λ format. ok (legacy_bytes format msg))

unfoldable pub v0_bytes : List ℕ → ℕ → List ℕ → List ℕ → List ℕ
v0_bytes domain format signer msg =
    signing_domain ++ (0 ∷ (domain ++ (format ∷ 1 ∷ (signer ++ (u16le (length msg) ++ msg)))))

unfoldable pub encode_offchain_message :
    (List ℕ → Bool) → List ℕ → List ℕ → Options → Result EncodeError (List ℕ)
unfolding prepare_message v0_bytes
encode_offchain_message is_utf8 msg signer options =
    if not (length signer == 32)
    then err bad_signer_length
    else and_then (prepare_message is_utf8 msg options) (λ format.
      let domain = or_else options.application_domain (replicate 32 0) in
      if not (length domain == 32)
      then err bad_domain_length
      else ok (v0_bytes domain format signer msg))

pub data OffchainEnvelope : Type 0 where
  legacy v0 : OffchainEnvelope

unfoldable pub encode_offchain_message_as :
    (List ℕ → Bool) → OffchainEnvelope → List ℕ → List ℕ → Options → Result EncodeError (List ℕ)
encode_offchain_message_as is_utf8 legacy msg signer options =
    encode_offchain_message_legacy is_utf8 msg options
encode_offchain_message_as is_utf8 v0 msg signer options =
    encode_offchain_message is_utf8 msg signer options

unfoldable pub offchain_message_candidates :
    (List ℕ → Bool) → List ℕ → List ℕ → Options → Result EncodeError (List (List ℕ))
unfolding encode_offchain_message_legacy encode_offchain_message
offchain_message_candidates is_utf8 msg signer options =
    and_then (encode_offchain_message_legacy is_utf8 msg options) (λ old.
      and_then (encode_offchain_message is_utf8 msg signer options) (λ new. ok (old ∷ new ∷ [])))
