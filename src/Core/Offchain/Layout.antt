-- ===== src/Core/Offchain/Layout.antt =====
-- The envelopes against readers of their layouts, as the head of core/offchainMessage.ts lists them.
use tetrac_login_sdk.Prelude.{
  ℕ, zero, suc, ◌+◌, ◌*◌, ◌≤◌, ◌<◌, ◌≡◌, refl, subst, Bool, List, ◌∷◌, ◌++◌, Option, none, some,
  length, take, drop, take-append, drop-append, ◌==◌, if◌then◌else◌, Result, ok, err, and_then,
  and_then-eq_ok, text_eq, text_eq_refl, arith, replicate, not,
}
use tetrac_login_sdk.Core.Offchain.{
  Options, signing_domain, prepare_message, u16le, legacy_bytes, encode_offchain_message_legacy,
  EncodeError, bad_signer_length, bad_domain_length, v0_bytes, encode_offchain_message, or_else,
  default_max_message_bytes,
}

-- A length field followed by a message of that length.
read_body : List ℕ → Option (List ℕ)
read_body (lo ∷ hi ∷ msg) = if lo + 256 * hi == length msg then some msg else none
read_body _ = none

read_legacy_header : List ℕ → Option (ℕ × List ℕ)
read_legacy_header (zero ∷ format ∷ body) = elim (read_body body) [
  | none ↦ none
  | some msg ↦ some (format, msg)
]
read_legacy_header _ = none

-- LEGACY: domain 16, version 1, format 1, length 2, message.
pub read_legacy : List ℕ → Option (ℕ × List ℕ)
unfolding read_legacy_header read_body
read_legacy bytes =
    if text_eq (take 16 bytes) signing_domain then read_legacy_header (drop 16 bytes) else none

read_signer : ℕ → List ℕ → Option (ℕ × List ℕ × List ℕ)
read_signer format rest = elim (read_body (drop 32 rest)) [
  | none ↦ none
  | some msg ↦ some (format, take 32 rest, msg)
]

read_v0_tail : List ℕ → Option (ℕ × List ℕ × List ℕ)
read_v0_tail (format ∷ suc zero ∷ rest) = read_signer format rest
read_v0_tail _ = none

read_v0_header : List ℕ → Option (ℕ × List ℕ × List ℕ)
read_v0_header (zero ∷ rest) = read_v0_tail (drop 32 rest)
read_v0_header _ = none

-- V0: domain 16, version 1, application domain 32, format 1, signer count 1, signer 32, length 2,
-- message.
pub read_v0 : List ℕ → Option (ℕ × List ℕ × List ℕ)
unfolding read_v0_header read_v0_tail read_signer read_body
read_v0 bytes =
    if text_eq (take 16 bytes) signing_domain then read_v0_header (drop 16 bytes) else none

-- The length field is exact below 2^16.
read_body-u16le :
    (msg : List ℕ) → length msg < 65536 → read_body (u16le (length msg) ++ msg) ≡ some msg
unfolding read_body u16le
read_body-u16le msg h = ground arith

read_legacy-bytes :
    (format : ℕ) (msg : List ℕ)
    → length msg < 65536
    → read_legacy (legacy_bytes format msg) ≡ some (format, msg)
unfolding read_legacy legacy_bytes
read_legacy-bytes format msg h =
    rw (text_eq_refl signing_domain) (rw (read_body-u16le msg h, read_legacy_header))

drop_exact : (xs ys : List ℕ) → length xs ≡ 32 → drop 32 (xs ++ ys) ≡ ys
drop_exact xs ys e = subst (λ n. drop n (xs ++ ys) ≡ ys) e (drop-append xs ys)

take_exact : (xs ys : List ℕ) → length xs ≡ 32 → take 32 (xs ++ ys) ≡ xs
take_exact xs ys e = subst (λ n. take n (xs ++ ys) ≡ xs) e (take-append xs ys)

read_signer-exact :
    (signer : List ℕ) (format : ℕ) (msg : List ℕ)
    → length signer ≡ 32
    → length msg < 65536
    → read_signer format (signer ++ (u16le (length msg) ++ msg)) ≡ some (format, signer, msg)
unfolding read_signer
read_signer-exact signer format msg s h =
    rw (drop_exact signer (u16le (length msg) ++ msg) s, read_signer)
      (rw (read_body-u16le msg h, read_signer)
        (rw (take_exact signer (u16le (length msg) ++ msg) s)))

read_v0-bytes :
    (domain signer : List ℕ) (format : ℕ) (msg : List ℕ)
    → length domain ≡ 32
    → length signer ≡ 32
    → length msg < 65536
    → read_v0 (v0_bytes domain format signer msg) ≡ some (format, signer, msg)
unfolding read_v0 v0_bytes
read_v0-bytes domain signer format msg d s h = rw (text_eq_refl signing_domain) (
    rw (drop_exact domain (format ∷ 1 ∷ (signer ++ (u16le (length msg) ++ msg))) d)
      (read_signer-exact signer format msg s h))

-- What a v0 envelope that was built went through.
pub v0_inversion :
    (prepared : Result EncodeError ℕ) (signer domain msg : List ℕ) {out : List ℕ}
    → (if not (length signer == 32)
        then err bad_signer_length
        else and_then prepared (λ format.
          if not (length domain == 32)
          then err bad_domain_length
          else ok (v0_bytes domain format signer msg)))
      ≡ ok out
    → (format : ℕ) × (prepared ≡ ok format)
      × ((length signer ≡ 32) × (length domain ≡ 32))
      × (out ≡ v0_bytes domain format signer msg)
v0_inversion (ok format) signer domain msg h = (format, refl, ground arith, ground arith)
v0_inversion (err e) signer domain msg h = absurd (ground arith)

module _ (is_utf8 : List ℕ → Bool) (msg : List ℕ) (options : Options) where
  abbrev pub cap : ℕ
  cap = or_else options.max_message_bytes default_max_message_bytes

  pub prepare_message-le :
      {format : ℕ} → prepare_message is_utf8 msg options ≡ ok format → length msg ≤ cap
  unfolding prepare_message
  prepare_message-le h = ground arith

  -- Unless the caller raises the cap to 2^16 bytes or more, every legacy envelope that is built
  -- reads back as its format byte and its message.
  read_legacy-encode :
      {out : List ℕ}
      → cap < 65536
      → encode_offchain_message_legacy is_utf8 msg options ≡ ok out
      → (format : ℕ) × (prepare_message is_utf8 msg options ≡ ok format)
        × (read_legacy out ≡ some (format, msg))
  unfolding encode_offchain_message_legacy
  read_legacy-encode {out} c h =
      let (format, prepared, built) =
        and_then-eq_ok (prepare_message is_utf8 msg options)
          (λ format. ok (legacy_bytes format msg)) h in
      let same : legacy_bytes format msg ≡ out = cc in
      (
        format,
        prepared,
        subst (λ o. read_legacy o ≡ some (format, msg)) same
            (read_legacy-bytes format msg (omega (arith, prepare_message-le prepared))),
      )

  -- The same of the v0 envelope, from which the signer is read back too.
  read_v0-encode :
      (signer : List ℕ) {out : List ℕ}
      → cap < 65536
      → encode_offchain_message is_utf8 msg signer options ≡ ok out
      → (format : ℕ) × (prepare_message is_utf8 msg options ≡ ok format)
        × (read_v0 out ≡ some (format, signer, msg))
  unfolding encode_offchain_message
  read_v0-encode signer {out} c h =
      let (format, prepared, sizes, built) =
        v0_inversion (prepare_message is_utf8 msg options) signer
          (or_else options.application_domain (replicate 32 0)) msg h in
      (
        format,
        prepared,
        rw built (
            read_v0-bytes (or_else options.application_domain (replicate 32 0)) signer format msg
              sizes.1 sizes.0 (omega (arith, prepare_message-le prepared))),
      )
