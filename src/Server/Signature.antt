-- ===== src/Server/Signature.antt =====
-- server/signature.ts: verification of wallet and auth-key signatures. A throw inside the `try` is
-- `none`, and answers false.
pub mod HexBytes
use tetrac_login_sdk.Prelude.{
  ℕ, ◌+◌, ◌-◌, ◌*◌, ◌%◌, Bool, true, false, not, ◌&&◌, List, [], ◌∷◌, Option, none, some, Text,
  length, all, leb, ◌==◌, if◌then◌else◌, then?, ok, err,
}
use tetrac_login_sdk.Core.Platform.{Platform}
use tetrac_login_sdk.Core.Crypto.{is_hex}
use tetrac_login_sdk.Core.Js.{Js, str}
use tetrac_login_sdk.Core.Offchain.{no_options, offchain_message_candidates}
use tetrac_login_sdk.Core.Messages.{wallet_login_message, auth_login_message}

-- A digit of `parseInt(s, 16)`.
unfoldable pub hex_value : ℕ → ℕ
hex_value c = if leb c b'9' then c - b'0' else if leb c b'F' then c - 55 else c - 87

-- The loop over pairs of digits.
unfoldable pub parse_pairs : Text → List ℕ
unfolding hex_value
parse_pairs (a ∷ b ∷ s) = (16 * hex_value a + hex_value b) ∷ parse_pairs s
parse_pairs _ = []

-- `hex.startsWith("0x") ? hex.slice(2) : hex`
unfoldable pub strip_0x : Text → Text
strip_0x (a ∷ b ∷ s) = if (a == b'0') && (b == b'x') then s else a ∷ b ∷ s
strip_0x s = s

unfoldable pub hex_to_bytes : Text → Option (List ℕ)
unfolding parse_pairs strip_0x
hex_to_bytes hex =
    let clean = strip_0x hex in
    if not (length clean % 2 == 0)
    then none
    else if not (all is_hex clean)
    then none
    else some (parse_pairs clean)

-- A value with no `startsWith` throws.
unfoldable pub signature_bytes : Js → Option (List ℕ)
unfolding hex_to_bytes
signature_bytes (str s) = hex_to_bytes s
signature_bytes _ = none

module _ (p : Platform) where
  -- The loop over the envelopes.
  unfoldable pub verify_any : List (List ℕ) → List ℕ → List ℕ → Option Bool
  verify_any [] sig key = some false
  verify_any (m ∷ ms) sig key =
      let rest = verify_any ms sig key in
      then? (p.verify m sig key) (λ good. if good then some true else rest)

  abbrev envelopes : List ℕ → List ℕ → Option (List (List ℕ))
  envelopes message key = elim (offchain_message_candidates p.is_utf8 message key no_options) [
    | ok ms ↦ some ms
    | err e ↦ none
  ]

  -- The raw message, then the off-chain envelopes.
  unfoldable pub verify_message : List ℕ → List ℕ → List ℕ → Option Bool
  unfolding verify_any
  verify_message message sig key = then? (p.verify message sig key) (λ good.
      if good then some true else then? (envelopes message key) (λ ms. verify_any ms sig key))

  abbrev succeeds : Option Bool → Bool
  succeeds none = false
  succeeds (some b) = b

  unfoldable pub verify_solana_signature : Text → Js → Text → Text → Bool
  unfolding verify_message signature_bytes
  verify_solana_signature pk signature challenge origin = succeeds (
      then? (wallet_login_message p challenge origin pk) (λ text.
        then? (signature_bytes signature)
          (λ sig. then? (p.public_key_bytes pk) (λ key. verify_message (p.utf8 text) sig key))))

  unfoldable pub verify_auth_signature : Text → Js → Text → Bool
  unfolding signature_bytes
  verify_auth_signature auth_key signature challenge = succeeds (
      then? (signature_bytes signature) (λ sig.
        then? (hex_to_bytes auth_key)
          (λ key. p.verify (p.utf8 (auth_login_message challenge)) sig key)))
