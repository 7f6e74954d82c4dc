-- ===== src/Tests/Ledger.antt =====
-- The theorems on the signer over a Ledger device (ledger/solanaSigner.ts) at concrete inputs.
use tetrac_login_sdk.Prelude.{
  Bool-cases, inl, inr, sym, ◌∙◌, ℕ, ◌≡◌, refl, true, none, some, List, replicate, length, ltb,
  if◌then◌else◌, codes, ok, err, arith,
}
use tetrac_login_sdk.Core.Platform.{Platform}
use tetrac_login_sdk.Core.Offchain.{v0, is_printable_ascii, u16le}
use tetrac_login_sdk.Server.Signature.{verify_message}
use tetrac_login_sdk.Ledger.{header_rejected, Device, sign_envelope, sign_message, assert64}
use tetrac_login_sdk.Ledger.Pinned.{SameKey, pinned-cascaded}
use tetrac_login_sdk.Ledger.Verified.{IsHonest, cascaded-verify_message}
use tetrac_login_sdk.Tests.Setup.{platform}

abbrev signature : List ℕ
signature = replicate 64 7

-- A firmware that knows the long layout only, and one that knows both.
abbrev new_firmware : Device
new_firmware x = if ltb 59 (length x) then ok signature else err header_rejected

abbrev any_firmware : Device
any_firmware x = ok signature

-- A key that signed exactly the long messages.
abbrev chain : Platform
chain = record platform { verify = λ m s k. some (ltb 59 (length m)) }

abbrev signer : List ℕ
signer = replicate 32 9

abbrev text : List ℕ
text = codes "Sign in"

cascaded : sign_message new_firmware chain.is_utf8 signer text none ≡ ok (signature, some v0)
unfolding sign_message is_printable_ascii u16le
cascaded = refl

pinned : sign_message any_firmware chain.is_utf8 signer text (some v0) ≡ ok (signature, none)
unfolding sign_message is_printable_ascii u16le
pinned = refl

new-any-SameKey : SameKey new_firmware any_firmware
unfolding sign_envelope assert64
new-any-SameKey x s t before after = elim (Bool-cases (ltb 59 (length x))) [
  | inl long ↦
      let one : signature ≡ s = ground arith in let other : signature ≡ t = cc in sym other ∙ one
  | inr short ↦ absurd (ground arith)
]

pinned-cascaded_example : signature ≡ signature
pinned-cascaded_example =
    pinned-cascaded chain.is_utf8 signer text new_firmware any_firmware (signature, some v0)
      (signature, none) v0 new-any-SameKey cascaded refl pinned

new_firmware-IsHonest : IsHonest chain signer new_firmware
new_firmware-IsHonest x s h = ground arith

cascaded-verify_message_example : verify_message chain text signature signer ≡ some true
cascaded-verify_message_example =
    cascaded-verify_message chain signer new_firmware new_firmware-IsHonest
      (λ m s size. (ltb 59 (length m), refl)) text (signature, some v0) cascaded
