-- ===== src/Core/Offchain/Separation.antt =====
-- The two layouts of envelopes (core/offchainMessage.ts) against each other.
use tetrac_login_sdk.Prelude.{
  ℕ, ◌/◌, ◌%◌, ◌<◌, ◌≡◌, ◌≢◌, ap, Bool, List, length, get_elem?, ok, and_then-eq_ok, replicate,
  arith,
}
use tetrac_login_sdk.Core.Offchain.{
  or_else, no_options, prepare_message, u16le, legacy_bytes, v0_bytes,
  encode_offchain_message_legacy, encode_offchain_message,
}
use tetrac_login_sdk.Core.Offchain.Layout.{v0_inversion, prepare_message-le}

legacy_bytes-ne-v0_bytes :
    (format format' : ℕ) (signer msg msg' : List ℕ)
    → 0 < length msg
    → length msg < 65536
    → legacy_bytes format msg ≢ v0_bytes (replicate 32 0) format' signer msg'
unfolding legacy_bytes v0_bytes u16le
legacy_bytes-ne-v0_bytes format format' signer msg msg' pos fits e =
    let low : length msg % 256 ≡ 0 = ap (λ t. or_else (get_elem? t 18) 0) e in
    let high : length msg / 256 % 256 ≡ 0 = ap (λ t. or_else (get_elem? t 19) 0) e in omega arith

module _ (is_utf8 : List ℕ → Bool) (msg msg' signer : List ℕ) where
  prepare_message-pos :
      {format : ℕ} → prepare_message is_utf8 msg no_options ≡ ok format → 0 < length msg
  unfolding prepare_message
  prepare_message-pos h = ground arith

  -- Under the default options no legacy envelope of a message is a v0 envelope of any message, for
  -- any signer: a signature over the one never passes for a signature over the other.
  pub legacy-ne-v0 :
      {old new : List ℕ}
      → encode_offchain_message_legacy is_utf8 msg no_options ≡ ok old
      → encode_offchain_message is_utf8 msg' signer no_options ≡ ok new
      → old ≢ new
  unfolding encode_offchain_message_legacy encode_offchain_message
  legacy-ne-v0 {old} {new} h k same =
      let (format, prepared, built) =
        and_then-eq_ok (prepare_message is_utf8 msg no_options)
          (λ format. ok (legacy_bytes format msg)) h in
      let (format', prepared', sizes, built') =
        v0_inversion (prepare_message is_utf8 msg' no_options) signer (replicate 32 0) msg' k in
      let e : legacy_bytes format msg ≡ v0_bytes (replicate 32 0) format' signer msg' = cc in
      legacy_bytes-ne-v0_bytes format format' signer msg msg' (prepare_message-pos prepared)
        (omega (arith, prepare_message-le is_utf8 msg no_options prepared)) e
