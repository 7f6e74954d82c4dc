-- ===== src/Storage/Kv/SessionCodec.antt =====
-- `encodeSession` and `decodeSession` (storage/store.ts).
use tetrac_login_sdk.Prelude.{
  ℕ, ◌≡◌, ◌≢◌, refl, true, Option, none, some, [], ◌∷◌, ◌++◌, Text, lacks, split_first, text_eq,
  arith,
}
use tetrac_login_sdk.Storage.Adapter.{SessionValue}
use tetrac_login_sdk.Storage.Kv.{encode_session, decode_session}

split_first-lacks : (c : ℕ) (s : Text) → lacks c s ≡ true → split_first c s ≡ none
unfolding split_first lacks
split_first-lacks c [] h = refl
split_first-lacks c (d ∷ s) h =
    let rest : split_first c s ≡ none = split_first-lacks c s (ground arith) in ground arith

split_first-append :
    (c : ℕ) (s t : Text) → lacks c s ≡ true → split_first c (s ++ (c ∷ t)) ≡ some (s, t)
unfolding split_first lacks
split_first-append c [] t h = ground arith
split_first-append c (d ∷ s) t h =
    let rest : split_first c (s ++ (c ∷ t)) ≡ some (s, t) =
      split_first-append c s t (ground arith) in
    ground arith

-- A session reads back as it was stored, where its key holds no '|' and its fingerprint is absent
-- or not empty. The fingerprint may hold any character.
pub decode_session-encode_session :
    (v : SessionValue)
    → lacks b'|' v.public_key ≡ true
    → v.fingerprint ≢ some []
    → decode_session (encode_session v) ≡ v
unfolding decode_session encode_session text_eq
decode_session-encode_session v h nonempty = by_fingerprint v.fingerprint nonempty
  where
    by_fingerprint :
        (f : Option Text)
        → f ≢ some []
        → decode_session (encode_session (record v { fingerprint = f }))
          ≡ record v { fingerprint = f }
    by_fingerprint none n = rw (split_first-lacks b'|' v.public_key h, decode_session) refl
    by_fingerprint (some []) n = absurd (n refl)
    by_fingerprint (some (c ∷ f)) n =
        rw (split_first-append b'|' v.public_key (c ∷ f) h, decode_session) refl
