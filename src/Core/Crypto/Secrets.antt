-- ===== src/Core/Crypto/Secrets.antt =====
-- core/crypto.ts: the derivation of app keys, and the encryption of secrets. WebCrypto, the hash
-- functions and the runtime's text codecs are parameters.
use tetrac_login_sdk.Prelude.{
  true, false, ℕ, ◌≡◌, refl, sym, ap, ◌∙◌, Option, none, some, List, [], ◌∷◌, ◌++◌, Text, Result,
  ok, err, and_then, lacks, split_on, not, ◌==◌, arith, &&_split,
}
use tetrac_login_sdk.Core.Platform.{Platform}
use tetrac_login_sdk.Core.Config.{trim}
use tetrac_login_sdk.Core.Crypto.Base64.{
  Base64, b64url_encode, b64url_decode, b64url_decode-encode, b64url_encode-lacks,
}

-- What the browser gives; `none` is a thrown error.
pub record WebCrypto : Type 1 where
  pub base64 : Base64
  pub Key : Type 0
  -- `parseInt(pair, 16)`, as a byte of the array stores it
  pub parse_byte : ℕ → ℕ → ℕ
  -- `crypto.subtle.importKey("raw", bytes, "AES-GCM")`
  pub import_key : List ℕ → Option Key
  -- `crypto.subtle.encrypt` and `decrypt`: the key, the nonce and the data
  pub encrypt : Key → List ℕ → List ℕ → Option (List ℕ)
  pub decrypt : Key → List ℕ → List ℕ → Option (List ℕ)
  -- `new TextEncoder().encode(s)` and `new TextDecoder().decode(b)`
  pub utf8 : Text → List ℕ
  pub utf8_decode : List ℕ → Text
  -- `bytesToHex(pbkdf2(sha256, passkey, sha256(salt), { c, dkLen: 32 }))`
  pub pbkdf2_hex : Text → Text → ℕ → Text

pub data CipherError : Type 0 where
  malformed : CipherError
  not_base64 : CipherError
  bad_key : CipherError
  not_encrypted : CipherError
  wrong_key_or_corrupted : CipherError

abbrev or_fail : {A : Type 0} → CipherError → Option A → Result CipherError A
or_fail e none = err e
or_fail e (some a) = ok a

-- The salt is a digest of this text.
unfoldable pub derive_app_key_from_passkey : WebCrypto → Platform → Text → Text → ℕ → Text → Text
derive_app_key_from_passkey wc p passkey email iterations app_id =
    wc.pbkdf2_hex passkey (app_id ++ (b':' ∷ trim (p.to_lower_case email))) iterations

unfoldable pub derive_app_key_from_signature : Platform → Text → Text
derive_app_key_from_signature p signature_hex = p.sha256_hex signature_hex

module _ (wc : WebCrypto) where
  -- Half as many bytes as characters: a last one that is left over is ignored.
  unfoldable pub app_key_to_bytes : Text → List ℕ
  app_key_to_bytes (a ∷ b ∷ s) = wc.parse_byte a b ∷ app_key_to_bytes s
  app_key_to_bytes _ = []

  unfoldable pub import_aes_gcm_key : Text → Result CipherError wc.Key
  unfolding app_key_to_bytes
  import_aes_gcm_key app_key = or_fail bad_key (wc.import_key (app_key_to_bytes app_key))

  -- The nonce is what `getRandomValues` drew.
  unfoldable pub encrypt_secret : List ℕ → Text → Text → Result CipherError Text
  unfolding import_aes_gcm_key b64url_encode
  encrypt_secret iv plaintext app_key = and_then (import_aes_gcm_key app_key) (λ key.
      and_then (or_fail not_encrypted (wc.encrypt key iv (wc.utf8 plaintext)))
        (λ ct. ok (b64url_encode wc.base64 iv ++ (b':' ∷ b64url_encode wc.base64 ct))))

  abbrev decrypt_parts : Text → Text → Text → Result CipherError Text
  decrypt_parts a b app_key = and_then (or_fail not_base64 (b64url_decode wc.base64 a)) (λ iv.
      and_then (or_fail not_base64 (b64url_decode wc.base64 b)) (λ ct.
        and_then (import_aes_gcm_key app_key) (λ key.
          and_then (or_fail wrong_key_or_corrupted (wc.decrypt key iv ct))
            (λ plain. ok (wc.utf8_decode plain)))))

  abbrev decrypt_split : List Text → Text → Result CipherError Text
  decrypt_split (a ∷ b ∷ []) app_key = decrypt_parts a b app_key
  decrypt_split _ app_key = err malformed

  unfoldable pub decrypt_secret : Text → Text → Result CipherError Text
  unfolding split_on import_aes_gcm_key b64url_decode
  decrypt_secret ciphertext app_key = decrypt_split (split_on b':' ciphertext) app_key

split_on-lacks : (c : ℕ) (s : Text) → lacks c s ≡ true → split_on c s ≡ s ∷ []
unfolding split_on lacks
split_on-lacks c [] h = refl
split_on-lacks c (d ∷ s) h =
    let (x, rest) = &&_split (not (d == c)) (lacks c s) h in
    let differs : (d == c) ≡ false = ground arith in rw (differs, split_on-lacks c s rest) refl

split_on-append :
    (c : ℕ) (s t : Text)
    → lacks c s ≡ true
    → lacks c t ≡ true
    → split_on c (s ++ (c ∷ t)) ≡ s ∷ t ∷ []
unfolding split_on lacks
split_on-append c [] t h k =
    let same : (c == c) ≡ true = ground arith in rw (same, split_on-lacks c t k) refl
split_on-append c (d ∷ s) t h k =
    let (x, rest) = &&_split (not (d == c)) (lacks c s) h in
    let differs : (d == c) ≡ false = ground arith in rw (differs, split_on-append c s t rest k) refl

module _ (wc : WebCrypto) where
  -- A cipher that opens what it sealed.
  abbrev pub Opens : Type 0
  Opens =
      (key : wc.Key) (iv plain ct : List ℕ)
      → wc.encrypt key iv plain ≡ some ct
      → wc.decrypt key iv ct ≡ some plain

  -- The two parts of a sealed text.
  decrypt_secret_lem :
      (iv ct : List ℕ) (app_key : Text) (key : wc.Key) (plain : List ℕ)
      → import_aes_gcm_key wc app_key ≡ ok key
      → wc.decrypt key iv ct ≡ some plain
      → decrypt_secret wc
          (b64url_encode wc.base64 iv ++ (b':' ∷ b64url_encode wc.base64 ct))
          app_key
        ≡ ok (wc.utf8_decode plain)
  unfolding decrypt_secret
  decrypt_secret_lem iv ct app_key key plain imported opened =
      ap (λ parts. decrypt_split wc parts app_key)
        (split_on-append b':' (b64url_encode wc.base64 iv) (b64url_encode wc.base64 ct)
          (b64url_encode-lacks wc.base64 iv) (b64url_encode-lacks wc.base64 ct))
      ∙ rw (b64url_decode-encode wc.base64 iv, b64url_decode-encode wc.base64 ct, imported, opened)
          refl

  -- A secret that was sealed under an app key is read back under it, whatever the nonce, where the
  -- cipher opens what it sealed and the decoder reads the secret's encoding back.
  pub decrypt_secret-encrypt_secret :
      Opens
      → (iv : List ℕ) (plaintext app_key : Text) (c : Text)
      → wc.utf8_decode (wc.utf8 plaintext) ≡ plaintext
      → encrypt_secret wc iv plaintext app_key ≡ ok c
      → decrypt_secret wc c app_key ≡ ok plaintext
  unfolding encrypt_secret
  decrypt_secret-encrypt_secret opens iv plaintext app_key c reads sealed =
      by_key (import_aes_gcm_key wc app_key) refl sealed
    where
      by_cipher :
          (key : wc.Key) (o : Option (List ℕ))
          → import_aes_gcm_key wc app_key ≡ ok key
          → wc.encrypt key iv (wc.utf8 plaintext) ≡ o
          → and_then
              (or_fail not_encrypted o)
              (λ ct. ok (b64url_encode wc.base64 iv ++ (b':' ∷ b64url_encode wc.base64 ct)))
            ≡ ok c
          → decrypt_secret wc c app_key ≡ ok plaintext
      by_cipher key none i e h = absurd (ground arith)
      by_cipher key (some ct) i e h =
          let made : b64url_encode wc.base64 iv ++ (b':' ∷ b64url_encode wc.base64 ct) ≡ c = cc in
          ap (λ s. decrypt_secret wc s app_key) (sym made)
          ∙ (decrypt_secret_lem iv ct app_key key (wc.utf8 plaintext) i
                (opens key iv (wc.utf8 plaintext) ct e)
              ∙ ap ok reads)

      by_key :
          (r : Result CipherError wc.Key)
          → import_aes_gcm_key wc app_key ≡ r
          → and_then r (λ key.
            and_then
              (or_fail not_encrypted (wc.encrypt key iv (wc.utf8 plaintext)))
              (λ ct. ok (b64url_encode wc.base64 iv ++ (b':' ∷ b64url_encode wc.base64 ct))))
            ≡ ok c
          → decrypt_secret wc c app_key ≡ ok plaintext
      by_key (err e) i h = absurd (ground arith)
      by_key (ok key) i h = by_cipher key (wc.encrypt key iv (wc.utf8 plaintext)) i refl h
