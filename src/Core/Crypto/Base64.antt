-- ===== src/Core/Crypto/Base64.antt =====
-- `b64urlEncode` and `b64urlDecode` of core/crypto.ts and client/webauthn.ts. `btoa` and `atob` are
-- the runtime's.
use tetrac_login_sdk.Prelude.{
  lacks, all-lacks, zero, suc, reverse, ℕ, ◌+◌, ◌-◌, ◌%◌, ◌≤◌, ◌≡◌, refl, sym, ap, ◌∙◌, Bool, true,
  not, ◌&&◌, ◌||◌, Option, some, List, [], ◌∷◌, ◌++◌, map, Text, length, replicate, all, ◌==◌, leb,
  if◌then◌else◌, arith, &&_split,
}
use mathlib.Core.List.{map-append, reverse-append, reverse-cons, reverse-reverse}
use tetrac_login_sdk.Core.Config.{drop_while, drop_while_end}

-- `[A-Za-z0-9+/]`
unfoldable pub is_base64 : ℕ → Bool
is_base64 c =
    (leb b'A' c && leb c b'Z')
    || ((leb b'a' c && leb c b'z') || ((leb b'0' c && leb c b'9') || ((c == b'+') || (c == b'/'))))

-- What the runtime is documented to do: `btoa` writes characters of the alphabet and at most two
-- signs `=`, up to a multiple of four, and `atob` reads them back; `none` is a thrown error.
pub record Base64 : Type 0 where
  pub btoa : List ℕ → Text
  pub atob : Text → Option (List ℕ)
  pub digits : List ℕ → Text
  pub padding : List ℕ → ℕ
  pub btoa_lem : (b : List ℕ) → btoa b ≡ digits b ++ replicate (padding b) b'='
  pub digits_lem : (b : List ℕ) → all is_base64 (digits b) ≡ true
  pub padding-le : (b : List ℕ) → padding b ≤ 2
  pub whole : (b : List ℕ) → (length (digits b) + padding b) % 4 ≡ 0
  pub atob-btoa : (b : List ℕ) → atob (btoa b) ≡ some b

abbrev pub to_url : ℕ → ℕ
to_url c = if c == b'+' then b'-' else if c == b'/' then b'_' else c

abbrev pub from_url : ℕ → ℕ
from_url c = if c == b'-' then b'+' else if c == b'_' then b'/' else c

abbrev missing : ℕ → Text
missing n = if n % 4 == 0 then [] else replicate (4 - n % 4) b'='

from_url-to_url : (c : ℕ) → is_base64 c ≡ true → from_url (to_url c) ≡ c
unfolding is_base64
from_url-to_url c h = ground arith

map-from_url : (s : Text) → all is_base64 s ≡ true → map from_url (map to_url s) ≡ s
map-from_url [] h = refl
map-from_url (c ∷ s) h =
    let (x, rest) = &&_split (is_base64 c) (all is_base64 s) h in
    rw (from_url-to_url c x, map-from_url s rest) refl

module _ (p : ℕ → Bool) where
  all-append : (s t : Text) → all p s ≡ true → all p t ≡ true → all p (s ++ t) ≡ true
  all-append [] t h k = k
  all-append (c ∷ s) t h k =
      let (x, rest) = &&_split (p c) (all p s) h in rw (x, all-append s t rest k) refl

  all-reverse : (s : Text) → all p s ≡ true → all p (reverse s) ≡ true
  all-reverse [] h = refl
  all-reverse (c ∷ s) h =
      let (x, rest) = &&_split (p c) (all p s) h in
      rw (reverse-cons c s) (all-append (reverse s) (c ∷ []) (all-reverse s rest) (rw x refl))

  drop_while-append : (s t : Text) → all p s ≡ true → drop_while p (s ++ t) ≡ drop_while p t
  unfolding drop_while
  drop_while-append [] t h = refl
  drop_while-append (c ∷ s) t h =
      let (x, rest) = &&_split (p c) (all p s) h in rw (x, drop_while-append s t rest) refl

  drop_while-none : (s : Text) → all (λ c. not (p c)) s ≡ true → drop_while p s ≡ s
  unfolding drop_while
  drop_while-none [] h = refl
  drop_while-none (c ∷ s) h = ground arith

-- Only what ends a text is dropped from its end.
drop_while_end-append :
    (p : ℕ → Bool) (s t : Text)
    → all (λ c. not (p c)) s ≡ true
    → all p t ≡ true
    → drop_while_end p (s ++ t) ≡ s
drop_while_end-append p s t h k =
    rw
      (
        reverse-append s t,
        drop_while-append p (reverse t) (reverse s) (all-reverse p t k),
        drop_while-none p (reverse s) (all-reverse (λ c. not (p c)) s h),
      )
      (reverse-reverse s)

all-replicate : (p : ℕ → Bool) (n c : ℕ) → p c ≡ true → all p (replicate n c) ≡ true
all-replicate p zero c h = refl
all-replicate p (suc n) c h = rw (h, all-replicate p n c h) refl

to_url-not_padding : (c : ℕ) → is_base64 c ≡ true → not (to_url c == b'=') ≡ true
unfolding is_base64
to_url-not_padding c h = ground arith

no_padding : (s : Text) → all is_base64 s ≡ true → all (λ c. not (c == b'=')) (map to_url s) ≡ true
no_padding [] h = refl
no_padding (c ∷ s) h =
    let (x, rest) = &&_split (is_base64 c) (all is_base64 s) h in
    rw (to_url-not_padding c x, no_padding s rest) refl

to_url-not_colon : (c : ℕ) → is_base64 c ≡ true → not (to_url c == b':') ≡ true
unfolding is_base64
to_url-not_colon c h = ground arith

no_colon : (s : Text) → all is_base64 s ≡ true → all (λ c. not (c == b':')) (map to_url s) ≡ true
no_colon [] h = refl
no_colon (c ∷ s) h =
    let (x, rest) = &&_split (is_base64 c) (all is_base64 s) h in
    rw (to_url-not_colon c x, no_colon s rest) refl

map-replicate : (f : ℕ → ℕ) (n c : ℕ) → map f (replicate n c) ≡ replicate n (f c)
map-replicate f zero c = refl
map-replicate f (suc n) c = rw (map-replicate f n c) refl

module _ (b64 : Base64) where
  unfoldable pub b64url_encode : List ℕ → Text
  unfolding drop_while
  b64url_encode bytes = drop_while_end (λ c. c == b'=') (map to_url (b64.btoa bytes))

  unfoldable pub b64url_decode : Text → Option (List ℕ)
  b64url_decode s = b64.atob (map from_url s ++ missing (length s))

  b64url_encode_lem : (b : List ℕ) → b64url_encode b ≡ map to_url (b64.digits b)
  unfolding b64url_encode
  b64url_encode_lem b =
      rw
        (
          b64.btoa_lem b,
          map-append to_url (b64.digits b) (replicate (b64.padding b) b'='),
          map-replicate to_url (b64.padding b) b'=',
        )
        (drop_while_end-append (λ c. c == b'=') (map to_url (b64.digits b))
          (replicate (b64.padding b) b'=') (no_padding (b64.digits b) (b64.digits_lem b))
          (all-replicate (λ c. c == b'=') (b64.padding b) b'=' refl))

  -- The signs that the decoder adds are those that the encoder took away.
  missing_lem : (n k : ℕ) → k ≤ 2 → (n + k) % 4 ≡ 0 → missing n ≡ replicate k b'='
  missing_lem n zero few whole = ground arith
  missing_lem n (suc zero) few whole = let e : n % 4 ≡ 3 = omega arith in rw e refl
  missing_lem n (suc (suc zero)) few whole = let e : n % 4 ≡ 2 = omega arith in rw e refl
  missing_lem n (suc (suc (suc k))) few whole = absurd (omega arith)

  length-map : (f : ℕ → ℕ) (s : Text) → length (map f s) ≡ length s
  length-map f [] = refl
  length-map f (c ∷ s) = ap suc (length-map f s)

  -- Bytes are read back from their text.
  pub b64url_decode-encode : (b : List ℕ) → b64url_decode (b64url_encode b) ≡ some b
  unfolding b64url_decode
  b64url_decode-encode b =
      let d = b64.digits b in
      let k = b64.padding b in
      let same : map from_url (map to_url d) ≡ d = map-from_url d (b64.digits_lem b) in
      let back : missing (length (map to_url d)) ≡ replicate k b'=' =
        ap missing (length-map to_url d)
        ∙ missing_lem (length d) k (b64.padding-le b) (b64.whole b) in
      ap (λ s. b64.atob (map from_url s ++ missing (length s))) (b64url_encode_lem b)
      ∙ (ap (λ s. b64.atob (s ++ missing (length (map to_url d)))) same
          ∙ (ap (λ s. b64.atob (d ++ s)) back
              ∙ (ap b64.atob (sym (b64.btoa_lem b)) ∙ b64.atob-btoa b)))

  -- The text of bytes holds no colon.
  pub b64url_encode-lacks : (b : List ℕ) → lacks b':' (b64url_encode b) ≡ true
  b64url_encode-lacks b = rw (b64url_encode_lem b) (lacks-map (b64.digits b) (b64.digits_lem b))
    where
      lacks-map : (s : Text) → all is_base64 s ≡ true → lacks b':' (map to_url s) ≡ true
      lacks-map s h = all-lacks (λ c. not (c == b':')) b':' refl (map to_url s) (no_colon s h)
