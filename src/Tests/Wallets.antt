-- ===== src/Tests/Wallets.antt =====
-- The theorems on sealed secrets and generated wallets at concrete inputs.
use tetrac_login_sdk.Prelude.{
  append-nil, sym, drop, drop-append, append_assoc, ℕ, zero, suc, ◌+◌, ◌-◌, ◌%◌, ◌≡◌, refl, ap, ◌∙◌,
  true, some, List, [], ◌∷◌, ◌++◌, Text, length, length-append, length-replicate, replicate, all,
  ◌==◌, if◌then◌else◌, ok, arith, codes,
}
use tetrac_login_sdk.Core.Types.{EncryptedWallet, Chain, WalletRole, solana, evm, funds, signing}
use tetrac_login_sdk.Core.Crypto.Base64.{Base64, is_base64}
use tetrac_login_sdk.Core.Crypto.Secrets.{
  Opens, WebCrypto, encrypt_secret, decrypt_secret, decrypt_secret-encrypt_secret,
}
use tetrac_login_sdk.Server.Validate.Wallets.{read_wallets}
use tetrac_login_sdk.Client.Wallets.{
  KeySource, Bundle, default_wallet_gen, generate_wallet_bundle, flatten_bundle,
}
use tetrac_login_sdk.Client.Wallets.Accepted.{wallets_json, generated-read_wallets}

-- A runtime whose text of a byte n is n times A and a B, filled up by Cs.
abbrev body : List ℕ → Text
body [] = []
body (n ∷ ns) = replicate n b'A' ++ (b'B' ∷ body ns)

abbrev fill : ℕ → ℕ
fill n = (4 - n % 4) % 4

abbrev digits : List ℕ → Text
digits b = body b ++ replicate (fill (length (body b))) b'C'

abbrev emit : ℕ → ℕ → List ℕ → List ℕ
emit c n rest = if c == b'B' then n ∷ rest else rest

abbrev count_on : ℕ → ℕ → ℕ
count_on c n = if c == b'A' then n + 1 else if c == b'B' then 0 else n

unfoldable pub read_body : Text → ℕ → List ℕ
read_body [] n = []
read_body (c ∷ s) n = emit c n (read_body s (count_on c n))

read_body_fill : (k n : ℕ) → read_body (replicate k b'C') n ≡ []
unfolding read_body
read_body_fill zero n = refl
read_body_fill (suc k) n = read_body_fill k n

read_body_byte :
    (k n : ℕ) (s : Text) → read_body (replicate k b'A' ++ (b'B' ∷ s)) n ≡ (n + k) ∷ read_body s 0
unfolding read_body
read_body_byte zero n s = let e : n ≡ n + 0 = omega arith in ap (λ m. m ∷ read_body s 0) e
read_body_byte (suc k) n s =
    let e : n + 1 + k ≡ n + suc k = omega arith in
    read_body_byte k (n + 1) s ∙ ap (λ m. m ∷ read_body s 0) e

read_body-body : (b : List ℕ) (k : ℕ) → read_body (body b ++ replicate k b'C') 0 ≡ b
read_body-body [] k = read_body_fill k 0
read_body-body (n ∷ ns) k =
    rw (append_assoc (replicate n b'A') (b'B' ∷ body ns) (replicate k b'C')) (
      read_body_byte n 0 (body ns ++ replicate k b'C')
      ∙ (let e : 0 + n ≡ n = omega arith in
          ap (λ m. m ∷ read_body (body ns ++ replicate k b'C') 0) e)
      ∙ ap (λ m. n ∷ m) (read_body-body ns k))

all-append :
    (s t : Text) → all is_base64 s ≡ true → all is_base64 t ≡ true → all is_base64 (s ++ t) ≡ true
all-append [] t h k = k
all-append (c ∷ s) t h k = ground (arith, all-append s t (ground arith) k)

all-replicate : (n c : ℕ) → is_base64 c ≡ true → all is_base64 (replicate n c) ≡ true
all-replicate zero c h = refl
all-replicate (suc n) c h = rw (h, all-replicate n c h) refl

body_alphabet : (b : List ℕ) → all is_base64 (body b) ≡ true
unfolding is_base64
body_alphabet [] = refl
body_alphabet (n ∷ ns) =
    all-append (replicate n b'A') (b'B' ∷ body ns) (all-replicate n b'A' refl) (body_alphabet ns)

pub digits_whole : (b : List ℕ) → (length (digits b) + 0) % 4 ≡ 0
digits_whole b = omega (
  arith,
  length-append (body b) (replicate (fill (length (body b))) b'C'),
  length-replicate {A = ℕ} (fill (length (body b))) b'C',
)

pub digits_alphabet : (b : List ℕ) → all is_base64 (digits b) ≡ true
unfolding is_base64
digits_alphabet b =
    all-append (body b) (replicate (fill (length (body b))) b'C') (body_alphabet b)
      (all-replicate (fill (length (body b))) b'C' refl)

pub digits_back : (b : List ℕ) → some (read_body (digits b) 0) ≡ some b
digits_back b = ap some (read_body-body b (fill (length (body b))))

abbrev pub runtime : Base64
runtime = record {
  btoa = digits;
  atob = λ s. some (read_body s 0);
  digits = digits;
  padding = λ b. 0;
  btoa_lem = λ b. sym (append-nil (digits b));
  digits_lem = digits_alphabet;
  padding-le = λ b. omega arith;
  whole = digits_whole;
  atob-btoa = digits_back;
}

abbrev pub web : WebCrypto
web = record {
  base64 = runtime;
  Key = List ℕ;
  parse_byte = λ a b. a;
  import_key = λ bytes. some bytes;
  encrypt = λ key iv plain. some (key ++ plain);
  decrypt = λ key iv ct. some (drop (length key) ct);
  utf8 = λ s. s;
  utf8_decode = λ b. b;
  pbkdf2_hex = λ passkey salt n. passkey ++ (n ∷ salt);
}

pub web_opens : Opens web
web_opens key iv plain ct e =
    let same : key ++ plain ≡ ct = cc in
    ap (λ c. some (drop (length key) c)) (sym same) ∙ ap some (drop-append key plain)

abbrev app_key : Text
app_key = 1 ∷ 2 ∷ []

sealed : encrypt_secret web (3 ∷ []) (2 ∷ []) app_key ≡ ok (codes "AAAB:ABAABCCC")
unfolding encrypt_secret
sealed = refl

decrypt_secret-encrypt_secret_example :
    decrypt_secret web (codes "AAAB:ABAABCCC") app_key ≡ ok (2 ∷ [])
decrypt_secret-encrypt_secret_example =
    decrypt_secret-encrypt_secret web web_opens (3 ∷ []) (2 ∷ []) app_key (codes "AAAB:ABAABCCC")
      refl sealed

abbrev keys : KeySource
keys = record {
  solana_pair = λ n. record { secret = n ∷ []; address = codes "S" };
  evm_pair = λ n. record { secret = n ∷ []; address = codes "0x" };
  nonce = λ n. n ∷ [];
}

abbrev wallet_of : Chain → WalletRole → Text → Text → EncryptedWallet
wallet_of chain role address secret = record {
  chain = chain;
  role = role;
  public_key = address;
  encrypted_secret = secret;
}

abbrev bundle : Bundle
bundle = record {
  solana_wallets = some (
      wallet_of solana funds (codes "S") (codes "BCCC:ABBC")
      ∷ wallet_of solana signing (codes "S") (codes "ABCC:ABAB")
      ∷ []);
  evm_wallets = some (
      wallet_of evm funds (codes "0x") (codes "BCCC:ABBC")
      ∷ wallet_of evm signing (codes "0x") (codes "ABCC:ABAB")
      ∷ []);
}

made : generate_wallet_bundle web keys app_key default_wallet_gen 0 0 ≡ ok bundle
unfolding generate_wallet_bundle
made = refl

generated-read_wallets_example :
    read_wallets (wallets_json (flatten_bundle bundle)) ≡ ok (flatten_bundle bundle)
unfolding flatten_bundle
generated-read_wallets_example =
    generated-read_wallets web keys app_key default_wallet_gen 0 0 bundle made (
      (omega arith, omega arith),
      ((omega arith, omega arith), ((omega arith, omega arith), ((omega arith, omega arith), tt))),
    )
