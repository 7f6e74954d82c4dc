-- ===== src/Tests/Setup.antt =====
-- A small platform, and deployments over the in-memory adapter. Its keys are their own bytes, and a
-- signature is valid when it is the key that signs.
use tetrac_login_sdk.Prelude.{
  true, ◌≡◌, refl, Option, none, some, [], ◌∷◌, ◌++◌, Text, codes, text_eq, subst, lacks,
  if◌then◌else◌, replicate, arith, false, String,
}
use text.Mathlib.Text.{◌==◌ as str_eq}
use tetrac_login_sdk.Core.Platform.{Platform, Url}
use tetrac_login_sdk.Core.Js.{undefined, Js, end, field, str, obj, bool}
use tetrac_login_sdk.Core.Config.{default_config}
use tetrac_login_sdk.Core.Types.{UserData, EncryptedWallet, email, solana, signing}
use tetrac_login_sdk.Core.Messages.Binding.{UrlsAreClean}
use tetrac_login_sdk.Effect.{World}
use tetrac_login_sdk.Storage.Decimal.{to_decimal}
use tetrac_login_sdk.Storage.Memory.{Entry, Memory, memory_adapter}
use tetrac_login_sdk.Storage.Kv.{JsonCodec, kv_store}
use tetrac_login_sdk.Server.Http.{BodyParser, Request, buffered}
use tetrac_login_sdk.Server.Routes.{Deployment}

abbrev pub site_url : Url
site_url = record {
  protocol = codes "https:";
  username = [];
  password = [];
  pathname = codes "/";
  host = codes "app.example";
  origin = codes "https://app.example";
}

abbrev pub site : Text
site = codes "https://app.example"

unfoldable pub parse_site : Text → Option Url
parse_site s = if text_eq s site then some site_url else none

abbrev pub platform : Platform
platform = record {
  to_lower_case = λ s. s;
  sha256_hex = λ s. s;
  utf8 = λ s. s;
  is_utf8 = λ s. true;
  parse_url = parse_site;
  public_key_bytes = λ s. some s;
  to_base58 = λ s. s;
  verify = λ m s k. some (text_eq s k);
  random_bytes = λ n. replicate 32 n;
  number_text = to_decimal;
}

pub parse_site-UrlsAreClean : UrlsAreClean platform
unfolding parse_site lacks
parse_site-UrlsAreClean s u h =
    let same : site_url ≡ u = ground arith in
    subst (λ v. (lacks b' ' v.host ≡ true) × (lacks 10 v.origin ≡ true)) same (refl, refl)

abbrev pub auth_key : Text
auth_key = replicate 64 b'a'

abbrev pub nonce : Text
nonce = replicate 64 b'7'

-- A wallet's key: 32 characters of the base58 alphabet.
abbrev pub key : Text
key = replicate 32 b'K'

abbrev pub hex_of_key : Text
hex_of_key = codes "4b4b4b4b4b4b4b4b4b4b4b4b4b4b4b4b4b4b4b4b4b4b4b4b4b4b4b4b4b4b4b4b"

abbrev pub alice : UserData
alice = record {
  app_id = codes "ttc";
  public_key = key;
  email = str (codes "a@b.c");
  auth_public_key = str auth_key;
  auth_method = email;
  wallets = [];
  created_at = 0;
  pbkdf2_iterations = none;
  offchain_envelope = none;
  auth_token_hash = none;
  auth_token = undefined;
}

abbrev pub trading : EncryptedWallet
trading = record { chain = solana; role = signing; public_key = key; encrypted_secret = codes "x" }

abbrev pub codec : JsonCodec
codec = record {
  profile_text = λ u. codes "alice";
  parse_profile = λ s. if text_eq s (codes "alice") then some alice else none;
  wallet_text = λ w. codes "trading";
  parse_wallet = λ s. if text_eq s (codes "trading") then some trading else none;
}

abbrev pub request : Request
request = record { header = λ name. none; query = λ name. none; body = buffered (some []) }

-- Texts are their own bytes, and any text is the JSON of one value.
abbrev pub parser_of : Js → BodyParser
parser_of body = record {
  number_of = λ h. none;
  decode = λ bytes. bytes;
  encode = λ text. text;
  decode_chunk = λ seen chunk. chunk;
  decode_rest = λ seen. [];
  parse_json = λ text. some body;
}

abbrev pub deployment : Js → Deployment Memory
deployment body = record {
  platform = platform;
  parser = parser_of body;
  store = kv_store platform codec memory_adapter (default_config site).key_prefixes;
  config = default_config site;
  gate = none;
}

abbrev entry : Entry
entry = record { value = codes "1"; expires_at = none }

-- Alice's account, and a challenge that was issued to her.
abbrev pub with_alice : World Memory
with_alice = record {
  state = record {
    store = (codes "challenge:ttc:" ++ (key ++ (b':' ∷ nonce)), entry) ∷ [];
    hstore =
        (codes "pubKey:ttc:" ++ key, (codes "p", codes "alice") ∷ [])
        ∷ (codes "email:a@b.c", (codes "ttc", key) ∷ [])
        ∷ [];
  };
  draws = 0;
  now = 5;
}

abbrev pub login_body : Js
login_body = obj (
    field "email" (str (codes "a@b.c"))
      (field "signature" (str auth_key) (field "challenge" (str nonce) end)))

-- A challenge that was issued to a key without an account.
abbrev pub with_challenge : World Memory
with_challenge = record {
  state = record {
    store = (codes "challenge:ttc:" ++ (key ++ (b':' ∷ nonce)), entry) ∷ [];
    hstore = [];
  };
  draws = 0;
  now = 5;
}

abbrev pub wallet_body : Js
wallet_body = obj (
    field "publicKey" (str key)
      (field "signature" (str hex_of_key) (field "challenge" (str nonce) end)))

abbrev pub register_body : Js
register_body = obj (
    field "publicKey" (str key) (
      field "email" (str (codes "a@b.c")) (
        field "authPublicKey" (str auth_key)
          (field "signature" (str hex_of_key) (field "challenge" (str nonce) end)))))

abbrev pub falsy_email_body : Js
falsy_email_body = obj (field "publicKey" (str key) (field "email" (bool false) end))

abbrev pub headers : String → Option Text
headers name =
    if str_eq name "ttc-auth-token"
    then some (codes "token")
    else if str_eq name "ttc-public-key"
    then some key
    else none

abbrev pub session_request : Request
session_request = record { header = headers; query = λ name. none; body = buffered none }

-- Alice is signed in with a token.
abbrev pub signed_in_alice : World Memory
signed_in_alice = record {
  state = record {
    store = (codes "session:ttc:token", record { value = key; expires_at = some 100 }) ∷ [];
    hstore =
        (codes "pubKey:ttc:" ++ key, (codes "p", codes "alice") ∷ (codes "t", codes "token") ∷ [])
        ∷ [];
  };
  draws = 0;
  now = 5;
}
