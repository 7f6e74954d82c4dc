-- ===== src/Server/Validate.antt =====
-- The validators of server/routes.ts, which type-check first: a body's field is any JSON value.
pub mod Wallets
pub mod AppIds
use tetrac_login_sdk.Prelude.{
  ℕ, zero, suc, ◌+◌, Bool, true, false, not, ◌&&◌, ◌||◌, List, [], ◌∷◌, Option, none, some, String,
  Text, codes, text_eq, split_first, all, length, ltb, leb, ◌==◌, if◌then◌else◌, then?,
}
use tetrac_login_sdk.Core.Platform.{Platform}
use tetrac_login_sdk.Core.Js.{Js, str, num}
use tetrac_login_sdk.Core.Types.{AuthMethod, email, wallet, biometric}
use tetrac_login_sdk.Core.Offchain.{OffchainEnvelope, legacy, v0}
use tetrac_login_sdk.Core.Config.{AuthConfig, is_space}
use tetrac_login_sdk.Core.Messages.{is_alphanumeric}
use tetrac_login_sdk.Server.Sessions.{is_hex64}

-- `[^\s@]`
unfoldable pub is_email_char : ℕ → Bool
is_email_char c = not (is_space c) && not (c == b'@')

-- A '.' with something behind it.
unfoldable pub has_inner_dot : Text → Bool
has_inner_dot [] = false
has_inner_dot (c ∷ []) = false
has_inner_dot (c ∷ d ∷ s) = (c == b'.') || has_inner_dot (d ∷ s)

-- `[^\s@]+\.[^\s@]+`, all of it
unfoldable pub is_domain : Text → Bool
unfolding has_inner_dot
is_domain [] = false
is_domain (c ∷ s) = all is_email_char (c ∷ s) && has_inner_dot s

-- `/^[^\s@]+@[^\s@]+\.[^\s@]+$/`
unfoldable pub is_email : Text → Bool
unfolding is_email_char is_domain split_first
is_email s = elim (split_first b'@' s) [
  | none ↦ false
  | some (local, domain) ↦ not (text_eq local []) && (all is_email_char local && is_domain domain)
]

-- The validators answer the message of a refusal.
unfoldable pub validate_email : Js → Option String
unfolding is_email
validate_email (str s) =
    if ltb 320 (length s) || not (is_email s) then some "Invalid email format" else none
validate_email _ = some "Invalid email format"

abbrev pub is_app_id_char : ℕ → Bool
is_app_id_char c = is_alphanumeric c || ((c == b'.') || ((c == b'_') || (c == b'-')))

-- `/^[A-Za-z0-9][A-Za-z0-9._-]{0,63}$/`
unfoldable pub is_app_id : Text → Bool
is_app_id [] = false
is_app_id (c ∷ s) = is_alphanumeric c && (all is_app_id_char s && leb (length s) 63)

unfoldable pub includes : List Text → Text → Bool
includes [] a = false
includes (x ∷ xs) a = text_eq x a || includes xs a

abbrev allowed : Option (List Text) → Text → Bool
allowed none a = true
allowed (some ids) a = includes ids a

unfoldable pub validate_app_id : Js → AuthConfig → Option String
unfolding is_app_id includes
validate_app_id (str a) config =
    if not (is_app_id a)
    then some "Invalid appId format"
    else if not (allowed config.allowed_app_ids a)
    then some "Unknown appId"
    else none
validate_app_id _ config = some "Invalid appId format"

abbrev is_canonical : Platform → Text → Option (List ℕ) → Bool
is_canonical p key none = false
is_canonical p key (some bytes) = (length bytes == 32) && text_eq (p.to_base58 bytes) key

unfoldable pub validate_public_key : Platform → Js → Option String
validate_public_key p (str key) =
    if text_eq key [] || not (is_canonical p key (p.public_key_bytes key))
    then some "Invalid publicKey format"
    else none
validate_public_key p _ = some "Invalid publicKey format"

unfoldable pub validate_auth_public_key : Js → Option String
unfolding is_hex64
validate_auth_public_key (str key) =
    if not (is_hex64 key) then some "Invalid authPublicKey format" else none
validate_auth_public_key _ = some "Invalid authPublicKey format"

abbrev pub pbkdf2_min : ℕ
pbkdf2_min = 100000

abbrev pub pbkdf2_max : ℕ
pbkdf2_max = 1000000

-- The checked value, where the source's type guards answer a boolean.
unfoldable pub valid_iterations : Js → Option ℕ
valid_iterations (num n) = if leb pbkdf2_min n && leb n pbkdf2_max then some n else none
valid_iterations _ = none

unfoldable pub valid_envelope : Js → Option OffchainEnvelope
valid_envelope (str s) =
    if text_eq s (codes "legacy")
    then some legacy
    else if text_eq s (codes "v0")
    then some v0
    else none
valid_envelope _ = none

unfoldable pub valid_auth_method : Js → Option AuthMethod
valid_auth_method (str s) =
    if text_eq s (codes "email")
    then some email
    else if text_eq s (codes "wallet")
    then some wallet
    else if text_eq s (codes "biometric")
    then some biometric
    else none
valid_auth_method _ = none
