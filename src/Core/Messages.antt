-- ===== src/Core/Messages.antt =====
-- core/index.ts: the messages that wallets and auth keys sign. `none` is a thrown error.
pub mod Binding
use tetrac_login_sdk.Prelude.{
  ℕ, Bool, ◌&&◌, ◌||◌, List, ◌++◌, Option, none, some, Text, codes, length, all, leb, not, ◌==◌,
  if◌then◌else◌, then?,
}
use tetrac_login_sdk.Core.Platform.{Platform, Url}
use tetrac_login_sdk.Core.Config.{parse_origin, normalize_origin}

abbrev pub wallet_login_statement : Text
wallet_login_statement =
    codes
      "Sign in to prove you own this wallet. This request does not send a transaction or cost any fees."

abbrev pub is_digit : ℕ → Bool
is_digit c = leb b'0' c && leb c b'9'

abbrev pub is_letter : ℕ → Bool
is_letter c = (leb b'a' c && leb c b'z') || (leb b'A' c && leb c b'Z')

abbrev pub is_alphanumeric : ℕ → Bool
is_alphanumeric c = is_letter c || is_digit c

-- `[1-9A-HJ-NP-Za-km-z]`
abbrev pub is_base58 : ℕ → Bool
is_base58 c =
    (leb b'1' c && leb c b'9')
    || ((leb b'A' c && leb c b'H')
        || ((leb b'J' c && leb c b'N')
            || ((leb b'P' c && leb c b'Z')
                || ((leb b'a' c && leb c b'k') || (leb b'm' c && leb c b'z')))))

unfoldable pub is_siws_address : Text → Bool
is_siws_address s = all is_base58 s && (leb 32 (length s) && leb (length s) 44)

unfoldable pub is_siws_nonce : Text → Bool
is_siws_nonce s = all is_alphanumeric s && leb 8 (length s)

-- The text of the message, from the parts that the checks let through.
unfoldable pub login_text : Text → Text → Text → Text → Text
login_text host origin address challenge =
    host
    ++ (codes " wants you to sign in with your Solana account:\n"
        ++ (address
            ++ (codes "\n\n"
                ++ (wallet_login_statement
                    ++ (codes "\n\nURI: "
                        ++ (origin ++ (codes "\nVersion: 1\nNonce: " ++ challenge)))))))

unfoldable pub wallet_login_message : Platform → Text → Text → Text → Option Text
wallet_login_message p challenge origin address = then? (parse_origin p origin) (λ url.
    if not (is_siws_address address)
    then none
    else if not (is_siws_nonce challenge)
    then none
    else some (login_text url.host url.origin address challenge))

unfoldable pub wallet_app_key_message : Platform → Text → Text → Text
wallet_app_key_message p app_id origin =
    codes
      "Unlock your encrypted TTC wallet keys.\n\nOnly sign this on a site you trust. This signature never leaves your device."
    ++ (codes "\n\nApp: " ++ (app_id ++ (codes "\nSite: " ++ normalize_origin p origin)))

unfoldable pub wallet_app_key_message_hw : Platform → Text → Text → Text
wallet_app_key_message_hw p app_id origin =
    codes
      "Unlock your encrypted TTC wallet keys. Only sign this on a site you trust. This signature never leaves your device."
    ++ (codes " App: " ++ (app_id ++ (codes " Site: " ++ normalize_origin p origin)))

unfoldable pub auth_login_message : Text → Text
auth_login_message challenge = codes "Sign in to your TTC account: " ++ challenge
