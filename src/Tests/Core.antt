-- ===== src/Tests/Core.antt =====
-- The theorems of core/ at concrete inputs.
use tetrac_login_sdk.Prelude.{ℕ, ◌≡◌, ◌≢◌, refl, true, Bool, List, codes, replicate, lacks, text_eq}
use tetrac_login_sdk.Core.Offchain.{
  legacy_bytes, v0_bytes, encode_offchain_message, encode_offchain_message_legacy,
  is_printable_ascii,
}
use tetrac_login_sdk.Core.Offchain.Separation.{legacy-ne-v0}
use tetrac_login_sdk.Core.Config.{parse_origin}
use tetrac_login_sdk.Core.Messages.{
  login_text, wallet_login_message, is_siws_address, is_siws_nonce,
}
use tetrac_login_sdk.Core.Messages.Binding.{wallet_login_message-injective}
use tetrac_login_sdk.Tests.Setup.{
  platform, parse_site, parse_site-UrlsAreClean, site, site_url, key, nonce,
}

abbrev decodes : List ℕ → Bool
decodes bytes = true

abbrev signer : List ℕ
signer = replicate 32 7

legacy-ne-v0_example :
    legacy_bytes 0 (codes "Sign in") ≢ v0_bytes (replicate 32 0) 0 signer (codes "Sign in")
unfolding encode_offchain_message encode_offchain_message_legacy is_printable_ascii
legacy-ne-v0_example = legacy-ne-v0 decodes (codes "Sign in") (codes "Sign in") signer refl refl

wallet_login_message-injective_example :
    (site_url.host ≡ site_url.host)
    × (key ≡ key)
    × (site_url.origin ≡ site_url.origin)
    × (nonce ≡ nonce)
unfolding wallet_login_message parse_origin parse_site text_eq lacks is_siws_address is_siws_nonce
wallet_login_message-injective_example =
    wallet_login_message-injective platform parse_site-UrlsAreClean nonce site key nonce site key
      {m = login_text site_url.host site_url.origin key nonce} site_url site_url refl refl refl refl
