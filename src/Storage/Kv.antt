-- ===== src/Storage/Kv.antt =====
-- storage/store.ts: the domain store over any key-value adapter. The adapter, the key prefixes and
-- the JSON texts of records are parameters.
pub mod RateLimit
pub mod Emails
pub mod SessionCodec
pub mod Challenges
pub mod Refines
use tetrac_login_sdk.Prelude.{
  ℕ, ◌+◌, ◌-◌, Bool, false, ◌&&◌, Option, none, some, List, [], ◌∷◌, ◌++◌, Text, codes, text_eq,
  split_first, leb, ◌==◌, is_some, if◌then◌else◌, Result, ok, err,
}
use tetrac_login_sdk.Core.Platform.{Platform}
use tetrac_login_sdk.Core.Js.{Js, truthy, str}
use tetrac_login_sdk.Core.Types.{
  Chain, solana, evm, WalletRole, funds, signing, EncryptedWallet, UserData, sort_wallets_by_slot,
}
use tetrac_login_sdk.Core.Config.{KeyPrefixes, trim}
use tetrac_login_sdk.Effect.{
  Act, Fault, type_error, parse_error, email_taken, pure, throw, ◌>>=◌, ◌>>◌,
}
use tetrac_login_sdk.Storage.Map.{Map, lookup}
use tetrac_login_sdk.Storage.Keys.{app_scoped}
use tetrac_login_sdk.Storage.Adapter.{
  StorageAdapter, AuthStore, SessionValue, RateLimitBucket, RateLimitResult,
}

-- `JSON.stringify` and `JSON.parse` of what is stored; `none` is a `SyntaxError`. A profile is a
-- record without its wallets and its session pointer.
pub record JsonCodec : Type 0 where
  pub profile_text : UserData → Text
  pub parse_profile : Text → Option UserData
  pub wallet_text : EncryptedWallet → Text
  pub parse_wallet : Text → Option EncryptedWallet

abbrev pub profile_of : UserData → UserData
profile_of user = record user { wallets = []; auth_token_hash = none }

unfoldable pub normalize_email : Platform → Text → Text
normalize_email p email = trim (p.to_lower_case email)

abbrev pub f_profile : Text
f_profile = codes "p"

abbrev pub f_token : Text
f_token = codes "t"

abbrev pub chain_text : Chain → Text
chain_text solana = codes "solana"
chain_text evm = codes "evm"

abbrev pub role_text : WalletRole → Text
role_text funds = codes "funds"
role_text signing = codes "signing"

unfoldable pub wallet_field : Chain → WalletRole → Text
wallet_field chain role = codes "w:" ++ (chain_text chain ++ (b':' ∷ role_text role))

-- `field.startsWith("w:")`
unfoldable pub is_wallet_field : Text → Bool
is_wallet_field (a ∷ b ∷ rest) = (a == b'w') && (b == b':')
is_wallet_field _ = false

unfoldable pub encode_session : SessionValue → Text
encode_session v = elim v.fingerprint [
  | none ↦ v.public_key
  | some f ↦ (if text_eq f [] then v.public_key else v.public_key ++ (b'|' ∷ f))
]

unfoldable pub decode_session : Text → SessionValue
unfolding split_first
decode_session raw = elim (split_first b'|' raw) [
  | none ↦ record { public_key = raw; fingerprint = none }
  | some (a, b) ↦ record { public_key = a; fingerprint = some b }
]

unfoldable pub rate_limit_key : KeyPrefixes → RateLimitBucket → Text
rate_limit_key prefixes b = elim b.app_id [
  | none ↦ prefixes.rate_limit ++ (b.endpoint ++ (b':' ∷ b.identifier))
  | some app_id ↦ prefixes.rate_limit ++ (b.endpoint ++ (b':' ∷ (app_id ++ (b':' ∷ b.identifier))))
]

abbrev pub or_throw : {S A : Type 0} → Option A → Fault → Act S A
or_throw none e = throw e
or_throw (some a) e = pure a

abbrev pub lift : {S A : Type 0} → Result Fault A → Act S A
lift r w = (r, w)

-- `holder === publicKey`, where the holder may be `null`.
abbrev pub holds : Option Text → Text → Bool
holds none pk = false
holds (some h) pk = text_eq h pk

module _ (json : JsonCodec) where
  -- The loop over the fields of a record.
  unfoldable pub parse_wallets : Map Text → Result Fault (List EncryptedWallet)
  parse_wallets [] = ok []
  parse_wallets ((field, raw) ∷ h) =
      let rest = parse_wallets h in
      if is_wallet_field field
      then elim (json.parse_wallet raw) [
        | none ↦ err parse_error
        | some w ↦ elim rest [ ok ws ↦ ok (w ∷ ws) | err e ↦ err e ]
      ]
      else rest

  abbrev token_of : UserData → Option Text → Option Text
  token_of user none = user.auth_token_hash
  token_of user (some t) = if text_eq t [] then user.auth_token_hash else some t

  unfoldable pub read_profile : Map Text → Text → Result Fault (Option UserData)
  unfolding parse_wallets
  read_profile h profile = elim (json.parse_profile profile) [
    | none ↦ err parse_error
    | some user ↦ elim (parse_wallets h) [
      | err e ↦ err e
      | ok ws ↦ ok (
          some (record user {
            wallets = sort_wallets_by_slot ws;
            auth_token_hash = token_of user (lookup f_token h);
          }))
    ]
  ]

  -- What `getUser` makes of the fields of a record.
  unfoldable pub read_record : Map Text → Result Fault (Option UserData)
  unfolding read_profile
  read_record h = elim (lookup f_profile h) [
    | none ↦ ok none
    | some profile ↦ (if text_eq profile [] then ok none else read_profile h profile)
  ]

module _ {S : Type 0} (p : Platform) (json : JsonCodec) (kv : StorageAdapter S)
    (prefixes : KeyPrefixes) where
  abbrev pub email_key : Text → Text
  email_key email = prefixes.email ++ normalize_email p email

  abbrev record_key : Text → Text → Text
  record_key app_id pk = app_scoped prefixes.pub_key app_id pk

  unfoldable pub get_user : Text → Text → Act S (Option UserData)
  unfolding ◌>>=◌ read_record
  get_user app_id pk = do h ← kv.hgetall (record_key app_id pk); lift (read_record json h)

  unfoldable pub put_wallet_slot : Text → Text → EncryptedWallet → Act S (Unit {0})
  put_wallet_slot app_id pk w =
      kv.hset (record_key app_id pk) (wallet_field w.chain w.role) (json.wallet_text w)

  unfoldable pub set_session_pointer : Text → Text → Text → Act S (Unit {0})
  set_session_pointer app_id pk token_hash = kv.hset (record_key app_id pk) f_token token_hash

  unfoldable pub put_token : Text → Option Text → Act S (Unit {0})
  put_token key none = pure tt
  put_token key (some t) = if text_eq t [] then pure tt else kv.hset key f_token t

  unfoldable pub put_wallets : Text → List EncryptedWallet → Act S (Unit {0})
  unfolding ◌>>◌
  put_wallets key [] = pure tt
  put_wallets key (w ∷ ws) = do
    kv.hset key (wallet_field w.chain w.role) (json.wallet_text w)
    put_wallets key ws

  -- Claim the address, or find that it is this identity's own.
  unfoldable pub claim_email : Text → Text → Text → Act S (Unit {0})
  unfolding ◌>>=◌
  claim_email email app_id pk = do
    fresh ← kv.hsetnx (email_key email) app_id pk
    if fresh then pure tt else do
      holder ← kv.hget (email_key email) app_id
      if holds holder pk then pure tt else throw email_taken

  unfoldable pub index_email : Js → Text → Text → Act S (Unit {0})
  unfolding claim_email
  index_email (str email) app_id pk =
      if text_eq email [] then pure tt else claim_email email app_id pk
  index_email v app_id pk = if truthy v then throw type_error else pure tt

  unfoldable pub put_user : UserData → Act S (Unit {0})
  unfolding ◌>>◌ put_token put_wallets index_email
  put_user user = do
    kv.hset (record_key user.app_id user.public_key) f_profile (json.profile_text (profile_of user))
    put_token (record_key user.app_id user.public_key) user.auth_token_hash
    put_wallets (record_key user.app_id user.public_key) user.wallets
    index_email user.email user.app_id user.public_key

  unfoldable pub get_public_key_by_email : Text → Text → Act S (Option Text)
  get_public_key_by_email app_id email = kv.hget (email_key email) app_id

  abbrev pub challenge_key : Text → Text → Text → Text
  challenge_key app_id pk challenge = app_scoped prefixes.challenge app_id pk ++ (b':' ∷ challenge)

  unfoldable pub put_challenge : Text → Text → Text → ℕ → Act S (Unit {0})
  put_challenge app_id pk challenge ttl =
      kv.set (challenge_key app_id pk challenge) (codes "1") (some ttl)

  unfoldable pub take_challenge : Text → Text → Text → Act S Bool
  unfolding ◌>>=◌
  take_challenge app_id pk presented = do
    found ← kv.getdel (challenge_key app_id pk presented)
    pure (is_some found)

  abbrev session_key : Text → Text → Text
  session_key app_id token_hash = app_scoped prefixes.session app_id token_hash

  unfoldable pub put_session : Text → Text → SessionValue → ℕ → Act S (Unit {0})
  put_session app_id token_hash value ttl =
      kv.set (session_key app_id token_hash) (encode_session value) (some ttl)

  unfoldable pub get_session : Text → Text → Act S (Option SessionValue)
  unfolding ◌>>=◌
  get_session app_id token_hash = do
    raw ← kv.get (session_key app_id token_hash)
    pure (elim raw [ none ↦ none | some r ↦ some (decode_session r) ])

  unfoldable pub delete_session : Text → Text → Act S (Unit {0})
  delete_session app_id token_hash = kv.del (session_key app_id token_hash)

  -- The time to live is stamped on the first hit of a window, and once past the cap.
  unfoldable pub stamp_window : Text → ℕ → ℕ → ℕ → Act S (Unit {0})
  stamp_window key window_seconds max_attempts count =
      if count == 1
      then kv.expire key window_seconds
      else if count == max_attempts + 1
      then kv.expire key window_seconds
      else pure tt

  unfoldable pub hit_rate_limit : RateLimitBucket → ℕ → ℕ → Act S RateLimitResult
  unfolding ◌>>=◌ ◌>>◌ stamp_window
  hit_rate_limit bucket window_seconds max_attempts = do
    count ← kv.incr (rate_limit_key prefixes bucket)
    stamp_window (rate_limit_key prefixes bucket) window_seconds max_attempts count
    pure (record { allowed = leb count max_attempts; remaining = max_attempts - count })

  abbrev pub kv_store : AuthStore S
  kv_store = record {
    get_user = get_user;
    put_user = put_user;
    put_wallet_slot = put_wallet_slot;
    set_session_pointer = set_session_pointer;
    get_public_key_by_email = get_public_key_by_email;
    put_challenge = put_challenge;
    take_challenge = take_challenge;
    put_session = put_session;
    get_session = get_session;
    delete_session = delete_session;
    hit_rate_limit = hit_rate_limit;
  }
