-- ===== src/Tests/Server.antt =====
-- The theorems of server/ at concrete inputs.
use tetrac_login_sdk.Prelude.{ℕ, ◌≡◌, refl, ap, ◌++◌, Text, codes, ok, err, Result, Option}
use tetrac_login_sdk.Effect.{World, Fault}
use tetrac_login_sdk.Storage.Memory.{Memory}
use tetrac_login_sdk.Server.Http.{Response, error}
use tetrac_login_sdk.Server.Routes.Login.{login}
use tetrac_login_sdk.Server.Routes.Login.Sound.{LoginEvidence, login_sound}
use tetrac_login_sdk.Prelude.{List, [], ◌∷◌, some, ◌≤◌, All, String, text_eq, length, arith}
use tetrac_login_sdk.Core.Js.{Js, str, obj, arr, item, nil, field, end, prop}
use tetrac_login_sdk.Core.Types.{Chain, solana, evm, funds, EncryptedWallet}
use tetrac_login_sdk.Core.Crypto.{random_hex}
use tetrac_login_sdk.Core.Config.{default_config}
use tetrac_login_sdk.Server.Http.{BodyParser, read_bounded, buffered, stream}
use tetrac_login_sdk.Prelude.{
  split_on, true, append_assoc, append-nil, ◌∙◌, none, sym, if◌then◌else◌,
}
use tetrac_login_sdk.Core.Config.{trim, drop_while, is_space}
use tetrac_login_sdk.Server.Http.{Request, client_ip, drop_empty}
use tetrac_login_sdk.Server.Http.Forwarded.{client_ip-append}
use tetrac_login_sdk.Server.Http.Bodies.{streamed, flatten, read_bounded-flatten}
use tetrac_login_sdk.Server.Signature.{hex_to_bytes}
use tetrac_login_sdk.Server.Validate.{validate_app_id, is_app_id}
use tetrac_login_sdk.Server.Validate.AppIds.{validate_app_id-app_scoped}
use tetrac_login_sdk.Server.Validate.Wallets.{read_wallets}
use tetrac_login_sdk.Server.Validate.Wallets.Bounds.{
  entries_of, DistinctSlots, IsBounded, read_wallets_lem,
}
use tetrac_login_sdk.Tests.Setup.{parser_of, site, deployment, request, with_alice, login_body}

abbrev answer_of : Result Fault Response → Response
answer_of (ok r) = r
answer_of (err e) = error "" 500

abbrev login_run : Result Fault Response × World Memory
login_run = login (deployment login_body) request with_alice

login_sound_example :
    LoginEvidence Memory
      (deployment login_body)
      request
      with_alice
      (answer_of login_run.0)
      login_run.1
unfolding login tetrac_login_sdk.Core.Js.truthy tetrac_login_sdk.Core.Js.prop
    tetrac_login_sdk.Server.Http.read_json tetrac_login_sdk.Server.Validate.validate_app_id
    tetrac_login_sdk.Core.Js.default_to tetrac_login_sdk.Server.Validate.validate_email
    tetrac_login_sdk.Prelude.text_eq tetrac_login_sdk.Core.Config.is_space
    tetrac_login_sdk.Storage.Kv.get_public_key_by_email tetrac_login_sdk.Storage.Memory.hget
    tetrac_login_sdk.Storage.Map.lookup tetrac_login_sdk.Storage.Kv.normalize_email
    tetrac_login_sdk.Core.Config.trim tetrac_login_sdk.Storage.Kv.get_user
    tetrac_login_sdk.Storage.Memory.hgetall tetrac_login_sdk.Storage.Keys.app_scoped
    tetrac_login_sdk.Storage.Kv.is_wallet_field tetrac_login_sdk.Core.Config.drop_while
    tetrac_login_sdk.Core.Crypto.byte_hex tetrac_login_sdk.Core.Crypto.hex_digit
    tetrac_login_sdk.Core.Crypto.is_hex tetrac_login_sdk.Core.Crypto.random_hex
    tetrac_login_sdk.Core.Messages.auth_login_message tetrac_login_sdk.Effect.◌>>=◌
    tetrac_login_sdk.Effect.◌>>◌ tetrac_login_sdk.Prelude.lacks tetrac_login_sdk.Prelude.split_first
    tetrac_login_sdk.Prelude.split_on tetrac_login_sdk.Server.Http.read_bounded
    tetrac_login_sdk.Server.Routes.Login.auth_signature_valid
    tetrac_login_sdk.Server.Routes.Login.consume_if
    tetrac_login_sdk.Server.Routes.Login.finish_login
    tetrac_login_sdk.Server.Routes.Login.login_with tetrac_login_sdk.Server.Routes.Login.read_login
    tetrac_login_sdk.Server.Routes.Login.sign_in tetrac_login_sdk.Server.Routes.bucket_id
    tetrac_login_sdk.Server.Routes.issue_fingerprint
    tetrac_login_sdk.Server.Sessions.consume_challenge tetrac_login_sdk.Server.Sessions.is_hex64
    tetrac_login_sdk.Server.Sessions.issue_session tetrac_login_sdk.Server.Sessions.random_token
    tetrac_login_sdk.Server.Sessions.revoke_previous tetrac_login_sdk.Server.Signature.hex_to_bytes
    tetrac_login_sdk.Server.Signature.hex_value tetrac_login_sdk.Server.Signature.parse_pairs
    tetrac_login_sdk.Server.Signature.signature_bytes tetrac_login_sdk.Server.Signature.strip_0x
    tetrac_login_sdk.Server.Signature.verify_auth_signature
    tetrac_login_sdk.Server.Validate.has_inner_dot tetrac_login_sdk.Server.Validate.includes
    tetrac_login_sdk.Server.Validate.is_app_id tetrac_login_sdk.Server.Validate.is_domain
    tetrac_login_sdk.Server.Validate.is_email tetrac_login_sdk.Server.Validate.is_email_char
    tetrac_login_sdk.Storage.Kv.parse_wallets tetrac_login_sdk.Storage.Kv.read_profile
    tetrac_login_sdk.Storage.Kv.read_record tetrac_login_sdk.Storage.Memory.hash_of
    tetrac_login_sdk.Storage.Memory.alive tetrac_login_sdk.Core.Js.to_text
    tetrac_login_sdk.Storage.Kv.take_challenge tetrac_login_sdk.Storage.Memory.getdel
    tetrac_login_sdk.Storage.Kv.put_session tetrac_login_sdk.Storage.Memory.set
    tetrac_login_sdk.Storage.Kv.set_session_pointer tetrac_login_sdk.Storage.Memory.hset
login_sound_example = login_sound (deployment login_body) request with_alice refl refl

-- A decoder that leaves out a byte order mark, and decodes a stream when all of it has arrived.
abbrev without_mark : List ℕ → Text
without_mark (a ∷ b ∷ c ∷ rest) =
    if text_eq (a ∷ b ∷ c ∷ []) (239 ∷ 187 ∷ 191 ∷ []) then rest else a ∷ b ∷ c ∷ rest
without_mark bytes = bytes

abbrev marked : BodyParser
marked = record (parser_of login_body) {
  decode = without_mark;
  decode_chunk = λ seen chunk. [];
  decode_rest = λ seen. without_mark (flatten seen);
}

flatten-append : (xs ys : List (List ℕ)) → flatten (xs ++ ys) ≡ flatten xs ++ flatten ys
unfolding flatten
flatten-append [] ys = refl
flatten-append (c ∷ xs) ys =
    ap (λ t. c ++ t) (flatten-append xs ys) ∙ sym (append_assoc c (flatten xs) (flatten ys))

marked-streamed :
    (seen chunks : List (List ℕ))
    → streamed marked seen chunks ≡ without_mark (flatten (seen ++ chunks))
unfolding streamed
marked-streamed seen [] = rw (append-nil seen) refl
marked-streamed seen (c ∷ cs) =
    marked-streamed (seen ++ (c ∷ [])) cs
    ∙ ap (λ t. without_mark (flatten t)) (append_assoc seen (c ∷ []) cs)

abbrev cut_mark : List (List ℕ)
cut_mark = (239 ∷ 187 ∷ []) ∷ (191 ∷ 120 ∷ []) ∷ []

-- Four bytes that begin with a mark are over a bound of three in a stream, and not in a buffer.
read_bounded-flatten_example :
    (read_bounded marked 3 (stream (some (239 ∷ 187 ∷ []) ∷ some (191 ∷ 120 ∷ []) ∷ [])) ≡ none)
    × (read_bounded marked 3 (buffered (some (239 ∷ 187 ∷ 191 ∷ 120 ∷ [])))
        ≡ read_bounded marked 3 (stream (some (120 ∷ []) ∷ [])))
unfolding flatten text_eq
read_bounded-flatten_example =
    read_bounded-flatten marked (marked-streamed []) 3 cut_mark ((120 ∷ []) ∷ []) refl refl

validate_app_id-app_scoped_example : (codes "ttc" ≡ codes "ttc") × (codes "a:b" ≡ codes "a:b")
unfolding validate_app_id is_app_id
validate_app_id-app_scoped_example =
    validate_app_id-app_scoped (default_config site) (codes "session:") (codes "ttc") (codes "a:b")
      (codes "ttc") (codes "a:b") refl refl refl

abbrev slot_entry : String → Js
slot_entry chain = obj (
    field "publicKey" (str (codes "K")) (
      field "encryptedSecret" (str (codes "x"))
        (field "role" (str (codes "funds")) (field "chain" (str (codes chain)) end))))

abbrev wallets_payload : Js
wallets_payload = arr (item (slot_entry "solana") (item (slot_entry "evm") nil))

abbrev funds_of : Chain → EncryptedWallet
funds_of chain = record {
  chain = chain;
  role = funds;
  public_key = codes "K";
  encrypted_secret = codes "x";
}

read_wallets_lem_example :
    (length (funds_of solana ∷ funds_of evm ∷ []) ≤ 4)
    × (length (funds_of solana ∷ funds_of evm ∷ []) ≡ length (entries_of wallets_payload))
    × DistinctSlots (funds_of solana ∷ funds_of evm ∷ [])
    × All IsBounded (funds_of solana ∷ funds_of evm ∷ [])
unfolding read_wallets text_eq prop
read_wallets_lem_example =
    read_wallets_lem wallets_payload (funds_of solana ∷ funds_of evm ∷ []) refl

-- A request that names these addresses in `x-forwarded-for`.
abbrev forwarded : Text → Request
forwarded addresses = record request { header = λ name. some addresses }

client_ip-append_example :
    client_ip (forwarded (codes "6.6.6.6,1.2.3.4, 10.0.0.1")) true 1
    ≡ client_ip (forwarded (codes "1.2.3.4, 10.0.0.1")) true 1
unfolding split_on trim drop_while is_space drop_empty
client_ip-append_example =
    client_ip-append (forwarded (codes "6.6.6.6,1.2.3.4, 10.0.0.1"))
      (forwarded (codes "1.2.3.4, 10.0.0.1")) 1 (codes "6.6.6.6") (codes "1.2.3.4, 10.0.0.1") refl
      refl (omega arith)
