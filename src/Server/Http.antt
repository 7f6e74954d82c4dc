-- ===== src/Server/Http.antt =====
-- server/http.ts: requests, responses, bounded bodies and the client's address.
pub mod Bodies
pub mod Forwarded
use tetrac_login_sdk.Prelude.{
  ℕ, suc, ◌+◌, ◌-◌, ◌*◌, Bool, false, not, List, [], ◌∷◌, ◌++◌, Option, none, some, Text, String,
  length, map, get_elem?, split_on, text_eq, ltb, leb, ◌==◌, if◌then◌else◌, then?,
}
use tetrac_login_sdk.Core.Js.{Js}
use tetrac_login_sdk.Core.Types.{UserData}
use tetrac_login_sdk.Core.Offchain.{OffchainEnvelope}
use tetrac_login_sdk.Core.Config.{trim}

-- How the body arrives: the bytes that `req.text()` reads, or the reads of a stream; `none` is a read
-- that throws.
pub data Body : Type 0 where
  buffered : Option (List ℕ) → Body
  stream : List (Option (List ℕ)) → Body

pub record Request : Type 0 where
  -- `req.headers.get(name)`
  pub header : String → Option Text
  -- `new URL(req.url).searchParams.get(name)`
  pub query : String → Option Text
  pub body : Body

-- What the handlers answer. Every response is JSON with `cache-control: no-store`.
pub data Payload : Type 0 where
  failure : String → Payload
  challenge_for : Text → ℕ → Option OffchainEnvelope → Payload
  signed_in : Text → Text → UserData → Payload
  user_record : UserData → Payload
  found : Bool → Payload
  done : Payload

pub record Response : Type 0 where
  pub status : ℕ
  pub payload : Payload

abbrev pub json : Payload → ℕ → Response
json payload status = record { status = status; payload = payload }

abbrev pub error : String → ℕ → Response
error message status = json (failure message) status

abbrev pub max_body_bytes : ℕ
max_body_bytes = 128 * 1024

-- The runtime's codecs and parsers that a request is read with.
pub record BodyParser : Type 0 where
  -- `Number(header)` rounded up; `none` if it is not finite
  pub number_of : Option Text → Option ℕ
  -- `await req.text()`, of the bytes that arrive
  pub decode : List ℕ → Text
  -- `new TextEncoder().encode(text)`
  pub encode : Text → List ℕ
  -- `decoder.decode(value, { stream: true })`, after the chunks that were decoded before it, and the
  -- last `decoder.decode()`
  pub decode_chunk : List (List ℕ) → List ℕ → Text
  pub decode_rest : List (List ℕ) → Text
  -- `JSON.parse`; `none` is a thrown error
  pub parse_json : Text → Option Js

module _ (parser : BodyParser) where
  -- The loop of `readBounded`, with the chunks that the decoder has seen and the text so far.
  unfoldable pub read_chunks : ℕ → ℕ → List (List ℕ) → Text → List (Option (List ℕ)) → Option Text
  read_chunks max_bytes total seen out [] = some (out ++ parser.decode_rest seen)
  read_chunks max_bytes total seen out (none ∷ rest) = none
  read_chunks max_bytes total seen out (some chunk ∷ rest) =
      let more =
        read_chunks max_bytes (total + length chunk) (seen ++ (chunk ∷ []))
          (out ++ parser.decode_chunk seen chunk) rest in
      if ltb max_bytes (total + length chunk) then none else more

  -- A buffered body is measured by the bytes that its text is encoded in.
  unfoldable pub read_bounded : ℕ → Body → Option Text
  unfolding read_chunks
  read_bounded max_bytes (buffered none) = none
  read_bounded max_bytes (buffered (some bytes)) =
      if ltb max_bytes (length (parser.encode (parser.decode bytes)))
      then none
      else some (parser.decode bytes)
  read_bounded max_bytes (stream chunks) = read_chunks max_bytes 0 [] [] chunks

abbrev exceeds : Option ℕ → ℕ → Bool
exceeds none limit = false
exceeds (some n) limit = ltb limit n

unfoldable pub read_json : BodyParser → Request → Option Js
unfolding read_bounded
read_json parser req =
    if exceeds (parser.number_of (req.header "content-length")) max_body_bytes
    then none
    else then? (read_bounded parser max_body_bytes req.body) parser.parse_json

-- `.filter(Boolean)`
unfoldable pub drop_empty : List Text → List Text
drop_empty [] = []
drop_empty ([] ∷ parts) = drop_empty parts
drop_empty ((c ∷ s) ∷ parts) = (c ∷ s) ∷ drop_empty parts

abbrev pub forwarded_parts : Text → List Text
forwarded_parts fwd = drop_empty (map trim (split_on b',' fwd))

-- `idx >= 0 && parts[idx]` for `idx = parts.length - 1 - hops`.
unfoldable pub entry_from_right : List Text → ℕ → Option Text
entry_from_right parts hops =
    if leb (suc hops) (length parts) then get_elem? parts (length parts - 1 - hops) else none

-- The branch for an absent or empty `x-forwarded-for`.
abbrev real_ip : Request → ℕ → Option Text
real_ip req hops = if hops == 0 then req.header "x-real-ip" else none

unfoldable pub client_ip : Request → Bool → ℕ → Option Text
unfolding drop_empty entry_from_right
client_ip req trust hops = if not trust then none else elim (req.header "x-forwarded-for") [
  | none ↦ real_ip req hops
  | some fwd ↦
      (if text_eq fwd [] then real_ip req hops else entry_from_right (forwarded_parts fwd) hops)
]
