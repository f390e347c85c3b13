-- ===== src/RegistryHandlers/Jws.antt =====
-- src/services/registry-handlers/jws-verify.ts and jwt-payload-decode.ts. The decoders and the key packages are
-- other packages'.
pub mod Signed
use Prim.Native.Char.{code}
use verifier_core.Shared.{
  ℕ, String, Bool, true, false, not, ◌&&◌, ◌||◌, Option, none, some, List, [], ◌∷◌, ◌==◌, ◌<>◌,
  filter, any, length, nat_eq, ltb, is_nonempty, is_some, or_else, if◌then◌else◌,
}
use verifier_core.Json.{
  Json, Fields, null, bool, num, str, arr, obj, items, lookup_field, property, string_of,
}
use verifier_core.Types.{Attempt, done, thrown, Action}

-- `decode_json` is `decodeBase64UrlJson` and `decode_bytes` the decoder of an unpadded base64url text, both
-- `none` where they throw. `verify_es256` and `verify_ed25519` import a key from its public members and verify a signature
-- over a text.
pub record JwsRuntime (W : Type 0) : Type 0 where
  pub decode_json : String → Option Json
  pub decode_bytes : String → Option (List ℕ)
  pub verify_es256 : (kty crv x y : Option Json) → String → List ℕ → Action W Bool
  pub verify_ed25519 : (x : String) → String → List ℕ → Action W Bool

pub data JwsResult : Type 0 where
  valid : (payload : Fields) → JwsResult
  invalid : (reason : String) → JwsResult

unfoldable pub put_first : String → List String → List String
put_first c [] = []
put_first c (part ∷ parts) = (c <> part) ∷ parts

-- `s.split('.')`
unfoldable pub split_dots : String → List String
unfolding put_first
split_dots String.[] = "" ∷ []
split_dots (String.◌∷◌ c s) =
    let rest = split_dots s in
    if nat_eq (code c) b'.' then "" ∷ rest else put_first (String.◌∷◌ c "") rest

pub data Alg : Type 0 where
  es256 ed_dsa : Alg

-- `a === b`: two values that were read from different texts are never the same object.
unfoldable pub same_value : Option Json → Option Json → Bool
same_value none none = true
same_value (some null) (some null) = true
same_value (some (bool a)) (some (bool b)) = if a then b else not b
same_value (some (num m)) (some (num n)) = nat_eq m n
same_value (some (str s)) (some (str t)) = s == t
same_value _ _ = false

abbrev is_text : String → Option Json → Bool
is_text wanted (some (str s)) = s == wanted
is_text wanted _ = false

abbrev pub is_compatible : Alg → Fields → Bool
is_compatible es256 jwk =
    is_text "EC" (lookup_field "kty" jwk) && is_text "P-256" (lookup_field "crv" jwk)
is_compatible ed_dsa jwk =
    is_text "OKP" (lookup_field "kty" jwk) && is_text "Ed25519" (lookup_field "crv" jwk)

unfoldable pub objects : List Json → List Fields
objects [] = []
objects (obj fields ∷ vs) = fields ∷ objects vs
objects (_ ∷ vs) = objects vs

unfoldable pub keys_of : Option Json → Option (List Fields)
unfolding objects
keys_of (some (arr vs)) = some (objects (items vs))
keys_of _ = none

unfoldable pub jwk_set_keys : Option Json → Option (List Fields)
unfolding keys_of
jwk_set_keys (some (obj fields)) = keys_of (lookup_field "keys" fields)
jwk_set_keys _ = none

unfoldable pub alg_of : Option Json → Option Alg
alg_of (some (str s)) =
    if s == "ES256" then some es256 else if s == "EdDSA" then some ed_dsa else none
alg_of _ = none

-- The keys that are tried: those of the header's `kid`, or else all the compatible ones.
unfoldable pub candidates : Alg → Option Json → List Fields → List Fields
unfolding same_value
candidates alg kid keys =
    let compatible = filter (is_compatible alg) keys in
    let by_kid = filter (λ key. same_value (lookup_field "kid" key) kid) compatible in
    if ltb 0 (length by_kid) then by_kid else compatible

-- `typ !== undefined && header.typ !== typ`
abbrev pub has_typ : Option String → Fields → Bool
has_typ none header = true
has_typ (some typ) header = is_text typ (lookup_field "typ" header)

-- `jws`, taken apart and decoded
pub record Parts : Type 0 where
  pub header : Fields
  pub payload : Fields
  pub signature : List ℕ
  pub signed_text : String

unfoldable pub as_fields : Option Json → Option Fields
as_fields (some (obj fields)) = some fields
as_fields _ = none

unfoldable pub assemble : Option Fields → Option Fields → Option (List ℕ) → String → Option Parts
assemble (some header) (some payload) (some signature) signed_text = some (record {
  header = header;
  payload = payload;
  signature = signature;
  signed_text = signed_text;
})
assemble header payload signature signed_text = none

module _ {W : Type 0} (runtime : JwsRuntime W) where
  unfoldable pub decode_segments : List String → Option Parts
  unfolding as_fields assemble
  decode_segments (header ∷ payload ∷ signature ∷ []) =
      if any (λ part. not (is_nonempty part)) (header ∷ payload ∷ signature ∷ [])
      then none
      else assemble (as_fields (runtime.decode_json header))
          (as_fields (runtime.decode_json payload)) (runtime.decode_bytes signature)
          (header <> "." <> payload)
  decode_segments parts = none

  unfoldable pub decode_jws : String → Option Parts
  unfolding decode_segments
  decode_jws jws = decode_segments (split_dots jws)

  unfoldable pub verify_with_jwk : Alg → Fields → Parts → Action W Bool
  verify_with_jwk es256 jwk parts =
      runtime.verify_es256 (lookup_field "kty" jwk) (lookup_field "crv" jwk) (lookup_field "x" jwk)
        (lookup_field "y" jwk) parts.signed_text parts.signature
  verify_with_jwk ed_dsa jwk parts =
      runtime.verify_ed25519 (string_of (lookup_field "x" jwk)) parts.signed_text parts.signature

  abbrev pub unless_verified : Attempt Bool → JwsResult × W → JwsResult × W → JwsResult × W
  unless_verified (done true) verified rest = verified
  unless_verified (done false) verified rest = rest
  unless_verified (thrown error) verified rest = rest

  -- The loop over the keys: one that throws is skipped.
  unfoldable pub try_keys : Alg → Parts → List Fields → W → JwsResult × W
  try_keys alg parts [] w = (invalid "signature did not verify", w)
  try_keys alg parts (jwk ∷ jwks) w =
      let (answer, w') = verify_with_jwk alg jwk parts w in
      let rest = try_keys alg parts jwks w' in unless_verified answer (valid parts.payload, w') rest

  unfoldable pub verify_keys : Option Alg → Option (List Fields) → Parts → W → JwsResult × W
  unfolding try_keys
  verify_keys none keys parts w = (invalid "unsupported alg", w)
  verify_keys (some alg) none parts w = (invalid "no JWK Set", w)
  verify_keys (some alg) (some keys) parts w =
      try_keys alg parts (candidates alg (lookup_field "kid" parts.header) keys) w

  unfoldable pub verify_parts : Option Json → Option String → Option Parts → W → JwsResult × W
  unfolding verify_keys alg_of
  verify_parts jwks typ none w = (invalid "malformed JWS", w)
  verify_parts jwks typ (some parts) w =
      if is_some (lookup_field "crit" parts.header)
      then (invalid "unsupported crit", w)
      else if not (has_typ typ parts.header)
      then (invalid "unexpected typ", w)
      else verify_keys (alg_of (lookup_field "alg" parts.header)) (jwk_set_keys jwks) parts w

  -- `verifyJws`
  unfoldable pub verify_jws : String → Option Json → Option String → W → JwsResult × W
  unfolding verify_parts
  verify_jws jws jwks typ w = verify_parts jwks typ (decode_jws jws) w

  unfoldable pub decode_second : List String → Option Json
  decode_second (header ∷ payload ∷ rest) = runtime.decode_json payload
  decode_second parts = none

  -- `jwtDecodePayload`
  unfoldable pub jwt_decode_payload : String → Option Json
  unfolding decode_second
  jwt_decode_payload jwt = decode_second (split_dots jwt)
