-- ===== src/RegistryHandlers/Oidf.antt =====
-- src/services/registry-handlers/oidf-handler.ts. The building of the lookup's URL is the runtime's.
mod Origin
mod Configuration
pub mod Statement
pub mod Lookup
use Prim.Native.Char.{Char, code}
use verifier_core.Shared.{
  ℕ, ◌+◌, ◌*◌, ◌-◌, String, Bool, true, false, not, ◌&&◌, ◌||◌, Option, none, some, List, [], ◌∷◌,
  ◌==◌, ◌<>◌, nat_eq, ltb, leb, is_nonempty, if◌then◌else◌,
}
use verifier_core.Json.{Json, Fields, null, num, str, lookup_field, property, string_of}
use verifier_core.Types.{
  Attempt, done, Action, ◌>>=◌, ◌>>◌, pure, Headers, HttpGetResult, CacheValue,
  EntityIdentityRegistry,
}
use verifier_core.Registry.{HandlerResult, found, not_found, unchecked, RegistryHandlerContext}
use verifier_core.RegistryHandlers.CacheTtl.{
  is_space, is_digit, skip_spaces, parse_cache_control_max_age, resolve_ttl,
}
use verifier_core.RegistryHandlers.Answer.{fetch, is_refused, cached_payload}
use verifier_core.RegistryHandlers.Jws.{
  JwsRuntime, JwsResult, valid, invalid, verify_jws, jwt_decode_payload,
}

abbrev pub entity_statement_typ : String
entity_statement_typ = "entity-statement+jwt"

pub record VerifiedEntityConfiguration : Type 0 where
  pub entity_id : String
  pub jwks : Option Json
  pub fetch_endpoint : String
  pub exp : ℕ

unfoldable pub trim_end : String → String
trim_end String.[] = ""
trim_end (String.◌∷◌ c s) =
    let rest = trim_end s in if is_space c && not (is_nonempty rest) then "" else String.◌∷◌ c rest

-- `String(body ?? '').trim()`
unfoldable pub body_to_jwt : Json → String
unfolding trim_end
body_to_jwt null = ""
body_to_jwt body = skip_spaces (trim_end (string_of (some body)))

-- The number that a text of digits spells, after the given digits.
unfoldable pub number_after : ℕ → String → Option ℕ
number_after value String.[] = some value
number_after value (String.◌∷◌ c s) =
    let rest = number_after (value * 10 + (code c - b'0')) s in if is_digit c then rest else none

unfoldable pub numeric_date : Option Json → Option ℕ
unfolding number_after
numeric_date (some (num seconds)) = some seconds
numeric_date (some (str s)) = if is_nonempty s then number_after 0 s else none
numeric_date _ = none

-- An instant of seconds since 1970, in milliseconds since the earliest date.
abbrev pub instant : ℕ → ℕ
instant seconds = seconds * 1000 + 8640000000000000

unfoldable pub unexpired : Option ℕ → ℕ → Option ℕ
unexpired none now = none
unexpired (some seconds) now = if ltb now (instant seconds) then some seconds else none

-- `unexpiredNumericDate`
unfoldable pub unexpired_numeric_date : Option Json → ℕ → Option ℕ
unfolding numeric_date unexpired
unexpired_numeric_date exp now = unexpired (numeric_date exp) now

abbrev min : ℕ → ℕ → ℕ
min a b = if leb a b then a else b

-- `ttlBoundedByExp`
pub ttl_bounded_by_exp : Headers → ℕ → ℕ → ℕ
ttl_bounded_by_exp headers exp now =
    min (resolve_ttl (parse_cache_control_max_age headers ∷ [])) (instant exp - now)

abbrev member : String → Option Json → Option Json
member name none = none
member name (some v) = property name v

unfoldable pub nonempty_text : Option Json → Option String
nonempty_text (some (str s)) = if is_nonempty s then some s else none
nonempty_text _ = none

unfoldable pub get_federation_fetch_endpoint : Fields → Option String
unfolding nonempty_text
get_federation_fetch_endpoint decoded = nonempty_text (
    member "federation_fetch_endpoint"
      (member "federation_entity" (lookup_field "metadata" decoded)))

unfoldable pub configuration_of :
    Option Json
    → Option Json
    → Option ℕ
    → Option String
    → Option Json
    → Option VerifiedEntityConfiguration
configuration_of (some (str iss)) (some (str sub)) (some exp) (some endpoint) jwks =
    if iss == sub
    then some (record { entity_id = iss; jwks = jwks; fetch_endpoint = endpoint; exp = exp })
    else none
configuration_of iss sub exp endpoint jwks = none

-- What the anchor's verified payload gives.
unfoldable pub judge_configuration : ℕ → JwsResult → Option VerifiedEntityConfiguration
unfolding configuration_of get_federation_fetch_endpoint
judge_configuration now (invalid reason) = none
judge_configuration now (valid payload) =
    configuration_of (lookup_field "iss" payload) (lookup_field "sub" payload)
      (unexpired_numeric_date (lookup_field "exp" payload) now)
      (get_federation_fetch_endpoint payload) (lookup_field "jwks" payload)

abbrev pub is_string : String → Option Json → Bool
is_string wanted (some (str s)) = s == wanted
is_string wanted _ = false

abbrev pub names : VerifiedEntityConfiguration → String → Fields → Bool
names ec did payload =
    is_string ec.entity_id (lookup_field "iss" payload)
    && is_string did (lookup_field "sub" payload)

-- The `exp` of a statement whose payload is about the issuer.
unfoldable pub judge_statement : VerifiedEntityConfiguration → String → ℕ → JwsResult → Option ℕ
judge_statement ec did now (invalid reason) = none
judge_statement ec did now (valid payload) =
    if names ec did payload then unexpired_numeric_date (lookup_field "exp" payload) now else none

-- A cached JWT: a text that is not empty.
abbrev pub cached_text : Option CacheValue → Option String
cached_text cached = elim (cached_payload cached) [ some (str s) ↦ some s | _ ↦ none ]

module _ {W V : Type 0} (runtime : JwsRuntime W)
    (lookup_url : (endpoint did : String) → Option String)
    (context : RegistryHandlerContext W V) where
  unfoldable pub verify_decoded :
      String → ℕ → Option Json → W → Option VerifiedEntityConfiguration × W
  unfolding judge_configuration
  verify_decoded jwt now none w = (none, w)
  verify_decoded jwt now (some unverified) w =
      let (result, w') =
        verify_jws runtime jwt (property "jwks" unverified) (some entity_statement_typ) w in
      (judge_configuration now result, w')

  -- `verifyEntityConfiguration`
  unfoldable pub verify_entity_configuration :
      String → ℕ → W → Option VerifiedEntityConfiguration × W
  unfolding verify_decoded
  verify_entity_configuration jwt now w = verify_decoded jwt now (jwt_decode_payload runtime jwt) w

  -- `verifySubordinateStatement`
  unfoldable pub verify_subordinate_statement :
      String → VerifiedEntityConfiguration → String → ℕ → W → Option ℕ × W
  verify_subordinate_statement jwt ec did now w =
      let (result, w') = verify_jws runtime jwt ec.jwks (some entity_statement_typ) w in
      (judge_statement ec did now result, w')

  -- A function that never rejects, as a step of one that may.
  abbrev lift : {A : Type 0} → (W → A × W) → Action W A
  lift f w = let (a, w') = f w in (done a, w')

  abbrev store_configuration :
      String
      → String
      → HttpGetResult
      → ℕ
      → Option VerifiedEntityConfiguration
      → Action W (Option VerifiedEntityConfiguration)
  store_configuration key jwt result now none = pure none
  store_configuration key jwt result now (some ec) =
      context.cache_service.set key (CacheValue.payload (str jwt))
        (some (ttl_bounded_by_exp result.headers ec.exp now))
      >> pure (some ec)

  abbrev judge_fetched_configuration :
      String → ℕ → Option HttpGetResult → Action W (Option VerifiedEntityConfiguration)
  judge_fetched_configuration key now none = pure none
  judge_fetched_configuration key now (some result) =
      if is_refused result
      then pure none
      else lift (verify_entity_configuration (body_to_jwt result.body) now)
        >>= store_configuration key (body_to_jwt result.body) result now

  abbrev fetch_configuration : String → String → ℕ → Action W (Option VerifiedEntityConfiguration)
  fetch_configuration key url now =
      lift (fetch context.http_get_service url) >>= judge_fetched_configuration key now

  abbrev configuration_or_fetch :
      String
      → String
      → ℕ
      → Option VerifiedEntityConfiguration
      → Action W (Option VerifiedEntityConfiguration)
  configuration_or_fetch key url now (some ec) = pure (some ec)
  configuration_or_fetch key url now none = fetch_configuration key url now

  abbrev configuration_from :
      String → String → ℕ → Option String → Action W (Option VerifiedEntityConfiguration)
  configuration_from key url now none = fetch_configuration key url now
  configuration_from key url now (some jwt) =
      lift (verify_entity_configuration jwt now) >>= configuration_or_fetch key url now

  -- `getVerifiedEntityConfiguration`
  unfoldable pub get_verified_entity_configuration :
      String → ℕ → Action W (Option VerifiedEntityConfiguration)
  get_verified_entity_configuration url now =
      context.cache_service.get ("oidf:ec:" <> url)
      >>= (λ cached. configuration_from ("oidf:ec:" <> url) url now (cached_text cached))

  abbrev store_statement : String → String → HttpGetResult → ℕ → Option ℕ → Action W HandlerResult
  store_statement key jwt result now none = pure unchecked
  store_statement key jwt result now (some exp) =
      context.cache_service.set key (CacheValue.payload (str jwt))
        (some (ttl_bounded_by_exp result.headers exp now))
      >> pure (found none)

  abbrev judge_fetched_statement :
      VerifiedEntityConfiguration
      → String
      → String
      → ℕ
      → Option HttpGetResult
      → Action W HandlerResult
  judge_fetched_statement ec did key now none = pure unchecked
  judge_fetched_statement ec did key now (some result) =
      if nat_eq result.status 404
      then pure not_found
      else if is_refused result
      then pure unchecked
      else lift (verify_subordinate_statement (body_to_jwt result.body) ec did now)
        >>= store_statement key (body_to_jwt result.body) result now

  abbrev fetch_statement :
      VerifiedEntityConfiguration → String → String → ℕ → Action W HandlerResult
  fetch_statement ec did url now =
      lift (fetch context.http_get_service url)
      >>= judge_fetched_statement ec did ("oidf:lookup:" <> url) now

  abbrev found_or_fetch :
      VerifiedEntityConfiguration → String → String → ℕ → Option ℕ → Action W HandlerResult
  found_or_fetch ec did url now (some exp) = pure (found none)
  found_or_fetch ec did url now none = fetch_statement ec did url now

  abbrev statement_from :
      VerifiedEntityConfiguration → String → String → ℕ → Option String → Action W HandlerResult
  statement_from ec did url now none = fetch_statement ec did url now
  statement_from ec did url now (some jwt) =
      lift (verify_subordinate_statement jwt ec did now) >>= found_or_fetch ec did url now

  abbrev look_up_at :
      VerifiedEntityConfiguration → String → ℕ → Option String → Action W HandlerResult
  look_up_at ec did now none = pure unchecked
  look_up_at ec did now (some url) =
      context.cache_service.get ("oidf:lookup:" <> url)
      >>= (λ cached. statement_from ec did url now (cached_text cached))

  abbrev look_up_under : String → ℕ → Option VerifiedEntityConfiguration → Action W HandlerResult
  look_up_under did now none = pure unchecked
  look_up_under did now (some ec) = look_up_at ec did now (lookup_url ec.fetch_endpoint did)

  abbrev look_up_anchor : String → String → ℕ → Action W HandlerResult
  look_up_anchor did trust_anchor_ec now =
      get_verified_entity_configuration trust_anchor_ec now >>= look_up_under did now

  -- `lookupOidf`: the clock is read once.
  unfoldable pub lookup_oidf : String → EntityIdentityRegistry → Action W HandlerResult
  lookup_oidf did (EntityIdentityRegistry.oidf name trust_anchor_ec) =
      lift context.time_service.date_now_ms >>= look_up_anchor did trust_anchor_ec
  lookup_oidf did registry = pure unchecked
