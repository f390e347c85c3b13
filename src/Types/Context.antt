-- ===== src/Types/Context.antt =====
-- src/types/context.ts and the service interfaces that it names. `challenge` is `string | null |
-- undefined` in the source, where the last two are treated alike: `none` here.
use verifier_core.Shared.{ℕ, String, Bool, Option, List}
use verifier_core.Json.{Json}
use verifier_core.Types.Effect.{Attempt, Action, TimeService}
use verifier_core.Types.Problem.{RecognitionResult}
use verifier_core.Types.Registry.{EntityIdentityRegistry, LookupIssuers, RegistryLookupResult}
use verifier_core.Types.Crypto.{CryptoService, DocumentLoader}

-- `headers.get(name)`, of a name in lower case
abbrev pub Headers : Type 0
Headers = String → Option String

-- The body is JSON, or a text.
pub record HttpGetResult : Type 0 where
  pub body : Json
  pub headers : Headers
  pub status : ℕ

pub record HttpGetService (W : Type 0) : Type 0 where
  pub get : String → Action W HttpGetResult

-- What the program puts into a cache: lookup results, and JSON payloads.
pub data CacheValue : Type 0 where
  lookup_result : RegistryLookupResult → CacheValue
  payload : Json → CacheValue

pub record CacheService (W : Type 0) : Type 0 where
  pub get : String → Action W (Option CacheValue)
  pub set : String → CacheValue → Option ℕ → Action W (Unit {0})

-- A recognizer's `applies` and `parse` are synchronous and may throw. `applies` is also given the
-- context, of which it may read the instant `now`.
pub record RecognizerSpec : Type 0 where
  pub id : String
  pub name : String
  pub applies : Option Json → ℕ → Attempt Bool
  pub parse : Option Json → Attempt RecognitionResult

-- `now` is in milliseconds.
pub record VerificationContext (W : Type 0) : Type 0 where
  pub document_loader : DocumentLoader W
  pub http_get_service : Option (HttpGetService W)
  pub cache_service : Option (CacheService W)
  pub crypto_services : List (CryptoService W)
  pub registries : Option (List EntityIdentityRegistry)
  pub lookup_issuers : Option (LookupIssuers W)
  pub challenge : Option String
  pub domain : Option String
  pub unsigned_presentation : Option Bool
  pub recognizers : Option (List RecognizerSpec)
  pub time_service : Option (TimeService W)
  pub now : ℕ
  pub timing : Option Bool
