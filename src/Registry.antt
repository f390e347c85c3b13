-- ===== src/Registry.antt =====
-- src/services/registry-lookup.ts, src/services/registry-handlers/types.ts,
-- src/util/registry-cache-key.ts. `JSON.stringify` and `Array.prototype.sort` are the runtime's.
pub mod Key
pub mod Walk
pub mod Caching
pub mod IssuerCheck
mod Tests
use verifier_core.Shared.{
  ℕ, String, Bool, true, false, not, Option, none, some, List, [], ◌∷◌, ◌<>◌, if◌then◌else◌, ltb,
  length, is_some,
}
use verifier_core.Json.{Json, obj, end, field, str}
use verifier_core.Types.{
  Attempt, done, thrown, Action, ◌>>=◌, ◌>>◌, pure, TimeService, HttpGetService, CacheService,
  CacheValue, lookup_result, payload, RegistryType, EntityIdentityRegistry, RegistryReference,
  RegistryEntity, RegistryMatch, RegistryCheckPayload, RegistryLookupResult, LookupIssuersOptions,
  LookupIssuers, registry_reference, registry_type,
}
use Key.{JsonRuntime, registry_cache_key}

pub data HandlerResult : Type 0 where
  found : (entity : Option RegistryEntity) → HandlerResult
  not_found unchecked : HandlerResult

-- `V` is the verifier; reading the getter may throw.
pub record RegistryHandlerContext (W V : Type 0) : Type 0 where
  pub http_get_service : HttpGetService W
  pub cache_service : CacheService W
  pub time_service : TimeService W
  pub verifier : Attempt V

abbrev pub RegistryHandlerMap : Type 0 → Type 0 → Type 0
RegistryHandlerMap W V =
    RegistryType
    → String
    → EntityIdentityRegistry
    → RegistryHandlerContext W V
    → Action W HandlerResult

abbrev partial_result_ttl_ms : ℕ
partial_result_ttl_ms = 60000

-- src/services/registry-handlers/cache-ttl.ts
abbrev default_ttl_ms : ℕ
default_ttl_ms = 3600000

abbrev result_cache_prefix : String
result_cache_prefix = "reg-result:2:"

abbrev no_verifier : Json
no_verifier = obj (
    field "message"
      (str
        "vc-recognition lookup invoked without a verifier in RegistryHandlerContext — use createVerifier() to construct a verifier that threads itself through.")
      end)

-- What the loop pushes.
abbrev pub Pushed : Type 0
Pushed = RegistryCheckPayload

abbrev nothing_pushed : Pushed
nothing_pushed = record { matches = []; unchecked_registries = [] }

abbrev push_match : EntityIdentityRegistry → Option RegistryEntity → Pushed → Pushed
push_match registry entity p = record p {
  matches = record { registry = registry_reference registry; entity = entity } ∷ p.matches;
}

abbrev push_unchecked : EntityIdentityRegistry → Pushed → Pushed
push_unchecked registry p = record p {
  unchecked_registries = registry_reference registry ∷ p.unchecked_registries;
}

-- `options?.fresh`, `options?.exhaustive`
abbrev pub wants_fresh : Option LookupIssuersOptions → Bool
wants_fresh none = false
wants_fresh (some options) = options.fresh

abbrev pub wants_exhaustive : Option LookupIssuersOptions → Bool
wants_exhaustive none = false
wants_exhaustive (some options) = options.exhaustive

-- The cached object under the result prefix: only lookup results are stored there.
abbrev cached_result : Option CacheValue → Option RegistryLookupResult
cached_result (some (lookup_result r)) = some r
cached_result _ = none

pub finish : Pushed → RegistryLookupResult
finish p = record { found = ltb 0 (length p.matches); payload = p }

pub result_ttl : RegistryLookupResult → ℕ
result_ttl result =
    if ltb 0 (length result.unchecked_registries) then partial_result_ttl_ms else default_ttl_ms

module _ {W : Type 0} (exhaustive : Bool) where
  -- What follows an answer: a match ends the loop unless the lookup is exhaustive.
  pub walk_on : EntityIdentityRegistry → HandlerResult → Action W Pushed → Action W Pushed
  walk_on registry (found entity) rest =
      if exhaustive
      then rest >>= (λ p. pure (push_match registry entity p))
      else pure (push_match registry entity nothing_pushed)
  walk_on registry not_found rest = rest
  walk_on registry unchecked rest = rest >>= (λ p. pure (push_unchecked registry p))

  -- The loop over the registries, given how one is asked.
  pub walk :
      (EntityIdentityRegistry → Action W HandlerResult)
      → List EntityIdentityRegistry
      → Action W Pushed
  walk ask [] = pure nothing_pushed
  walk ask (registry ∷ registries) =
      let rest = walk ask registries in do outcome ← ask registry; walk_on registry outcome rest

abbrev pub result_key : JsonRuntime → String → List EntityIdentityRegistry → String
result_key runtime did registries =
    result_cache_prefix <> did <> ":" <> registry_cache_key runtime registries

module _ {W V : Type 0} (runtime : JsonRuntime) (http_get_service : HttpGetService W)
    (cache_service : CacheService W) (handlers : RegistryHandlerMap W V)
    (get_verifier : Option (Attempt V)) (time_service : TimeService W) where
  abbrev handler_context : RegistryHandlerContext W V
  handler_context = record {
    http_get_service = http_get_service;
    cache_service = cache_service;
    time_service = time_service;
    verifier = elim get_verifier [ none ↦ thrown no_verifier | some verifier ↦ verifier ];
  }

  -- `handlers[registry.type](did, registry, ctx)`
  abbrev pub ask_handler : String → EntityIdentityRegistry → Action W HandlerResult
  ask_handler did registry = handlers (registry_type registry) did registry handler_context

  -- What follows the walk: the result is cached and returned.
  pub store_result : String → List EntityIdentityRegistry → Pushed → Action W RegistryLookupResult
  store_result did registries pushed = do
    let result = finish pushed
    cache_service.set (result_key runtime did registries) (lookup_result result)
        (some (result_ttl result))
    pure result

  pub lookup_fresh :
      String
      → List EntityIdentityRegistry
      → Option LookupIssuersOptions
      → Action W RegistryLookupResult
  lookup_fresh did registries options =
      walk (wants_exhaustive options) (ask_handler did) registries >>= store_result did registries

  abbrev return_or :
      Option RegistryLookupResult → Action W RegistryLookupResult → Action W RegistryLookupResult
  return_or none otherwise = otherwise
  return_or (some result) otherwise = pure result

  -- The function that `createRegistryLookup` returns.
  pub create_registry_lookup : LookupIssuers W
  create_registry_lookup did registries options =
      if wants_fresh options then lookup_fresh did registries options else do
        cached ← cache_service.get (result_key runtime did registries)
        return_or (cached_result cached) (lookup_fresh did registries options)
