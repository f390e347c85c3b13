-- ===== src/RegistryHandlers/DccLegacy.antt =====
-- src/services/registry-handlers/dcc-legacy-handler.ts. The name and the homepage of an entry are texts, as its
-- declared type says: values of other kinds are left out.
use verifier_core.Shared.{ℕ, String, Option, none, some, [], ◌∷◌, ◌<>◌, if◌then◌else◌}
use verifier_core.Json.{Json, Fields, null, obj, property, lookup_field, as_string}
use verifier_core.Types.{
  Action, ◌>>=◌, ◌>>◌, pure, done, HttpGetResult, payload, EntityIdentityRegistry, RegistryEntity,
}
use verifier_core.Registry.{HandlerResult, found, not_found, unchecked, RegistryHandlerContext}
use verifier_core.RegistryHandlers.CacheTtl.{parse_cache_control_max_age, resolve_ttl}
use verifier_core.RegistryHandlers.Answer.{fetch, is_refused, cached_payload}

-- `body.registry`, of a value that `isDccLegacyRegistryBody` accepts
abbrev registry_of : Json → Option Fields
registry_of body = elim (property "registry" body) [
  | some (obj registry) ↦ some registry
  | _ ↦ none
]

pub record Loaded : Type 0 where
  pub body : Json
  pub ttl_ms : ℕ

load : Option HttpGetResult → Option Loaded
load none = none
load (some result) = if is_refused result then none else elim (registry_of result.body) [
  | none ↦ none
  | some registry ↦ some (record {
    body = result.body;
    ttl_ms = resolve_ttl (parse_cache_control_max_age result.headers ∷ []);
  })
]

entity_from_entry : Json → RegistryEntity
entity_from_entry entry = record {
  name = as_string (property "name" entry);
  url = as_string (property "url" entry);
  raw = some entry;
}

judge_entry : Option Json → HandlerResult
unfolding entity_from_entry
judge_entry none = not_found
judge_entry (some null) = not_found
judge_entry (some entry) = found (some (entity_from_entry entry))

-- What a body says of an issuer.
judge_body : String → Json → HandlerResult
unfolding judge_entry
judge_body did body = elim (registry_of body) [
  | none ↦ not_found
  | some registry ↦ judge_entry (lookup_field did registry)
]

module _ {W V : Type 0} (context : RegistryHandlerContext W V) where
  fetch_dcc_legacy_registry : String → W → Option Loaded × W
  unfolding load
  fetch_dcc_legacy_registry url w =
      let (result, w') = fetch context.http_get_service url w in (load result, w')

  abbrev store_loaded : String → String → Option Loaded → Action W HandlerResult
  store_loaded key did none = pure unchecked
  store_loaded key did (some loaded) = do
    context.cache_service.set key (payload loaded.body) (some loaded.ttl_ms)
    pure (judge_body did loaded.body)

  abbrev answer_dcc_legacy : String → String → String → Option Json → Action W HandlerResult
  answer_dcc_legacy key url did (some body) = pure (judge_body did body)
  answer_dcc_legacy key url did none = do
    loaded ← λ w. let (l, w') = fetch_dcc_legacy_registry url w in (done l, w')
    store_loaded key did loaded

  lookup_dcc_legacy : String → EntityIdentityRegistry → Action W HandlerResult
  lookup_dcc_legacy did (EntityIdentityRegistry.dcc_legacy name url) = do
    cached ← context.cache_service.get ("dcc-legacy:" <> url)
    answer_dcc_legacy ("dcc-legacy:" <> url) url did (cached_payload cached)
  lookup_dcc_legacy did registry = pure unchecked
