-- ===== src/Registry/Key.antt =====
-- src/util/registry-cache-key.ts
use verifier_core.Shared.{String, List, [], ◌∷◌, map}
use verifier_core.Json.{Json, str, arr, Items, nil, cons}
use verifier_core.Types.{
  RegistryType, EntityIdentityRegistry, registry_name, registry_url, registry_type,
}

-- What the source takes from the JavaScript runtime: `JSON.stringify`, and `sort` on strings.
pub record JsonRuntime : Type 0 where
  pub stringify : Json → String
  pub sort : List String → List String

abbrev type_text : RegistryType → String
type_text RegistryType.oidf = "oidf"
type_text RegistryType.dcc_legacy = "dcc-legacy"
type_text RegistryType.vc_recognition = "vc-recognition"

abbrev string_items : List String → Items
string_items [] = nil
string_items (s ∷ ss) = cons (str s) (string_items ss)

module _ (runtime : JsonRuntime) where
  -- The sorted accepted issuers, for a recognition registry alone.
  abbrev issuers_item : EntityIdentityRegistry → Items
  issuers_item (EntityIdentityRegistry.vc_recognition name url accepted_issuers) =
      cons (arr (string_items (runtime.sort accepted_issuers))) nil
  issuers_item _ = nil

  abbrev registry_id_json : EntityIdentityRegistry → Json
  registry_id_json registry = arr (
      cons (str (type_text (registry_type registry))) (
        cons (str (registry_name registry))
          (cons (str (registry_url registry)) (issuers_item registry))))

  registry_id : EntityIdentityRegistry → String
  registry_id registry = runtime.stringify (registry_id_json registry)

  pub registry_cache_key : List EntityIdentityRegistry → String
  registry_cache_key registries =
      runtime.stringify (arr (string_items (runtime.sort (map registry_id registries))))
