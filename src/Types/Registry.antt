-- ===== src/Types/Registry.antt =====
-- src/types/registry.ts; src/util/registry-reference.ts
use verifier_core.Shared.{String, Bool, Option, List}
use verifier_core.Json.{Json}
use verifier_core.Types.Effect.{Action}

pub data RegistryType : Type 0 where
  oidf dcc_legacy vc_recognition : RegistryType

pub data EntityIdentityRegistry : Type 0 where
  oidf : (name trust_anchor_ec : String) → EntityIdentityRegistry
  dcc_legacy : (name url : String) → EntityIdentityRegistry
  vc_recognition : (name url : String) (accepted_issuers : List String) → EntityIdentityRegistry

pub record RegistryReference : Type 0 where
  pub name : String
  pub type : RegistryType
  pub url : String

pub record RegistryEntity : Type 0 where
  pub name : Option String
  pub url : Option String
  pub raw : Option Json

pub record RegistryMatch : Type 0 where
  pub registry : RegistryReference
  pub entity : Option RegistryEntity

pub record RegistryCheckPayload : Type 0 where
  pub matches : List RegistryMatch
  pub unchecked_registries : List RegistryReference

pub record RegistryLookupResult : Type 0 where
  pub found : Bool
  pub payload : RegistryCheckPayload
  pub open payload use *

pub record LookupIssuersOptions : Type 0 where
  pub fresh : Bool
  pub exhaustive : Bool

abbrev pub LookupIssuers : Type 0 → Type 0
LookupIssuers W =
    String
    → List EntityIdentityRegistry
    → Option LookupIssuersOptions
    → Action W RegistryLookupResult

abbrev pub registry_type : EntityIdentityRegistry → RegistryType
registry_type (EntityIdentityRegistry.oidf _ _) = RegistryType.oidf
registry_type (EntityIdentityRegistry.dcc_legacy _ _) = RegistryType.dcc_legacy
registry_type (EntityIdentityRegistry.vc_recognition _ _ _) = RegistryType.vc_recognition

abbrev pub registry_name : EntityIdentityRegistry → String
registry_name (EntityIdentityRegistry.oidf name _) = name
registry_name (EntityIdentityRegistry.dcc_legacy name _) = name
registry_name (EntityIdentityRegistry.vc_recognition name _ _) = name

abbrev pub registry_url : EntityIdentityRegistry → String
registry_url (EntityIdentityRegistry.oidf _ trust_anchor_ec) = trust_anchor_ec
registry_url (EntityIdentityRegistry.dcc_legacy _ url) = url
registry_url (EntityIdentityRegistry.vc_recognition _ url _) = url

abbrev pub registry_reference : EntityIdentityRegistry → RegistryReference
registry_reference r = record {
  name = registry_name r;
  type = registry_type r;
  url = registry_url r;
}
