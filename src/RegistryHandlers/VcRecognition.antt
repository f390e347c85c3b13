-- ===== src/RegistryHandlers/VcRecognition.antt =====
-- src/services/registry-handlers/vc-recognition-handler.ts. The verifier of the context is its `verifyCredential`.
mod Grounds
pub mod Recognized
use verifier_core.Shared.{
  ℕ, String, Bool, true, false, not, ◌&&◌, ◌||◌, Option, none, some, List, [], ◌∷◌, ◌<>◌, ◌==◌,
  find?, leb, or_else, if◌then◌else◌,
}
use verifier_core.Json.{Json, Fields, null, arr, obj, str, items, property, lookup_field, as_string}
use verifier_core.Types.{
  Attempt, Platform, Action, ◌>>=◌, ◌>>◌, pure, done, thrown, HttpGetResult, HttpGetService,
  CacheService, payload, EntityIdentityRegistry, RegistryEntity, CredentialVerificationResult,
}
use verifier_core.Core.Rules.{includes}
use verifier_core.Verifier.{VerifyCredentialCall}
use verifier_core.Registry.{HandlerResult, found, not_found, unchecked, RegistryHandlerContext}
use verifier_core.Registry.IssuerCheck.{credential_issuer_id}
use verifier_core.RegistryHandlers.CacheTtl.{default_ttl_ms, ttl_from_valid_until, resolve_ttl}
use verifier_core.RegistryHandlers.Answer.{fetch, is_refused, cached_payload}

-- `verifier.verifyCredential`
abbrev pub Verifies : Type 0 → Type 0
Verifies W = VerifyCredentialCall W → Action W CredentialVerificationResult

abbrev pub as_object : Json → Option Json
as_object (obj fields) = some (obj fields)
as_object _ = none

unfoldable pub load : Option HttpGetResult → Option Json
load none = none
load (some result) = if is_refused result then none else as_object result.body

-- `findSubjectEntry`
abbrev pub is_entry_of : String → Json → Bool
is_entry_of did (obj fields) = elim (lookup_field "id" fields) [
  | some (str id) ↦ id == did
  | _ ↦ false
]
is_entry_of did _ = false

abbrev pub subject_entries : Option Json → List Json
subject_entries (some (arr vs)) = items vs
subject_entries (some subject) = subject ∷ []
subject_entries none = []

unfoldable pub find_subject_entry : Json → String → Option Json
find_subject_entry credential did =
    find? (is_entry_of did) (subject_entries (property "credentialSubject" credential))

unfoldable pub entity_from_entry : Json → RegistryEntity
entity_from_entry entry = record {
  name = as_string (property "name" entry);
  url = as_string (property "url" entry);
  raw = some entry;
}

unfoldable pub judge_entry : Option Json → HandlerResult
unfolding entity_from_entry
judge_entry none = not_found
judge_entry (some entry) = found (some (entity_from_entry entry))

unfoldable pub judge_credential : String → Json → HandlerResult
unfolding judge_entry
judge_credential did credential = judge_entry (find_subject_entry credential did)

abbrev pub is_accepted : List String → Json → Bool
is_accepted accepted_issuers loaded = elim (credential_issuer_id loaded) [
  | none ↦ false
  | some issuer ↦ includes accepted_issuers issuer
]

-- The call for the recognition credential: no registry is asked for it.
abbrev pub recognition_call : {W : Type 0} → Json → VerifyCredentialCall W
recognition_call loaded = record {
  credential = loaded;
  additional_suites = none;
  registries = some [];
  phases = none;
  timing = none;
}

abbrev min : ℕ → ℕ → ℕ
min a b = if leb a b then a else b

pub recognition_ttl : {W : Type 0} → Platform W → Json → ℕ → ℕ
recognition_ttl platform loaded now =
    min (resolve_ttl (ttl_from_valid_until platform (property "validUntil" loaded) now ∷ []))
      default_ttl_ms

module _ {W : Type 0} (platform : Platform W)
    (context : RegistryHandlerContext W (Verifies W)) where
  abbrev verifier_of : Action W (Verifies W)
  verifier_of w = (context.verifier, w)

  abbrev fetch_recognition_credential_json : String → Action W (Option Json)
  fetch_recognition_credential_json url w =
      let (result, w') = fetch context.http_get_service url w in (done (load result), w')

  abbrev pub now_ms : Action W ℕ
  now_ms w = let (now, w') = context.time_service.date_now_ms w in (done now, w')

  abbrev pub store_at : String → String → Json → ℕ → Action W HandlerResult
  store_at key did loaded now = do
    context.cache_service.set key (payload loaded) (some (recognition_ttl platform loaded now))
    pure (judge_credential did loaded)

  abbrev store_verified :
      String → String → Json → CredentialVerificationResult → Action W HandlerResult
  store_verified key did loaded verification =
      if not verification.verified then pure unchecked else now_ms >>= store_at key did loaded

  abbrev judge_loaded :
      Verifies W → String → List String → String → Option Json → Action W HandlerResult
  judge_loaded verify key accepted_issuers did none = pure unchecked
  judge_loaded verify key accepted_issuers did (some loaded) =
      if not (is_accepted accepted_issuers loaded)
      then pure unchecked
      else verify (recognition_call loaded) >>= store_verified key did loaded

  unfoldable pub load_recognition :
      Verifies W → String → List String → String → Action W HandlerResult
  unfolding load
  load_recognition verify url accepted_issuers did =
      fetch_recognition_credential_json url
      >>= judge_loaded verify ("vc-recognition:" <> url) accepted_issuers did

  unfoldable pub answer_recognition :
      Verifies W → String → List String → String → Option Json → Action W HandlerResult
  answer_recognition verify url accepted_issuers did (some credential) =
      pure (judge_credential did credential)
  answer_recognition verify url accepted_issuers did none =
      load_recognition verify url accepted_issuers did

  abbrev pub answer_from_cache : Verifies W → String → List String → String → Action W HandlerResult
  answer_from_cache verify url accepted_issuers did =
      context.cache_service.get ("vc-recognition:" <> url)
      >>= (λ cached. answer_recognition verify url accepted_issuers did (cached_payload cached))

  unfoldable pub lookup_vc_recognition : String → EntityIdentityRegistry → Action W HandlerResult
  lookup_vc_recognition did (EntityIdentityRegistry.vc_recognition name url accepted_issuers) =
      verifier_of >>= (λ verify. answer_from_cache verify url accepted_issuers did)
  lookup_vc_recognition did registry = pure unchecked
