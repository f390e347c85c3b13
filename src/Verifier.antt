-- ===== src/Verifier.antt =====
-- src/verifier.ts, src/extract-credentials-from.ts, src/default-suites.ts. The two functions never
-- reject: what may throw runs inside `run_suites`.
pub mod Synthetic
mod Flatten
pub mod Verify
use verifier_core.Shared.{
  String, Bool, not, ◌&&◌, Option, none, some, List, [], ◌∷◌, ◌++◌, ◌==◌, if◌then◌else◌, any, find?,
}
use verifier_core.Json.{Json, arr, items, property, is_truthy}
use verifier_core.Types.{
  TimeService, ProblemDetail, problem, recognized, EntityIdentityRegistry, LookupIssuers,
  CryptoService, DocumentLoader, HttpGetService, CacheService, RecognizerSpec, Payload, success,
  failure, skipped, SuitePhase, CheckResult, VerificationSuite, is_fatal_failure,
}
use verifier_core.Types.ProblemTypes
use verifier_core.RunSuites.{phase_eq}

-- The suites that the verifier assembles.
pub record Suites (W : Type 0) : Type 0 where
  pub core : VerificationSuite W
  pub recognition : VerificationSuite W
  pub proof : VerificationSuite W
  pub registry : VerificationSuite W
  pub status : VerificationSuite W

-- What `createVerifier` closes over: the configuration with its defaults filled in, and the registry
-- lookup that it builds.
pub record Services (W : Type 0) : Type 0 where
  pub http_get_service : HttpGetService W
  pub cache_service : CacheService W
  pub crypto_services : List (CryptoService W)
  pub document_loader : DocumentLoader W
  pub lookup_issuers : LookupIssuers W
  pub registries : Option (List EntityIdentityRegistry)
  pub recognizers : List RecognizerSpec
  pub phases : Option (List SuitePhase)
  pub timing : Option Bool
  pub time_service : TimeService W

pub record VerifyCredentialCall (W : Type 0) : Type 0 where
  pub credential : Json
  pub additional_suites : Option (List (VerificationSuite W))
  pub registries : Option (List EntityIdentityRegistry)
  pub phases : Option (List SuitePhase)
  pub timing : Option Bool

-- `challenge` is `none` for `null` and for `undefined`.
pub record VerifyPresentationCall (W : Type 0) : Type 0 where
  pub presentation : Json
  pub challenge : Option String
  pub domain : Option String
  pub unsigned_presentation : Option Bool
  pub additional_suites : Option (List (VerificationSuite W))
  pub registries : Option (List EntityIdentityRegistry)
  pub phases : Option (List SuitePhase)
  pub timing : Option Bool

-- `a ?? b` between optional values
abbrev pub or_option {ℓ} : {A : Type ℓ} → Option A → Option A → Option A
or_option none b = b
or_option (some a) b = some a

pub has_fatal_failures : List CheckResult → Bool
has_fatal_failures results = any is_fatal_failure results

abbrev includes_phase : SuitePhase → List SuitePhase → Bool
includes_phase phase phases = any (phase_eq phase) phases

pub expand_phases : Option (List SuitePhase) → Option (List SuitePhase)
expand_phases none = none
expand_phases (some requested) =
    if includes_phase SuitePhase.semantic requested
      && not (includes_phase SuitePhase.recognition requested)
    then some (requested ++ SuitePhase.recognition ∷ [])
    else some requested

recognized_payload : Option Payload → Option (String × Json)
recognized_payload (some (Payload.recognition (recognized profile normalized))) =
    some (profile, normalized)
recognized_payload _ = none

recognized_outcome : Option CheckResult → Option (String × Json)
unfolding recognized_payload
recognized_outcome none = none
recognized_outcome (some result) = elim (result.outcome) [
  | success _ payload ↦ recognized_payload payload
  | failure _ _ ↦ none
  | skipped _ _ _ ↦ none
]

pub extract_recognition : List CheckResult → Option (String × Json)
unfolding recognized_outcome
extract_recognition results =
    recognized_outcome (find? (λ r. r.id == "recognition.profile") results)

-- src/extract-credentials-from.ts; `none` is `null`
extract_value : Option Json → Option (List Json)
extract_value (some (arr vs)) = elim (items vs) [ [] ↦ none | v ∷ vs' ↦ some (v ∷ vs') ]
extract_value (some v) = if is_truthy (some v) then some (v ∷ []) else none
extract_value none = none

pub extract_credentials_from : Json → Option (List Json)
unfolding extract_value
extract_credentials_from vp = extract_value (property "verifiableCredential" vp)

abbrev challenge_required : ProblemDetail
challenge_required =
    problem ProblemTypes.proof_verification_error "Challenge Required"
      "A domain was supplied without a challenge. The domain can only be checked alongside a challenge."

abbrev empty_challenge : ProblemDetail
empty_challenge =
    problem ProblemTypes.proof_verification_error "Challenge Required"
      "The challenge is an empty string. Pass a non-empty challenge, or omit it to check the signature only."

pub invalid_challenge_options : Option String → Option String → Option ProblemDetail
invalid_challenge_options (some challenge) domain =
    if challenge == "" then some empty_challenge else none
invalid_challenge_options none none = none
invalid_challenge_options none (some domain) = some challenge_required
