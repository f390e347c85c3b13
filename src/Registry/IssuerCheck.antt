-- ===== src/Registry/IssuerCheck.antt =====
-- src/suites/registry/issuer-registry-check.ts, src/util/issuer-id.ts. The payload of every outcome that
-- the lookup reached holds the matches and the registries that could not be checked.
pub mod Verdict
mod Tests
use Prim.Native.Nat.{◌-◌}
use verifier_core.Shared.{
  ℕ, ◌≤◌, String, Bool, true, false, not, ◌&&◌, Option, none, some, List, [], ◌∷◌, ◌++◌, ◌<>◌, ◌==◌,
  ◌≡◌, refl, arith, if◌then◌else◌, is_nonempty, nat_eq, leb, ltb, length, map, any, decimal, join,
  or_else, Bool-cases, inl, inr, eq_iff,
}
use verifier_core.Json.{Json, null, obj, str, lookup_field, property, is_truthy, error_message}
use verifier_core.Types.{
  Attempt, done, thrown, ProblemDetail, problem, VerificationSubject, VerificationContext,
  EntityIdentityRegistry, RegistryCheckPayload, RegistryLookupResult, LookupIssuers, Payload,
  verifiable_credential, SuitePhase, VerificationCheck, VerificationSuite, CheckOutcome, success,
  failure, skipped,
}
use verifier_core.Types.ProblemTypes

abbrev nonempty_string : Option Json → Option String
nonempty_string (some (str s)) = if is_nonempty s then some s else none
nonempty_string _ = none

-- `issuerId`
unfoldable pub issuer_id : Option Json → Option String
issuer_id (some (obj fs)) = nonempty_string (lookup_field "id" fs)
issuer_id issuer = nonempty_string issuer

unfoldable pub credential_issuer_id : Json → Option String
unfolding issuer_id
credential_issuer_id credential = issuer_id (property "issuer" credential)

abbrev registries_noun : ℕ → String
registries_noun count = if nat_eq count 1 then "registry" else "registries"

abbrev unchecked_count : RegistryCheckPayload → ℕ
unchecked_count payload = length payload.unchecked_registries

unchecked_summary : RegistryCheckPayload → String
unchecked_summary payload =
    let count = unchecked_count payload in
    decimal count
    <> " "
    <> registries_noun count
    <> " could not be checked: "
    <> join ", " (map (λ r. r.name) payload.unchecked_registries)

found_in : List String → String
found_in (only ∷ []) = "Issuer found in registry: " <> only
found_in names = "Issuer found in " <> decimal (length names) <> " registries: " <> join ", " names

-- `fullMessage`
found_message : RegistryCheckPayload → String
unfolding found_in unchecked_summary
found_message payload =
    let message = found_in (map (λ m. m.registry.name) payload.matches) in
    if ltb 0 (unchecked_count payload)
    then message <> ". " <> unchecked_summary payload
    else message

not_registered : String → ℕ → RegistryCheckPayload → ProblemDetail
not_registered issuer_did total payload =
    let unchecked = unchecked_count payload in
    let checked = total - unchecked in
    problem ProblemTypes.issuer_not_registered "Issuer Not Registered" (
      if nat_eq unchecked 0
      then "Issuer " <> issuer_did <> " was not found in any known DID registry."
      else "Issuer "
        <> issuer_did
        <> " was not found in the "
        <> decimal checked
        <> " "
        <> registries_noun checked
        <> " that could be checked; "
        <> decimal unchecked
        <> " could not be checked.")

unchecked_problem : String → ProblemDetail
unchecked_problem detail = problem ProblemTypes.registry_unchecked "Registry Unchecked" detail

abbrev registry_payload : RegistryCheckPayload → Option Payload
registry_payload payload = some (Payload.registry payload)

-- What follows a lookup that returned, over `total` registries.
pub judge_lookup : String → ℕ → RegistryLookupResult → CheckOutcome
unfolding found_message unchecked_summary not_registered unchecked_problem
judge_lookup issuer_did total result =
    let payload = result.payload in
    let unchecked = unchecked_count payload in
    if result.found
    then success (found_message payload) (registry_payload payload)
    else if leb total unchecked
    then failure
        (unchecked_problem
            ("Issuer registration could not be determined: " <> unchecked_summary payload)
          ∷ [])
        (registry_payload payload)
    else failure
        (not_registered issuer_did total payload
          ∷ (if ltb 0 unchecked then unchecked_problem (unchecked_summary payload) ∷ [] else []))
        (registry_payload payload)

-- The `try` and its `catch`.
pub judge_attempt : String → ℕ → Attempt RegistryLookupResult → CheckOutcome
judge_attempt issuer_did total (done result) = judge_lookup issuer_did total result
judge_attempt issuer_did total (thrown error) =
    failure
      (problem ProblemTypes.registry_error "Registry Lookup Error"
          (error_message error "An error occurred while looking up issuer in registries.")
        ∷ [])
      none

abbrev skip : String → CheckOutcome
skip reason = skipped reason none none

abbrev no_issuer : CheckOutcome
no_issuer =
    failure
      (problem ProblemTypes.issuer_not_found "Issuer Not Found"
          "Credential has no issuer or issuer ID is missing."
        ∷ [])
      none

module _ {W : Type 0} where
  pub look_up :
      Option String → Option (LookupIssuers W) → List EntityIdentityRegistry → W → CheckOutcome × W
  look_up none lookup_issuers registries w = (no_issuer, w)
  look_up (some issuer_did) none registries w =
      (skip "No lookupIssuers in verification context.", w)
  look_up (some issuer_did) (some lookup_issuers) registries w =
      let (result, w') = lookup_issuers issuer_did registries none w in
      (judge_attempt issuer_did (length registries) result, w')

  -- `issuerRegistryCheck.execute`
  pub issuer_registry_check : VerificationSubject → VerificationContext W → W → CheckOutcome × W
  issuer_registry_check subject context w =
      let registries = or_else context.registries [] in
      if not (is_truthy subject.verifiable_credential)
      then (skip "No verifiable credential found in subject.", w)
      else if nat_eq (length registries) 0
      then (skip "No registries configured in verification context.", w)
      else look_up (credential_issuer_id (or_else subject.verifiable_credential null))
          context.lookup_issuers registries w

  -- src/suites/registry/index.ts
  abbrev registry_suite : VerificationSuite W
  registry_suite = record {
    id = "registry";
    name = "Issuer Registry";
    description = some "Checks if the issuer DID appears in known DID registries.";
    checks =
        record {
          id = "registry.issuer";
          name = "Issuer Registry Check";
          description = some "Checks if the issuer DID appears in known DID registries.";
          applies_to = some (verifiable_credential ∷ []);
          fatal = some false;
          halts = none;
          execute = λ subject context w.
              let (outcome, w') = issuer_registry_check subject context w in (done outcome, w');
        }
        ∷ [];
    applies = none;
    phase = some SuitePhase.trust;
  }
