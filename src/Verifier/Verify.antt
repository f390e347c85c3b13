-- ===== src/Verifier/Verify.antt =====
-- src/verifier.ts: `verifyCredential` and `verifyPresentation`.
pub mod Verdict
pub mod Gate
pub mod FailClosed
pub mod CoreChecks
mod Tests
use verifier_core.Shared.{
  ℕ, String, Bool, true, false, not, ◌&&◌, Option, none, some, List, [], ◌∷◌, ◌++◌, if◌then◌else◌,
  map, is_some, all, or_else, join, sub_ℕ,
}
use mathlib.Core.Option
use verifier_core.Json.{Json}
use verifier_core.Types.{
  TimeService, Platform, ProblemDetail, problem, VerificationSubject, TaskTiming,
  EntityIdentityRegistry, VerificationContext, failure, SuitePhase, CheckResult, VerificationCheck,
  VerificationSuite, SuiteSummary, CredentialVerificationResult, PresentationVerificationResult,
  done,
}
use verifier_core.Types.ProblemTypes
use verifier_core.Schemas.{SafeParse, success, errors, parse_credential, parse_presentation}
use verifier_core.Fold.Id.{compute_id}
use verifier_core.Fold.{fold_check_results}
use verifier_core.RunSuites.{InProgressTiming, run_suites}
use verifier_core.Verifier.{
  Suites, Services, VerifyCredentialCall, VerifyPresentationCall, or_option, has_fatal_failures,
  expand_phases, extract_recognition, extract_credentials_from, invalid_challenge_options,
}
use verifier_core.Verifier.Synthetic.{
  start_if, finish_if, synthetic_failure_result, finalize_credential_result,
  finalize_presentation_result, parse_failure_credential_result, failed_presentation,
  parse_failure_presentation_result,
}

module _ {W : Type 0} (services : Services W) where
  -- `call.timing ?? constructorTiming ?? false`
  abbrev effective_timing : Option Bool → Bool
  effective_timing timing = or_else (or_option timing services.timing) false

  -- The services and the instant `now`, read from the clock.
  pub build_context :
      Option (List EntityIdentityRegistry)
      → Option String
      → Option String
      → Option Bool
      → Bool
      → W
      → VerificationContext W × W
  build_context registries challenge domain unsigned_presentation timing w =
      let (now, w') = services.time_service.date_now_ms w in
      (
        record {
          document_loader = services.document_loader;
          http_get_service = some services.http_get_service;
          cache_service = some services.cache_service;
          crypto_services = services.crypto_services;
          registries = or_option registries services.registries;
          lookup_issuers = some services.lookup_issuers;
          challenge = challenge;
          domain = domain;
          unsigned_presentation = some (or_else unsigned_presentation false);
          recognizers = some services.recognizers;
          time_service = some services.time_service;
          now = now;
          timing = some timing;
        },
        w',
      )

module _ {W : Type 0} (platform : Platform W) (suites : Suites W) (services : Services W) where
  -- `defaultSuites`
  abbrev default_suites : List (VerificationSuite W)
  default_suites =
      suites.core ∷ suites.recognition ∷ suites.proof ∷ suites.registry ∷ suites.status ∷ []

  abbrev partial_of : Option (List SuitePhase) → Option Bool
  partial_of none = none
  partial_of (some phases) = some true

  -- The rows of a credential's run become its result.
  pub credential_result :
      VerifyCredentialCall W
      → List (VerificationSuite W)
      → List CheckResult
      → CredentialVerificationResult
  credential_result call used rows =
      let recognized = extract_recognition rows in
      let folded = fold_check_results rows used in
      record {
        verified = not (has_fatal_failures rows);
        verifiable_credential = call.credential;
        normalized_verifiable_credential = Option.map (λ r. r.1) recognized;
        recognized_profile = Option.map (λ r. r.0) recognized;
        results = folded.0;
        summary = folded.1;
        partial = partial_of (or_option call.phases services.phases);
        timing = none;
      }

  abbrev pub credential_suites : VerifyCredentialCall W → List (VerificationSuite W)
  credential_suites call = default_suites ++ or_else call.additional_suites []

  -- The rows of the run for a parsed credential.
  pub run_credential : VerifyCredentialCall W → W → List CheckResult × W
  unfolding build_context
  run_credential call w =
      let timing = effective_timing services call.timing in
      let (context, w') = build_context services call.registries none none none timing w in
      run_suites platform
        (record { verifiable_credential = some call.credential; verifiable_presentation = none })
        context
        (record {
          explicit_suite_ids = some (map (λ s. s.id) (or_else call.additional_suites []));
          phases = expand_phases (or_option call.phases services.phases);
        })
        (credential_suites call) w'

  -- What follows the parse.
  pub verify_parsed_credential :
      SafeParse → VerifyCredentialCall W → W → CredentialVerificationResult × W
  verify_parsed_credential (errors messages) call w =
      let timing = effective_timing services call.timing in
      parse_failure_credential_result platform call.credential messages
        (if timing then some services.time_service else none) w
  verify_parsed_credential success call w =
      let (rows, w') = run_credential call w in
      (credential_result call (credential_suites call) rows, w')

  pub verify_credential : VerifyCredentialCall W → W → CredentialVerificationResult × W
  unfolding start_if finish_if
  verify_credential call w =
      let timing = effective_timing services call.timing in
      let (top_level, w₁) = start_if platform timing services.time_service w in
      let (result, w₂) = verify_parsed_credential (parse_credential call.credential) call w₁ in
      finalize_credential_result platform result top_level services.time_service w₂

  -- The loop over the embedded credentials.
  pub verify_credentials :
      VerifyPresentationCall W → Bool → List Json → W → List CredentialVerificationResult × W
  verify_credentials call timing [] w = ([], w)
  verify_credentials call timing (credential ∷ credentials) w =
      let (result, w₁) =
        verify_credential
          (record {
            credential = credential;
            additional_suites = call.additional_suites;
            registries = call.registries;
            phases = call.phases;
            timing = some timing;
          })
          w in
      let (results, w₂) = verify_credentials call timing credentials w₁ in (result ∷ results, w₂)

  abbrev pub presentation_suites : VerifyPresentationCall W → List (VerificationSuite W)
  presentation_suites call = suites.core ∷ suites.proof ∷ or_else call.additional_suites []

  -- The rows of the presentation's own run.
  pub run_presentation : VerifyPresentationCall W → W → List CheckResult × W
  unfolding build_context
  run_presentation call w =
      let timing = effective_timing services call.timing in
      let (context, w') =
        build_context services call.registries call.challenge call.domain call.unsigned_presentation
          timing w in
      run_suites platform
        (record { verifiable_credential = none; verifiable_presentation = some call.presentation })
        context
        (record {
          explicit_suite_ids = some (map (λ s. s.id) (or_else call.additional_suites []));
          phases = expand_phases (or_option call.phases services.phases);
        })
        (presentation_suites call) w'

  pub presentation_result :
      VerifyPresentationCall W
      → List CheckResult
      → List CredentialVerificationResult
      → PresentationVerificationResult
  presentation_result call rows credential_results =
      let folded = fold_check_results rows (presentation_suites call) in
      record {
        verified = not (has_fatal_failures rows) && all (λ r. r.verified) credential_results;
        verifiable_presentation = call.presentation;
        presentation_results = folded.0;
        credential_results = credential_results;
        summary = folded.1;
        partial = partial_of (or_option call.phases services.phases);
        timing = none;
      }

  -- What follows the parse and the check of the challenge options.
  pub verify_admitted_presentation :
      Option ProblemDetail → VerifyPresentationCall W → W → PresentationVerificationResult × W
  verify_admitted_presentation (some options_problem) call w =
      let timing = effective_timing services call.timing in
      let (check, w') =
        synthetic_failure_result platform suites.proof "proof.signature" options_problem
          (if timing then some services.time_service else none) w in
      (failed_presentation platform call.presentation suites.proof check, w')
  verify_admitted_presentation none call w =
      let timing = effective_timing services call.timing in
      let (rows, w₁) = run_presentation call w in
      let credentials = or_else (extract_credentials_from call.presentation) [] in
      let (credential_results, w₂) = verify_credentials call timing credentials w₁ in
      (presentation_result call rows credential_results, w₂)

  pub verify_parsed_presentation :
      SafeParse → VerifyPresentationCall W → W → PresentationVerificationResult × W
  verify_parsed_presentation (errors messages) call w =
      let timing = effective_timing services call.timing in
      parse_failure_presentation_result platform call.presentation messages
        (if timing then some services.time_service else none) w
  verify_parsed_presentation success call w =
      verify_admitted_presentation (invalid_challenge_options call.challenge call.domain) call w

  pub verify_presentation : VerifyPresentationCall W → W → PresentationVerificationResult × W
  unfolding start_if finish_if
  verify_presentation call w =
      let timing = effective_timing services call.timing in
      let (top_level, w₁) = start_if platform timing services.time_service w in
      let (result, w₂) =
        verify_parsed_presentation (parse_presentation call.presentation) call w₁ in
      finalize_presentation_result platform result top_level services.time_service w₂
