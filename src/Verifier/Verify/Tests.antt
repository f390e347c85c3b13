-- ===== src/Verifier/Verify/Tests.antt =====
-- Concrete calls of the verifier.
use verifier_core.Shared.{ℕ, false, none, some, [], ◌∷◌, ◌≡◌, refl, inr}
use mathlib.Core.List.{Memᴰ}
use verifier_core.Json.{null, str}
use verifier_core.Types.{done}
use verifier_core.Schemas.{parse_credential, parse_presentation}
use verifier_core.RunSuites.{
  applies_to_subject, run_suites, run_loop, run_suite, suite_runs_in_phases, run_applied,
  evaluate_applies, run_checks, run_check, run_admitted, execute_check, execute_timed, contain,
  build_result, halts_on_failure,
}
use verifier_core.Verifier.Synthetic.{start_if, finish_if}
use verifier_core.Verifier.{
  has_fatal_failures, extract_value, Suites, Services, VerifyCredentialCall, VerifyPresentationCall,
  expand_phases, invalid_challenge_options, extract_credentials_from,
}
use verifier_core.Verifier.Verify.{
  build_context, verify_presentation, verify_parsed_presentation, verify_admitted_presentation,
  presentation_result, run_presentation, verify_credentials, verify_credential,
  verify_parsed_credential, credential_result, run_credential,
}
use verifier_core.Verifier.Verify.Verdict.{
  IsSound, IsSoundPresentation, verify_credential-IsSound, verify_presentation-IsSound,
}
use verifier_core.Verifier.Verify.Gate.{IsAccepted, verify_presentation-IsAccepted}
use verifier_core.Verifier.Verify.FailClosed.{verify_credential-fails_closed}
use verifier_core.Verifier.Verify.CoreChecks.{IsWellFormed, verify_credential-IsWellFormed}
use verifier_core.Core.Checks.{
  judge_id, context_check, vc_context_check, credential_id_check, proof_exists_check,
}
use verifier_core.Core.Structure.{
  vc_structure_check, judge_credential, vc_violations, check_credential_subject, check_subjects,
  check_subject_entry, check_optional_url, check_issuer, check_dates, check_dates_of,
  check_date_time, check_typed_properties, check_typed_property, check_property_value,
  check_typed_property_entry, check_entry_id,
}
use verifier_core.VcContexts.{first_context_entry, vc_version_of}
use verifier_core.Core.Rules.{
  check_first_context_entry, check_type_includes, check_url_or_id_object, check_typed_entry,
  as_entries, entries_from, run_structure_rules, missing_subject_failure,
}
use verifier_core.Samples.{
  well_formed, text_tests, time_service, platform, http, no_cache, accepting, suite_of, good, bad,
  failing_suite, credential, presentation,
}

abbrev suites : Suites ℕ
suites = record {
  core = suite_of "core" (good ∷ []);
  recognition = suite_of "recognition" [];
  proof = suite_of "proof" (good ∷ []);
  registry = suite_of "registry" [];
  status = suite_of "status" [];
}

abbrev services : Services ℕ
services = record {
  http_get_service = http;
  cache_service = no_cache;
  crypto_services = accepting ∷ [];
  document_loader = λ url w. (done null, w);
  lookup_issuers = λ did registries options w. (
    done (record { found = false; payload = record { matches = []; unchecked_registries = [] } }),
    w,
  );
  registries = none;
  recognizers = [];
  phases = none;
  timing = none;
  time_service = time_service;
}

abbrev call : VerifyCredentialCall ℕ
call = record {
  credential = credential;
  additional_suites = some (failing_suite ∷ []);
  registries = none;
  phases = none;
  timing = none;
}

abbrev well_formed_call : VerifyCredentialCall ℕ
well_formed_call = record call { credential = well_formed; additional_suites = none }

abbrev bad_call : VerifyCredentialCall ℕ
bad_call = record call { credential = str "a" }

abbrev presentation_call : VerifyPresentationCall ℕ
presentation_call = record {
  presentation = presentation;
  challenge = none;
  domain = none;
  unsigned_presentation = none;
  additional_suites = none;
  registries = none;
  phases = none;
  timing = none;
}

abbrev empty_challenge_call : VerifyPresentationCall ℕ
empty_challenge_call = record presentation_call { challenge = some "" }

verify_credential-IsSound_example : IsSound (verify_credential platform suites services call 0).0
verify_credential-IsSound_example = verify_credential-IsSound platform suites services call 0

verify_presentation-IsSound_example :
    IsSoundPresentation (verify_presentation platform suites services presentation_call 0).0
verify_presentation-IsSound_example =
    verify_presentation-IsSound platform suites services presentation_call 0

verify_presentation-IsAccepted_example :
    IsAccepted platform suites services presentation_call
      (verify_presentation platform suites services presentation_call 0).0
unfolding parse_presentation parse_credential invalid_challenge_options has_fatal_failures
    expand_phases extract_credentials_from extract_value build_context start_if finish_if
    verify_presentation verify_parsed_presentation verify_admitted_presentation presentation_result
    run_presentation verify_credentials verify_credential verify_parsed_credential credential_result
    run_credential run_suites run_loop run_suite suite_runs_in_phases run_applied evaluate_applies
    run_checks run_check run_admitted execute_check execute_timed contain build_result
    halts_on_failure
verify_presentation-IsAccepted_example =
    verify_presentation-IsAccepted platform suites services presentation_call 0 refl

verify_credential-fails_closed_example :
    (verify_credential platform suites services call 0).0.verified ≡ false
unfolding suite_runs_in_phases expand_phases evaluate_applies applies_to_subject
verify_credential-fails_closed_example =
    verify_credential-fails_closed platform suites services call failing_suite bad 0
      (Memᴰ.tail (Memᴰ.tail (Memᴰ.tail (Memᴰ.tail (Memᴰ.tail (Memᴰ.head refl))))))
      (record {
        runs = refl;
        holds = λ context. refl;
        member = Memᴰ.tail (Memᴰ.head refl);
        applies = refl;
        fatal = refl;
        never = λ context w. inr (_, none, refl);
      })

verify_credential-IsWellFormed_example : IsWellFormed text_tests well_formed
unfolding parse_credential has_fatal_failures expand_phases build_context start_if finish_if
    verify_credential verify_parsed_credential credential_result run_credential run_suites run_loop
    run_suite suite_runs_in_phases run_applied evaluate_applies run_checks run_check run_admitted
    execute_check execute_timed contain build_result halts_on_failure applies_to_subject
    context_check vc_context_check vc_structure_check credential_id_check proof_exists_check
    judge_id judge_credential vc_violations check_first_context_entry check_type_includes
    check_credential_subject check_subjects check_subject_entry check_optional_url check_issuer
    check_url_or_id_object check_dates check_dates_of check_date_time check_typed_properties
    check_typed_property check_property_value check_typed_property_entry check_entry_id
    check_typed_entry as_entries entries_from run_structure_rules missing_subject_failure
    first_context_entry vc_version_of
verify_credential-IsWellFormed_example =
    verify_credential-IsWellFormed platform text_tests suites services well_formed_call 0 refl refl
