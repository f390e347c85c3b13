-- ===== src/Verifier/Verify/Verdict.antt =====
-- src/verifier.ts: what `verified` says of the rows, the summaries and the embedded credentials.
use verifier_core.Shared.{
  String, true, false, not, ◌&&◌, join, Option, none, some, List, [], ◌∷◌, ◌≡◌, refl, sym, ◌∙◌,
  arith, any, all,
}
use verifier_core.Json.{Json}
use verifier_core.Types.{
  Platform, VerificationSuite, is_fatal_failure, CheckResult, CredentialVerificationResult,
  PresentationVerificationResult, ProblemDetail, problem, TimeService,
}
use verifier_core.Types.ProblemTypes
use verifier_core.Schemas.{SafeParse, success, errors, parse_credential, parse_presentation}
use verifier_core.Fold.Verdict.{fold_check_results-verdict}
use verifier_core.Verifier.{
  Suites, Services, VerifyCredentialCall, VerifyPresentationCall, has_fatal_failures,
  invalid_challenge_options,
}
use verifier_core.Verifier.Synthetic.{
  parsing_suite, synthetic_failure_result, synthetic_failure_summary, failed_presentation,
  parse_failure_credential_result, parse_failure_presentation_result,
}
use verifier_core.Verifier.Verify.{
  presentation_suites, credential_result, presentation_result, verify_parsed_credential,
  verify_credential, verify_admitted_presentation, verify_parsed_presentation, verify_presentation,
}

-- `verified` is what the rows say, and what the summaries say.
pub record IsSound (r : CredentialVerificationResult) : Type 0 where
  pub rows : r.verified ≡ not (any is_fatal_failure r.results)
  pub summaries : r.verified ≡ all (λ s. s.verified) r.summary

-- So for a presentation, with its embedded credentials.
pub record IsSoundPresentation (r : PresentationVerificationResult) : Type 0 where
  pub rows : r.verified ≡ (
      not (any is_fatal_failure r.presentation_results)
      && all (λ c. c.verified) r.credential_results)
  pub summaries :
      r.verified ≡ (all (λ s. s.verified) r.summary && all (λ c. c.verified) r.credential_results)

module _ {W : Type 0} (platform : Platform W) where
  -- The row of a synthetic failure is a fatal failure.
  synthetic_failure_result-fatal :
      (suite : VerificationSuite W) (id : String) (p : ProblemDetail) (ts : Option (TimeService W))
      (w : W)
      → is_fatal_failure (synthetic_failure_result platform suite id p ts w).0 ≡ true
  unfolding synthetic_failure_result
  synthetic_failure_result-fatal suite id p none w = refl
  synthetic_failure_result-fatal suite id p (some ts) w = refl

  synthetic_failure_summary-verified :
      (check : CheckResult) (suite : VerificationSuite W)
      → is_fatal_failure check ≡ true
      → all (λ s. s.verified) (synthetic_failure_summary platform check suite) ≡ false
  unfolding synthetic_failure_summary
  synthetic_failure_summary-verified check suite h =
      let (_, verdict, _) = fold_check_results-verdict (check ∷ []) (suite ∷ []) in
      verdict ∙ ground arith

  parse_failure-IsSound :
      (credential : Json) (messages : List String) (ts : Option (TimeService W)) (w : W)
      → IsSound (parse_failure_credential_result platform credential messages ts w).0
  unfolding parse_failure_credential_result
  parse_failure-IsSound credential messages ts w =
      let p = problem ProblemTypes.parsing_error "Credential Parsing Failed" (join "; " messages) in
      let fatal = synthetic_failure_result-fatal parsing_suite "parsing.envelope" p ts w in
      record {
        rows = ground (arith, fatal);
        summaries = sym (synthetic_failure_summary-verified _ parsing_suite fatal);
      }

  failed_presentation-IsSound :
      (presentation : Json) (suite : VerificationSuite W) (check : CheckResult)
      → is_fatal_failure check ≡ true
      → IsSoundPresentation (failed_presentation platform presentation suite check)
  unfolding failed_presentation
  failed_presentation-IsSound presentation suite check fatal = record {
    rows = ground (arith, fatal);
    summaries = ground (arith, synthetic_failure_summary-verified check suite fatal);
  }

module _ {W : Type 0} (platform : Platform W) (suites : Suites W) (services : Services W) where
  credential_result-IsSound :
      (call : VerifyCredentialCall W) (used : List (VerificationSuite W)) (rows : List CheckResult)
      → IsSound (credential_result platform suites services call used rows)
  unfolding credential_result has_fatal_failures
  credential_result-IsSound call used rows =
      let (same, verdict, _) = fold_check_results-verdict rows used in
      record { rows = rw same; summaries = sym verdict }

  verify_parsed_credential-IsSound :
      (parsed : SafeParse) (call : VerifyCredentialCall W) (w : W)
      → IsSound (verify_parsed_credential platform suites services parsed call w).0
  unfolding verify_parsed_credential
  verify_parsed_credential-IsSound (errors messages) call w =
      parse_failure-IsSound platform call.credential messages _ w
  verify_parsed_credential-IsSound success call w = credential_result-IsSound call _ _

  -- On every path, a credential's `verified` is true exactly when no row of its results is a fatal
  -- failure, and exactly when every summary is verified.
  pub verify_credential-IsSound :
      (call : VerifyCredentialCall W) (w : W)
      → IsSound (verify_credential platform suites services call w).0
  unfolding verify_credential
  verify_credential-IsSound call w =
      let sound = verify_parsed_credential-IsSound (parse_credential call.credential) call _ in
      record { rows = sound.rows; summaries = sound.summaries }

  presentation_result-IsSound :
      (call : VerifyPresentationCall W) (rows : List CheckResult)
      (credentials : List CredentialVerificationResult)
      → IsSoundPresentation (presentation_result platform suites services call rows credentials)
  unfolding presentation_result has_fatal_failures
  presentation_result-IsSound call rows credentials =
      let (same, verdict, _) =
        fold_check_results-verdict rows (presentation_suites platform suites services call) in
      record { rows = rw same; summaries = rw verdict }

  verify_admitted-IsSound :
      (options : Option ProblemDetail) (call : VerifyPresentationCall W) (w : W)
      → IsSoundPresentation (verify_admitted_presentation platform suites services options call w).0
  unfolding verify_admitted_presentation
  verify_admitted-IsSound (some p) call w =
      failed_presentation-IsSound platform call.presentation suites.proof _
        (synthetic_failure_result-fatal platform suites.proof "proof.signature" p _ w)
  verify_admitted-IsSound none call w = presentation_result-IsSound call _ _

  verify_parsed_presentation-IsSound :
      (parsed : SafeParse) (call : VerifyPresentationCall W) (w : W)
      → IsSoundPresentation (verify_parsed_presentation platform suites services parsed call w).0
  unfolding verify_parsed_presentation parse_failure_presentation_result
  verify_parsed_presentation-IsSound (errors messages) call w =
      failed_presentation-IsSound platform call.presentation parsing_suite _
        (synthetic_failure_result-fatal platform parsing_suite "parsing.envelope" _ _ w)
  verify_parsed_presentation-IsSound success call w =
      verify_admitted-IsSound (invalid_challenge_options call.challenge call.domain) call w

  -- On every path, a presentation's `verified` is true exactly when no presentation-level row is a
  -- fatal failure and every embedded credential's result is verified; and the same with the
  -- summaries in place of the rows.
  pub verify_presentation-IsSound :
      (call : VerifyPresentationCall W) (w : W)
      → IsSoundPresentation (verify_presentation platform suites services call w).0
  unfolding verify_presentation
  verify_presentation-IsSound call w =
      let sound =
        verify_parsed_presentation-IsSound (parse_presentation call.presentation) call _ in
      record { rows = sound.rows; summaries = sound.summaries }
