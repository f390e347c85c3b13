-- ===== src/Verifier/Synthetic.antt =====
-- src/verifier.ts: the top-level timing, and the results that are decided before any suite runs.
use verifier_core.Shared.{String, Bool, true, false, Option, none, some, List, [], ◌∷◌, join, sub_ℕ}
use verifier_core.Json.{Json}
use verifier_core.Types.{
  TimeService, Platform, ProblemDetail, problem, TaskTiming, failure, SuitePhase, CheckResult,
  VerificationSuite, SuiteSummary, CredentialVerificationResult, PresentationVerificationResult,
  done,
}
use verifier_core.Types.ProblemTypes
use verifier_core.Fold.Id.{compute_id}
use verifier_core.Fold.{fold_check_results}
use verifier_core.RunSuites.{InProgressTiming}

-- `PARSING_SUITE`
abbrev pub parsing_suite : {W : Type 0} → VerificationSuite W
parsing_suite = record {
  id = "parsing";
  name = "Envelope parsing";
  description = none;
  checks =
      record {
        id = "parsing.envelope";
        name = "Parse credential / presentation envelope";
        description = none;
        applies_to = none;
        fatal = some true;
        halts = none;
        execute = λ subject context w. (done (failure [] none), w);
      }
      ∷ [];
  applies = none;
  phase = some SuitePhase.cryptographic;
}

module _ {W : Type 0} (platform : Platform W) where
  start_top_level_timing : TimeService W → W → InProgressTiming × W
  start_top_level_timing time_service w =
      let (date, w₁) = time_service.date_now_ms w in
      let (mono, w₂) = time_service.performance_now_ms w₁ in
      (record { started_at = platform.to_iso_string date; started_mono_ms = mono }, w₂)

  finish_top_level_timing : InProgressTiming → TimeService W → W → TaskTiming × W
  finish_top_level_timing started time_service w =
      let (date, w₁) = time_service.date_now_ms w in
      let (mono, w₂) = time_service.performance_now_ms w₁ in
      (
        record {
          started_at = started.started_at;
          ended_at = platform.to_iso_string date;
          duration_ms = sub_ℕ mono started.started_mono_ms;
        },
        w₂,
      )

  -- `timing ? startTopLevelTiming(timeService) : undefined`
  unfoldable pub start_if : Bool → TimeService W → W → Option InProgressTiming × W
  unfolding start_top_level_timing
  start_if false time_service w = (none, w)
  start_if true time_service w =
      let (started, w') = start_top_level_timing time_service w in (some started, w')

  unfoldable pub finish_if : Option InProgressTiming → TimeService W → W → Option TaskTiming × W
  unfolding finish_top_level_timing
  finish_if none time_service w = (none, w)
  finish_if (some started) time_service w =
      let (timing, w') = finish_top_level_timing started time_service w in (some timing, w')

  failure_row : VerificationSuite W → String → ProblemDetail → Option TaskTiming → CheckResult
  failure_row suite check_id p timing = record {
    id = compute_id suite.phase suite.id check_id;
    suite = suite.id;
    outcome = failure (p ∷ []) none;
    fatal = some true;
    halts = none;
    timing = timing;
  }

  -- Both clocks are sampled twice, if there is a time service.
  unfoldable pub synthetic_failure_result :
      VerificationSuite W → String → ProblemDetail → Option (TimeService W) → W → CheckResult × W
  unfolding failure_row
  synthetic_failure_result suite check_id p none w = (failure_row suite check_id p none, w)
  synthetic_failure_result suite check_id p (some time_service) w =
      let (started_date, w₁) = time_service.date_now_ms w in
      let (started_mono, w₂) = time_service.performance_now_ms w₁ in
      let (ended_date, w₃) = time_service.date_now_ms w₂ in
      let (ended_mono, w₄) = time_service.performance_now_ms w₃ in
      (
        failure_row suite check_id p (
            some (record {
              started_at = platform.to_iso_string started_date;
              ended_at = platform.to_iso_string ended_date;
              duration_ms = sub_ℕ ended_mono started_mono;
            })),
        w₄,
      )

  unfoldable pub synthetic_failure_summary : CheckResult → VerificationSuite W → List SuiteSummary
  synthetic_failure_summary check suite = (fold_check_results (check ∷ []) (suite ∷ [])).1

  abbrev pub finalize_credential_result :
      CredentialVerificationResult
      → Option InProgressTiming
      → TimeService W
      → W
      → CredentialVerificationResult × W
  finalize_credential_result result top_level time_service w =
      let (timing, w') = finish_if top_level time_service w in
      (record result { timing = timing }, w')

  abbrev pub finalize_presentation_result :
      PresentationVerificationResult
      → Option InProgressTiming
      → TimeService W
      → W
      → PresentationVerificationResult × W
  finalize_presentation_result result top_level time_service w =
      let (timing, w') = finish_if top_level time_service w in
      (record result { timing = timing }, w')

  unfoldable pub parse_failure_credential_result :
      Json → List String → Option (TimeService W) → W → CredentialVerificationResult × W
  unfolding synthetic_failure_result synthetic_failure_summary
  parse_failure_credential_result credential messages time_service w =
      let p = problem ProblemTypes.parsing_error "Credential Parsing Failed" (join "; " messages) in
      let (check, w') =
        synthetic_failure_result parsing_suite "parsing.envelope" p time_service w in
      (
        record {
          verified = false;
          verifiable_credential = credential;
          normalized_verifiable_credential = none;
          recognized_profile = none;
          results = check ∷ [];
          summary = synthetic_failure_summary check parsing_suite;
          partial = none;
          timing = none;
        },
        w',
      )

  -- A presentation's result that is decided before any suite runs.
  unfoldable pub failed_presentation :
      Json → VerificationSuite W → CheckResult → PresentationVerificationResult
  unfolding synthetic_failure_summary
  failed_presentation presentation suite check = record {
    verified = false;
    verifiable_presentation = presentation;
    presentation_results = check ∷ [];
    credential_results = [];
    summary = synthetic_failure_summary check suite;
    partial = none;
    timing = none;
  }

  unfoldable pub parse_failure_presentation_result :
      Json → List String → Option (TimeService W) → W → PresentationVerificationResult × W
  unfolding synthetic_failure_result failed_presentation
  parse_failure_presentation_result presentation messages time_service w =
      let p =
        problem ProblemTypes.parsing_error "Presentation Parsing Failed" (join "; " messages) in
      let (check, w') =
        synthetic_failure_result parsing_suite "parsing.envelope" p time_service w in
      (failed_presentation presentation parsing_suite check, w')
