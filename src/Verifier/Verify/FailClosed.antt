-- ===== src/Verifier/Verify/FailClosed.antt =====
-- src/verifier.ts: a fatal check that cannot pass keeps the credential from being verified.
use verifier_core.Shared.{true, false, none, some, ◌≡◌, refl, any}
use mathlib.Core.List.{Memᴰ}
use verifier_core.Types.{
  Platform, VerificationSubject, VerificationContext, VerificationCheck, VerificationSuite,
  is_fatal_failure, done,
}
use verifier_core.Schemas.{SafeParse, success, errors, parse_credential}
use verifier_core.RunSuites.{suite_runs_in_phases, evaluate_applies, applies_to_subject}
use verifier_core.RunSuites.FailClosed.{NeverPasses, run_suites-fails_closed}
use verifier_core.Verifier.{
  Suites, Services, VerifyCredentialCall, or_option, has_fatal_failures, expand_phases,
}
use verifier_core.Verifier.Synthetic.{parse_failure_credential_result}
use verifier_core.Verifier.Verify.{
  credential_suites, credential_result, run_credential, verify_parsed_credential, verify_credential,
}

-- The subject that a credential's checks receive.
abbrev pub credential_subject : {W : Type 0} → VerifyCredentialCall W → VerificationSubject
credential_subject call = record {
  verifiable_credential = some call.credential;
  verifiable_presentation = none;
}

-- In every context the suite's predicate holds, and the check fails or throws.
pub record Blocks {W : Type 0} (services : Services W) (call : VerifyCredentialCall W)
    (suite : VerificationSuite W) (check : VerificationCheck W) : Type 0 where
  pub runs :
      suite_runs_in_phases suite (expand_phases (or_option call.phases services.phases)) ≡ true
  pub holds :
      (context : VerificationContext W)
      → evaluate_applies suite (credential_subject call) context ≡ done true
  pub member : Memᴰ check suite.checks
  pub applies : applies_to_subject check (credential_subject call) ≡ true
  pub fatal : check.fatal ≡ some true
  pub never :
      (context : VerificationContext W) → NeverPasses (credential_subject call) context check

module _ {W : Type 0} (platform : Platform W) (suites : Suites W) (services : Services W) where
  run_credential-fatal :
      (call : VerifyCredentialCall W) (suite : VerificationSuite W) (check : VerificationCheck W)
      (w : W)
      → Memᴰ suite (credential_suites platform suites services call)
      → Blocks services call suite check
      → any is_fatal_failure (run_credential platform suites services call w).0 ≡ true
  unfolding run_credential
  run_credential-fatal call suite check w m b =
      run_suites-fails_closed platform (credential_subject call) _ _ _ suite check _ m b.runs
        (b.holds _) b.member b.applies b.fatal (b.never _)

  verify_parsed_credential-blocked :
      (parsed : SafeParse) (call : VerifyCredentialCall W) (suite : VerificationSuite W)
      (check : VerificationCheck W) (w : W)
      → Memᴰ suite (credential_suites platform suites services call)
      → Blocks services call suite check
      → (verify_parsed_credential platform suites services parsed call w).0.verified ≡ false
  unfolding verify_parsed_credential credential_result parse_failure_credential_result
      has_fatal_failures
  verify_parsed_credential-blocked (errors messages) call suite check w m b = refl
  verify_parsed_credential-blocked success call suite check w m b =
      rw (run_credential-fatal call suite check w m b)

  -- A credential is not verified if one of the default suites, or of the queued ones, that the phases
  -- admit and whose predicate holds, has a fatal check that applies to credentials and that, in every context and
  -- world, fails or throws: an earlier check's halt, a queued suite or a phase filter that admits the
  -- suite cannot hide it.
  pub verify_credential-fails_closed :
      (call : VerifyCredentialCall W) (suite : VerificationSuite W) (check : VerificationCheck W)
      (w : W)
      → Memᴰ suite (credential_suites platform suites services call)
      → Blocks services call suite check
      → (verify_credential platform suites services call w).0.verified ≡ false
  unfolding verify_credential
  verify_credential-fails_closed call suite check w m b =
      verify_parsed_credential-blocked (parse_credential call.credential) call suite check _ m b
