-- ===== src/Types/Result.antt =====
-- src/types/suite-summary.ts, src/types/result.ts
use verifier_core.Shared.{ℕ, String, Bool, Option, List}
use verifier_core.Json.{Json}
use verifier_core.Types.Problem.{TaskTiming}
use verifier_core.Types.Check.{CheckResult, SuitePhase}

pub data SuiteStatus : Type 0 where
  success failure skipped mixed : SuiteStatus

pub record Counts : Type 0 where
  pub passed : ℕ
  pub failed : ℕ
  pub skipped : ℕ

-- `phase` is `none` for the phase 'unknown'.
pub record SuiteSummary : Type 0 where
  pub id : String
  pub phase : Option SuitePhase
  pub suite : String
  pub status : SuiteStatus
  pub verified : Bool
  pub message : String
  pub counts : Counts
  pub fatal_failure_at : Option String
  pub timing : Option TaskTiming

pub record CredentialVerificationResult : Type 0 where
  pub verified : Bool
  pub verifiable_credential : Json
  pub normalized_verifiable_credential : Option Json
  pub recognized_profile : Option String
  pub results : List CheckResult
  pub summary : List SuiteSummary
  pub partial : Option Bool
  pub timing : Option TaskTiming

pub record PresentationVerificationResult : Type 0 where
  pub verified : Bool
  pub verifiable_presentation : Json
  pub presentation_results : List CheckResult
  pub credential_results : List CredentialVerificationResult
  pub summary : List SuiteSummary
  pub partial : Option Bool
  pub timing : Option TaskTiming
