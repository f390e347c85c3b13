-- ===== src/Types/Check.antt =====
-- src/types/check.ts
use verifier_core.Shared.{String, Bool, true, false, ◌&&◌, is_true, Option, List}
use verifier_core.Json.{Json}
use verifier_core.Types.Effect.{Attempt, Action}
use verifier_core.Types.Problem.{
  ProblemDetail, VerificationSubject, VerificationSubjectType, TaskTiming, RecognitionResult,
}
use verifier_core.Types.Registry.{RegistryCheckPayload}
use verifier_core.Types.Context.{VerificationContext}

-- The check-specific data of an outcome, `unknown` in the source.
pub data Payload : Type 0 where
  recognition : RecognitionResult → Payload
  registry : RegistryCheckPayload → Payload
  other : Json → Payload

pub data CheckOutcome : Type 0 where
  success : (message : String) (payload : Option Payload) → CheckOutcome
  failure : (problems : List ProblemDetail) (payload : Option Payload) → CheckOutcome
  skipped : (reason : String) (code halted_by : Option String) → CheckOutcome

abbrev pub is_failure : CheckOutcome → Bool
is_failure (failure _ _) = true
is_failure _ = false

abbrev pub is_success : CheckOutcome → Bool
is_success (success _ _) = true
is_success _ = false

abbrev pub not_run_after_fatal : String
not_run_after_fatal = "NOT_RUN_AFTER_FATAL"

pub data SuitePhase : Type 0 where
  cryptographic trust recognition semantic : SuitePhase

pub record CheckResult : Type 0 where
  pub id : String
  pub suite : String
  pub outcome : CheckOutcome
  pub fatal : Option Bool
  pub halts : Option Bool
  pub timing : Option TaskTiming

pub record VerificationCheck (W : Type 0) : Type 0 where
  pub id : String
  pub name : String
  pub description : Option String
  pub applies_to : Option (List VerificationSubjectType)
  pub fatal : Option Bool
  pub halts : Option Bool
  pub execute : VerificationSubject → VerificationContext W → Action W CheckOutcome

-- `applies` is synchronous and may throw.
pub record VerificationSuite (W : Type 0) : Type 0 where
  pub id : String
  pub name : String
  pub description : Option String
  pub checks : List (VerificationCheck W)
  pub applies : Option (VerificationSubject → VerificationContext W → Attempt Bool)
  pub phase : Option SuitePhase

-- `r.fatal === true && r.outcome.status === 'failure'`: a row that counts against the subject.
abbrev pub is_fatal_failure : CheckResult → Bool
is_fatal_failure r = is_true r.fatal && is_failure r.outcome
