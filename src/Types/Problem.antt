-- ===== src/Types/Problem.antt =====
-- src/types/problem-detail.ts, subject.ts, timing.ts, recognition.ts
use verifier_core.Shared.{ℤ, String, Option, none, List}
use verifier_core.Json.{Json}

pub record ProblemDetail : Type 0 where
  pub type : String
  pub title : String
  pub detail : String
  -- the field `instance`
  pub instance_pointer : Option String

pub record VerificationSubject : Type 0 where
  pub verifiable_credential : Option Json
  pub verifiable_presentation : Option Json

pub data VerificationSubjectType : Type 0 where
  verifiable_credential verifiable_presentation : VerificationSubjectType

-- The optional `events` are left out: no code of the repository sets them.
pub record TaskTiming : Type 0 where
  pub started_at : String
  pub ended_at : String
  pub duration_ms : ℤ

pub data RecognitionResult : Type 0 where
  recognized : (profile : String) (normalized : Json) → RecognitionResult
  malformed : (profile : String) → List ProblemDetail → RecognitionResult

abbrev pub problem : String → String → String → ProblemDetail
problem type title detail = record {
  type = type;
  title = title;
  detail = detail;
  instance_pointer = none;
}
