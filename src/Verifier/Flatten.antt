-- ===== src/Verifier/Flatten.antt =====
-- src/flatten-presentation-results.ts
use verifier_core.Shared.{ℕ, ◌+◌, List, [], ◌∷◌, ◌++◌, map}
use verifier_core.Types.{CheckResult, CredentialVerificationResult, PresentationVerificationResult}

pub data FlattenedCheckResult : Type 0 where
  of_presentation : (result : CheckResult) → FlattenedCheckResult
  of_credential : (credential_index : ℕ) (result : CheckResult) → FlattenedCheckResult

-- The results of the embedded credentials, from an index on.
abbrev of_credentials : ℕ → List CredentialVerificationResult → List FlattenedCheckResult
of_credentials i [] = []
of_credentials i (c ∷ cs) = map (of_credential i) c.results ++ of_credentials (i + 1) cs

abbrev flatten_presentation_results : PresentationVerificationResult → List FlattenedCheckResult
flatten_presentation_results result =
    map of_presentation result.presentation_results ++ of_credentials 0 result.credential_results
