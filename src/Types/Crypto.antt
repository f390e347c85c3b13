-- ===== src/Types/Crypto.antt =====
-- src/types/crypto-service.ts
use verifier_core.Shared.{ℕ, String, Bool, Option, List}
use verifier_core.Json.{Json}
use verifier_core.Types.Effect.{Attempt, Action}
use verifier_core.Types.Problem.{ProblemDetail, VerificationSubject}

pub data CryptoResult : Type 0 where
  accepted : (message : Option String) → CryptoResult
  refused : (problems : List ProblemDetail) (proof_verified : Option Bool) → CryptoResult

-- The loader is the documents' source, a service of another package.
abbrev pub DocumentLoader : Type 0 → Type 0
DocumentLoader W = String → Action W Json

pub record CryptoVerifyOptions (W : Type 0) : Type 0 where
  pub document_loader : DocumentLoader W
  pub challenge : Option String
  pub domain : Option String
  pub now : Option ℕ

-- `canVerify` is synchronous and may throw.
pub record CryptoService (W : Type 0) : Type 0 where
  pub can_verify : VerificationSubject → Attempt Bool
  pub verify_credential : Json → CryptoVerifyOptions W → Action W CryptoResult
  pub verify_presentation : Json → CryptoVerifyOptions W → Action W CryptoResult
