-- ===== src/CryptoDispatch/Tests.antt =====
-- Concrete proof sets.
use verifier_core.Shared.{true, not, ◌||◌, ◌&&◌, refl, none, List, [], ◌∷◌, ◌≡◌, any, all, ◌↔◌}
use verifier_core.Types.{is_failure}
use verifier_core.CryptoDispatch.Unsupported.{
  unsupported_proofs_check, unsupported_proofs_check-is_failure, unsupported_proofs_check_complete,
}
use verifier_core.CryptoDispatch.{
  document_has_proof, proof_document, CryptoDispatchResult, ProofOutcome, is_unsupported_proof,
  is_verified_but_rejected, is_failing, is_threw, is_verified, is_no_service,
  combine_proof_outcomes,
}
use verifier_core.CryptoDispatch.Combine.{
  Kind, kind_of, rule, combine_proof_outcomes-rule, combine_proof_outcomes-verified,
}
use verifier_core.Samples.{subject}

-- One verified proof, and one that no service knows.
abbrev outcomes : List ProofOutcome
outcomes =
    record { position = 1; total = 2; label = "a"; result = CryptoDispatchResult.verified none }
    ∷ record { position = 2; total = 2; label = "b"; result = CryptoDispatchResult.no_service }
    ∷ []

combine_proof_outcomes-rule_example :
    kind_of (combine_proof_outcomes outcomes)
    ≡ rule
        (any is_failing outcomes)
        (any (λ o. is_threw o.result) outcomes)
        (any is_verified_but_rejected outcomes)
        (any (λ o. is_verified o.result) outcomes)
        (all (λ o. not (is_unsupported_proof o.result) || is_no_service o.result) outcomes)
combine_proof_outcomes-rule_example = combine_proof_outcomes-rule outcomes

combine_proof_outcomes-verified_example :
    (kind_of (combine_proof_outcomes outcomes) ≡ Kind.verified) ↔ (
      (any (λ o. is_verified o.result) outcomes ≡ true)
      × (all (λ o. is_verified o.result || is_unsupported_proof o.result) outcomes ≡ true))
combine_proof_outcomes-verified_example = combine_proof_outcomes-verified outcomes

-- Two verified proofs.
abbrev verified_outcomes : List ProofOutcome
verified_outcomes =
    record { position = 1; total = 2; label = "a"; result = CryptoDispatchResult.verified none }
    ∷ record { position = 2; total = 2; label = "b"; result = CryptoDispatchResult.verified none }
    ∷ []

unsupported_proofs_check-is_failure_example :
    is_failure (
      unsupported_proofs_check subject
        (record { combined = combine_proof_outcomes outcomes; proofs = outcomes }))
    ≡ (document_has_proof (proof_document subject)
        && any (λ o. is_unsupported_proof o.result) outcomes)
unsupported_proofs_check-is_failure_example =
    unsupported_proofs_check-is_failure subject
      (record { combined = combine_proof_outcomes outcomes; proofs = outcomes })

unsupported_proofs_check_complete_example : all (λ o. is_verified o.result) verified_outcomes ≡ true
unfolding document_has_proof proof_document combine_proof_outcomes unsupported_proofs_check
    is_unsupported_proof
unsupported_proofs_check_complete_example =
    unsupported_proofs_check_complete subject verified_outcomes refl refl refl
