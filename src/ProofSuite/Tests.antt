-- ===== src/ProofSuite/Tests.antt =====
-- Concrete runs of the checks on proofs and dates.
use verifier_core.Shared.{◌≤◌, false, not, ◌&&◌, none, some, ◌≡◌, refl, ◌↔◌, is_true}
use verifier_core.Json.{is_truthy}
use verifier_core.Types.{is_failure, VerificationSubject}
use verifier_core.CryptoDispatch.{document_has_proof}
use verifier_core.VcContexts.{v2, vc_version_of, first_context_entry}
use verifier_core.ProofSuite.{date_of, validity_period_check, signature_check, date_of_text}
use verifier_core.ProofSuite.Validity.{validity_period_check-window}
use verifier_core.ProofSuite.Signature.{is_skipped, signature_check-is_skipped}
use verifier_core.Samples.{platform, context, credential, subject, presentation}

abbrev unsigned : VerificationSubject
unsigned = record { verifiable_credential = none; verifiable_presentation = some presentation }

validity_period_check-window_example :
    (is_failure (validity_period_check platform subject context) ≡ false) ↔ ((5 ≤ 5) × (5 ≤ 5))
unfolding vc_version_of first_context_entry date_of date_of_text
validity_period_check-window_example =
    validity_period_check-window platform subject context credential v2 5 5 refl refl refl refl refl

signature_check-is_skipped_example : is_skipped (signature_check unsigned context 0).0 ≡ (
    is_truthy unsigned.verifiable_presentation
    && (not (document_has_proof unsigned.verifiable_presentation)
        && is_true context.unsigned_presentation))
signature_check-is_skipped_example = signature_check-is_skipped unsigned context 0
