-- ===== src/ProofSuite/Signature.antt =====
-- src/suites/proof/signature-check.ts: what a success and a skip rest on.
use verifier_core.Shared.{
  if◌then◌else◌, ◌&&◌, Bool, true, false, not, Option, none, some, ◌≡◌, refl, ◌∙◌, ◌||◌, List, [],
  ◌∷◌, any, inl, inr, arith, is_true, Option-cases,
}
use verifier_core.Json.{is_truthy}
use verifier_core.Types.{VerificationSubject, VerificationContext, CheckOutcome, skipped}
use verifier_core.CryptoDispatch.Combine.{Kind}
use verifier_core.CryptoDispatch.{
  CryptoDispatchResult, ProofOutcome, ProofSetDispatchResult, is_failing, is_threw,
  is_verified_but_rejected, is_verified, dispatch_proof_set_verification, document_has_proof,
}
use verifier_core.ProofSuite.{without_proof, signature_outcome, signature_check, verify_options}

abbrev pub is_skipped : CheckOutcome → Bool
is_skipped (skipped _ _ _) = true
is_skipped _ = false

-- A proof was verified: the combined result is verified, or rejected for another reason.
abbrev has_verified : CryptoDispatchResult → Bool
has_verified (CryptoDispatchResult.verified _) = true
has_verified (CryptoDispatchResult.rejected _ some_verified) = some_verified
has_verified _ = false

-- What the outcomes of a proof set come to: none failed, none threw, and one verified, if only to be rejected.
abbrev set_verified : List ProofOutcome → Bool
set_verified os =
    not (any is_failing os)
    && (not (any (λ o. is_threw o.result) os)
        && (any is_verified_but_rejected os || any (λ o. is_verified o.result) os))

-- The verdict on a document's proofs: of a set the outcomes decide, of a proof on its own its result.
abbrev pub proofs_verified : ProofSetDispatchResult → Bool
proofs_verified dispatched = elim dispatched.proofs [
  | [] ↦ has_verified dispatched.combined
  | o ∷ os ↦ set_verified (o ∷ os)
]

has_verified_kind : Kind → Bool
has_verified_kind Kind.verified = true
has_verified_kind (Kind.rejected proof_verified) = proof_verified
has_verified_kind _ = false

-- What a set comes to by its outcomes is what its combined result says.
record IsDecided (dispatched : ProofSetDispatchResult) : Type 0 where
  decided : has_verified dispatched.combined ≡ proofs_verified dispatched

signature_outcome-is_skipped : (r : CryptoDispatchResult) → is_skipped (signature_outcome r) ≡ false
unfolding signature_outcome
signature_outcome-is_skipped (CryptoDispatchResult.verified m) = refl
signature_outcome-is_skipped (CryptoDispatchResult.rejected ps true) = refl
signature_outcome-is_skipped (CryptoDispatchResult.rejected ps false) = refl
signature_outcome-is_skipped CryptoDispatchResult.no_service = refl
signature_outcome-is_skipped (CryptoDispatchResult.threw e m) = refl

-- The subject's document has a proof: the presentation's, where there is one.
abbrev pub has_proof : VerificationSubject → Bool
has_proof subject =
    if is_truthy subject.verifiable_presentation
    then document_has_proof subject.verifiable_presentation
    else is_truthy subject.verifiable_credential && document_has_proof subject.verifiable_credential

abbrev none_or : (CheckOutcome → Bool) → Bool → Option CheckOutcome → Bool
none_or p b none = b
none_or p b (some o) = p o

without_proof-is_skipped :
    (subject : VerificationSubject) (flag : Option Bool)
    → none_or is_skipped false (without_proof subject flag) ≡ (
        is_truthy subject.verifiable_presentation
        && (not (document_has_proof subject.verifiable_presentation) && is_true flag))
unfolding without_proof
without_proof-is_skipped subject flag = ground arith

module _ {W : Type 0} where
  answer : VerificationSubject → VerificationContext W → W → CryptoDispatchResult
  answer subject context w =
      (dispatch_proof_set_verification context.crypto_services subject (verify_options context)
        w).0.combined

  signature_check-without_proof :
      (p : CheckOutcome → Bool) (b : Bool) (subject : VerificationSubject)
      (context : VerificationContext W) (w : W)
      → p (signature_outcome (answer subject context w)) ≡ b
      → p (signature_check subject context w).0
        ≡ none_or p b (without_proof subject context.unsigned_presentation)
  unfolding signature_check answer
  signature_check-without_proof p b subject context w h =
      elim (Option-cases (without_proof subject context.unsigned_presentation)) [
        | inl e ↦ rw (e, signature_check) h
        | inr (o, e) ↦ rw (e, signature_check) refl
      ]

  -- The signature check is skipped exactly when the subject has a presentation without a proof and the caller
  -- accepts an unsigned presentation.
  pub signature_check-is_skipped :
      (subject : VerificationSubject) (context : VerificationContext W) (w : W)
      → is_skipped (signature_check subject context w).0 ≡ (
          is_truthy subject.verifiable_presentation
          && (not (document_has_proof subject.verifiable_presentation)
              && is_true context.unsigned_presentation))
  signature_check-is_skipped subject context w =
      signature_check-without_proof is_skipped _ subject context w (signature_outcome-is_skipped _)
      ∙ without_proof-is_skipped subject context.unsigned_presentation
