-- ===== src/CryptoDispatch/Unsupported.antt =====
-- src/suites/proof/unsupported-proofs-check.ts: the outcome for a verified proof set, which the proof
-- suite's memo hands over from the signature check.
use verifier_core.Shared.{
  true, false, not, ◌&&◌, ◌||◌, none, List, [], ◌∷◌, ◌++◌, ◌≡◌, refl, ◌∙◌, sym, ap, arith,
  if◌then◌else◌, filter, flat_map, map, any, has_some, all, Bool-cases, inl, inr,
}
use verifier_core.Types.{
  ProblemDetail, CheckOutcome, success, failure, skipped, is_failure, VerificationSubject,
}
use verifier_core.CryptoDispatch.{
  CryptoDispatchResult, ProofOutcome, ProofSetDispatchResult, is_unsupported_proof, is_verified,
  problems_of_proof, proof_problems, document_has_proof, proof_document, combine_proof_outcomes,
}
use verifier_core.CryptoDispatch.Combine.{Kind, kind_of, combine_proof_outcomes-verified}

abbrev judge_problems : List ProblemDetail → CheckOutcome
judge_problems [] = success "Every proof was checked." none
judge_problems (p ∷ ps) = failure (p ∷ ps) none

-- `unsupportedProofsCheck.execute`, given what `verifyProofSet` returns
unfoldable pub unsupported_proofs_check :
    VerificationSubject → ProofSetDispatchResult → CheckOutcome
unsupported_proofs_check subject verified =
    if not (document_has_proof (proof_document subject))
    then skipped "The document has no proof." none none
    else judge_problems
        (flat_map problems_of_proof (filter (λ o. is_unsupported_proof o.result) verified.proofs))

has_some-append {ℓ} :
    {A : Type ℓ} (xs ys : List A) → has_some (xs ++ ys) ≡ (has_some xs || has_some ys)
has_some-append [] ys = refl
has_some-append (x ∷ xs) ys = refl

has_some-map {ℓ κ} :
    {A : Type ℓ} {B : Type κ} (f : A → B) (xs : List A) → has_some (map f xs) ≡ has_some xs
has_some-map f [] = refl
has_some-map f (x ∷ xs) = refl

has_some-proof_problems :
    (r : CryptoDispatchResult) → is_unsupported_proof r ≡ true → has_some (proof_problems r) ≡ true
unfolding is_unsupported_proof proof_problems
has_some-proof_problems CryptoDispatchResult.no_service h = refl
has_some-proof_problems (CryptoDispatchResult.rejected [] v) h = absurd (ground arith)
has_some-proof_problems (CryptoDispatchResult.rejected (p ∷ ps) v) h = refl
has_some-proof_problems (CryptoDispatchResult.verified m) h = absurd (cc)
has_some-proof_problems (CryptoDispatchResult.threw e m) h = absurd (cc)

-- An unsupported proof has a problem to report.
has_some-problems_of_proof :
    (o : ProofOutcome)
    → is_unsupported_proof o.result ≡ true
    → has_some (problems_of_proof o) ≡ true
unfolding problems_of_proof
has_some-problems_of_proof o h =
    has_some-map _ (proof_problems o.result) ∙ has_some-proof_problems o.result h

has_some-unsupported :
    (os : List ProofOutcome)
    → has_some (flat_map problems_of_proof (filter (λ o. is_unsupported_proof o.result) os))
      ≡ any (λ o. is_unsupported_proof o.result) os
has_some-unsupported [] = refl
has_some-unsupported (o ∷ os) = elim (Bool-cases (is_unsupported_proof o.result)) [
  | inl e ↦ rw (e, has_some-append, has_some-problems_of_proof o e)
  | inr e ↦ rw (e, has_some-unsupported os)
]

judge_problems-is_failure : (ps : List ProblemDetail) → is_failure (judge_problems ps) ≡ has_some ps
judge_problems-is_failure [] = refl
judge_problems-is_failure (p ∷ ps) = refl

-- The check fails exactly when the document has a proof and some proof of the set is unsupported.
pub unsupported_proofs_check-is_failure :
    (subject : VerificationSubject) (verified : ProofSetDispatchResult)
    → is_failure (unsupported_proofs_check subject verified) ≡ (
        document_has_proof (proof_document subject)
        && any (λ o. is_unsupported_proof o.result) verified.proofs)
unfolding unsupported_proofs_check
unsupported_proofs_check-is_failure subject verified =
    elim (Bool-cases (document_has_proof (proof_document subject))) [
      | inl e ↦ rw e (judge_problems-is_failure _ ∙ has_some-unsupported verified.proofs)
      | inr e ↦ rw e
    ]

all_verified :
    (os : List ProofOutcome)
    → all (λ o. is_verified o.result || is_unsupported_proof o.result) os ≡ true
    → any (λ o. is_unsupported_proof o.result) os ≡ false
    → all (λ o. is_verified o.result) os ≡ true
all_verified [] a n = refl
all_verified (o ∷ os) a n = ground (arith, all_verified os)

-- If a proof set counts as verified and this check does not fail on a document with a proof, every proof of the
-- set is verified: the two checks together leave no proof out.
pub unsupported_proofs_check_complete :
    (subject : VerificationSubject) (proofs : List ProofOutcome)
    → document_has_proof (proof_document subject) ≡ true
    → kind_of (combine_proof_outcomes proofs) ≡ Kind.verified
    → is_failure (
        unsupported_proofs_check subject
          (record { combined = combine_proof_outcomes proofs; proofs = proofs }))
      ≡ false
    → all (λ o. is_verified o.result) proofs ≡ true
unsupported_proofs_check_complete subject proofs d k f =
    let some_unsupported = any (λ o. is_unsupported_proof o.result) proofs in
    all_verified proofs ((combine_proof_outcomes-verified proofs).0 k).1 (
      sym (ap (λ b. b && some_unsupported) d)
      ∙ sym (
          unsupported_proofs_check-is_failure subject
            (record { combined = combine_proof_outcomes proofs; proofs = proofs }))
      ∙ f)
