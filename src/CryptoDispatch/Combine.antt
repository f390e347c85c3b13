-- ===== src/CryptoDispatch/Combine.antt =====
-- src/crypto-dispatch.ts: how the results of a proof set combine.
use verifier_core.Shared.{
  Bool, true, false, not, ◌&&◌, ◌||◌, sym, ◌∙◌, List, [], ◌∷◌, if◌then◌else◌, filter, find?, any,
  all, length, ltb, ◌≡◌, refl, arith, ◌↔◌, inl, inr, Bool-cases,
}
use verifier_core.CryptoDispatch.{
  CryptoDispatchResult, ProofOutcome, is_unsupported_proof, is_verified_but_rejected, is_failing,
  is_threw, is_verified, is_no_service, rejected_with, result_or, combine_unchecked,
  combine_proof_outcomes,
}

-- What decides the outcome: the kind of a result, with the flag of a rejection.
pub data Kind : Type 0 where
  verified no_service threw : Kind
  rejected : (proof_verified : Bool) → Kind

abbrev pub kind_of : CryptoDispatchResult → Kind
kind_of (CryptoDispatchResult.verified _) = Kind.verified
kind_of (CryptoDispatchResult.rejected _ proof_verified) = Kind.rejected proof_verified
kind_of CryptoDispatchResult.no_service = Kind.no_service
kind_of (CryptoDispatchResult.threw _ _) = Kind.threw

-- The rule, by what occurs in the set: a failing proof decides, then a throw, then a proof that
-- verified and was rejected for another reason, then a verified proof; with none of these
-- nothing was checked.
abbrev pub rule : (failing threw rejected_later verified unserved : Bool) → Kind
rule true _ _ _ _ = Kind.rejected false
rule false true _ _ _ = Kind.threw
rule false false true _ _ = Kind.rejected true
rule false false false true _ = Kind.verified
rule false false false false true = Kind.no_service
rule false false false false false = Kind.rejected false

ltb-filter : {A : Type 0} (p : A → Bool) (xs : List A) → ltb 0 (length (filter p xs)) ≡ any p xs
ltb-filter p [] = ground arith
ltb-filter p (x ∷ xs) = ground (arith, ltb-filter p xs)

-- The first item of a kind decides, if there is one.
kind-result_or :
    (p : ProofOutcome → Bool) (k : Kind) (otherwise : CryptoDispatchResult)
    → ((o : ProofOutcome) → p o ≡ true → kind_of o.result ≡ k)
    → (os : List ProofOutcome)
    → kind_of (result_or (find? p os) otherwise) ≡ (if any p os then k else kind_of otherwise)
kind-result_or p k otherwise h [] = refl
kind-result_or p k otherwise h (o ∷ os) = elim (Bool-cases (p o)) [
  | inl e ↦ rw e (h o e)
  | inr e ↦ rw e (kind-result_or p k otherwise h os)
]

all-filter :
    {A : Type 0} (p q : A → Bool) (xs : List A)
    → all p (filter q xs) ≡ all (λ x. not (q x) || p x) xs
all-filter p q [] = refl
all-filter p q (x ∷ xs) = ground (arith, all-filter p q xs)

threw-kind : (o : ProofOutcome) → is_threw o.result ≡ true → kind_of o.result ≡ Kind.threw
threw-kind o e = ground arith

verified-kind : (o : ProofOutcome) → is_verified o.result ≡ true → kind_of o.result ≡ Kind.verified
verified-kind o e = ground arith

rejected-kind :
    (o : ProofOutcome) → is_verified_but_rejected o ≡ true → kind_of o.result ≡ Kind.rejected true
rejected-kind o e = ground arith

-- The kind of a proof set's outcome follows from which kinds of result occur in it, by a rule: a failing
-- proof decides, then a throw, then a proof that verified and was rejected, then a verified proof; with none
-- of these it is "no service" if no service could take any unsupported proof, and a rejection if not.
pub combine_proof_outcomes-rule :
    (os : List ProofOutcome)
    → kind_of (combine_proof_outcomes os)
      ≡ rule
          (any is_failing os)
          (any (λ o. is_threw o.result) os)
          (any is_verified_but_rejected os)
          (any (λ o. is_verified o.result) os)
          (all (λ o. not (is_unsupported_proof o.result) || is_no_service o.result) os)
unfolding combine_proof_outcomes combine_unchecked
combine_proof_outcomes-rule os =
    rw (ltb-filter is_failing os) (elim (Bool-cases (any is_failing os)) [
      | inl fails ↦ rw fails
      | inr none_fails ↦
          rw
            (
              none_fails,
              kind-result_or (λ o. is_threw o.result) Kind.threw _ threw-kind os,
              kind-result_or is_verified_but_rejected (Kind.rejected true) _ rejected-kind os,
              kind-result_or (λ o. is_verified o.result) Kind.verified _ verified-kind os,
              all-filter (λ o. is_no_service o.result) (λ o. is_unsupported_proof o.result) os,
            )
            (ground arith)
    ])

accounted :
    (r : CryptoDispatchResult)
    → (rejected_with r true
        || rejected_with r false
        || is_threw r
        || is_verified r
        || is_unsupported_proof r)
      ≡ true
unfolding is_unsupported_proof
accounted (CryptoDispatchResult.verified _) = refl
accounted (CryptoDispatchResult.rejected _ true) = refl
accounted (CryptoDispatchResult.rejected _ false) = refl
accounted CryptoDispatchResult.no_service = refl
accounted (CryptoDispatchResult.threw _ _) = refl

all-accounted :
    (os : List ProofOutcome)
    → any is_failing os ≡ false
    → any (λ o. is_threw o.result) os ≡ false
    → any is_verified_but_rejected os ≡ false
    → all (λ o. is_verified o.result || is_unsupported_proof o.result) os ≡ true
all-accounted [] f t r = refl
all-accounted (o ∷ os) f t r = ground (arith, all-accounted os, accounted o.result)

harmless :
    (r : CryptoDispatchResult)
    → (is_verified r || is_unsupported_proof r) ≡ true
    → ((not (is_unsupported_proof r) && rejected_with r false) ≡ false)
      × (is_threw r ≡ false)
      × ((not (is_unsupported_proof r) && rejected_with r true) ≡ false)
unfolding is_unsupported_proof
harmless (CryptoDispatchResult.verified _) h = (refl, refl, refl)
harmless (CryptoDispatchResult.rejected ps b) h = (ground arith, refl, ground arith)
harmless CryptoDispatchResult.no_service h = (refl, refl, refl)
harmless (CryptoDispatchResult.threw _ _) h = absurd (cc)

none_of_all :
    (os : List ProofOutcome)
    → all (λ o. is_verified o.result || is_unsupported_proof o.result) os ≡ true
    → (any is_failing os ≡ false)
      × (any (λ o. is_threw o.result) os ≡ false)
      × (any is_verified_but_rejected os ≡ false)
none_of_all [] h = (refl, refl, refl)
none_of_all (o ∷ os) h =
    let (f, t, r) = none_of_all os (ground arith) in
    let (f', t', r') = harmless o.result (ground arith) in
    (ground arith, ground arith, ground arith)

rule-verified :
    (f t r v u : Bool)
    → rule f t r v u ≡ Kind.verified
    → (f ≡ false) × (t ≡ false) × (r ≡ false) × (v ≡ true)
rule-verified f t r v u h = ground arith

-- A proof set counts as verified exactly when some proof is verified and every proof is verified or
-- unsupported: no proof of the set failed, threw, or was rejected after it verified.
pub combine_proof_outcomes-verified :
    (os : List ProofOutcome)
    → (kind_of (combine_proof_outcomes os) ≡ Kind.verified) ↔ (
        (any (λ o. is_verified o.result) os ≡ true)
        × (all (λ o. is_verified o.result || is_unsupported_proof o.result) os ≡ true))
combine_proof_outcomes-verified os = (
  λ h.
      let (f, t, r, v) = rule-verified _ _ _ _ _ (sym (combine_proof_outcomes-rule os) ∙ h) in
      (v, all-accounted os f t r),
  λ (v, h). let (f, t, r) = none_of_all os h in rw (combine_proof_outcomes-rule os, f, t, r, v),
)
