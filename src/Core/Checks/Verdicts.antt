-- ===== src/Core/Checks/Verdicts.antt =====
-- What the small checks of src/suites/core accept.
use verifier_core.Shared.{
  or_else, Bool, true, false, not, ◌&&◌, Option, none, some, List, [], ◌∷◌, ◌≡◌, refl, arith,
  length, nat_eq, all, filter, ◌≤◌,
}
use verifier_core.Json.{Json, null, bool, num, arr, obj, str, items, property, is_truthy, is_object}
use verifier_core.Types.{TextTests, VerificationSubject, CheckOutcome, is_success, is_failure}
use verifier_core.CryptoDispatch.{proof_entries_of}
use verifier_core.VcContexts.{includes_vc_context}
use verifier_core.Core.Checks.{
  is_nonempty_context, credential_of, context_check, vc_context_check, judge_id,
  credential_id_check, array_length, is_mixed, proof_exists_check,
}

-- An `id` that is absent, null, or a URL.
abbrev pub id_fits : TextTests → Option Json → Bool
id_fits tests none = true
id_fits tests (some null) = true
id_fits tests (some (str id)) = tests.accepts_url id
id_fits tests (some _) = false

-- A proof: one object, or an array of objects that is not empty.
abbrev pub proof_fits : Option Json → Bool
proof_fits (some (arr vs)) = not (nat_eq (length (items vs)) 0) && all is_object (items vs)
proof_fits (some proof) = is_object proof
proof_fits none = false

-- A verdict that is not a success is a failure.
abbrev pub Decides : CheckOutcome → Type 0
Decides o = is_failure o ≡ not (is_success o)

pub context_check-is_success :
    (subject : VerificationSubject)
    → is_success (context_check subject) ≡ (
        is_truthy subject.verifiable_credential
        && (is_truthy (property "@context" (credential_of subject))
            && is_nonempty_context (property "@context" (credential_of subject))))
unfolding context_check
context_check-is_success subject = ground arith

pub vc_context_check-is_success :
    (subject : VerificationSubject)
    → is_success (vc_context_check subject) ≡ (
        is_truthy subject.verifiable_credential
        && includes_vc_context (property "@context" (credential_of subject)))
unfolding vc_context_check
vc_context_check-is_success subject = ground arith

judge_id-is_success :
    (tests : TextTests) (id : Option Json) → is_success (judge_id tests id) ≡ id_fits tests id
unfolding judge_id
judge_id-is_success tests none = refl
judge_id-is_success tests (some null) = refl
judge_id-is_success tests (some (str id)) = ground arith
judge_id-is_success tests (some (bool b)) = refl
judge_id-is_success tests (some (num n)) = refl
judge_id-is_success tests (some (arr vs)) = refl
judge_id-is_success tests (some (obj fs)) = refl

judge_id-Decides : (tests : TextTests) (id : Option Json) → Decides (judge_id tests id)
unfolding judge_id
judge_id-Decides tests none = refl
judge_id-Decides tests (some null) = refl
judge_id-Decides tests (some (str id)) = ground arith
judge_id-Decides tests (some (bool b)) = refl
judge_id-Decides tests (some (num n)) = refl
judge_id-Decides tests (some (arr vs)) = refl
judge_id-Decides tests (some (obj fs)) = refl

pub credential_id_check-is_success :
    (tests : TextTests) (subject : VerificationSubject)
    → is_success (credential_id_check tests subject) ≡ (
        is_truthy subject.verifiable_credential
        && id_fits tests (property "id" (credential_of subject)))
unfolding credential_id_check
credential_id_check-is_success tests subject =
    ground (arith, judge_id-is_success tests (property "id" (credential_of subject)))

length-filter_le : {A : Type 0} (p : A → Bool) (xs : List A) → length (filter p xs) ≤ length xs
length-filter_le p [] = omega arith
length-filter_le p (x ∷ xs) = ground (arith, length-filter_le p xs)

-- A filter that keeps the length keeps everything.
filter_keeps_all :
    {A : Type 0} (p : A → Bool) (xs : List A) → nat_eq (length (filter p xs)) (length xs) ≡ all p xs
filter_keeps_all p [] = ground arith
filter_keeps_all p (x ∷ xs) = ground (arith, filter_keeps_all p xs, length-filter_le p xs)

entries_fit :
    (proof : Option Json)
    → (not (nat_eq (length (proof_entries_of proof)) 0)
        && not (is_mixed (array_length proof) (length (proof_entries_of proof))))
      ≡ proof_fits proof
entries_fit none = refl
entries_fit (some null) = refl
entries_fit (some (bool b)) = refl
entries_fit (some (num n)) = refl
entries_fit (some (str s)) = refl
entries_fit (some (obj fs)) = refl
entries_fit (some (arr vs)) = ground (arith, filter_keeps_all is_object (items vs))

proof_verdict :
    (doc presentation : Option Json)
    → is_success (
        proof_exists_check
          (record { verifiable_credential = doc; verifiable_presentation = presentation }))
      ≡ (is_truthy doc && proof_fits (property "proof" (or_else doc null)))
unfolding proof_exists_check
proof_verdict none presentation = refl
proof_verdict (some doc) presentation = ground (arith, entries_fit (property "proof" doc))

pub proof_exists_check-is_success :
    (subject : VerificationSubject)
    → is_success (proof_exists_check subject) ≡ (
        is_truthy subject.verifiable_credential
        && proof_fits (property "proof" (credential_of subject)))
proof_exists_check-is_success subject =
    proof_verdict subject.verifiable_credential subject.verifiable_presentation

pub context_check-Decides : (subject : VerificationSubject) → Decides (context_check subject)
unfolding context_check
context_check-Decides subject = ground arith

pub vc_context_check-Decides : (subject : VerificationSubject) → Decides (vc_context_check subject)
unfolding vc_context_check
vc_context_check-Decides subject = ground arith

pub proof_exists_check-Decides :
    (subject : VerificationSubject) → Decides (proof_exists_check subject)
unfolding proof_exists_check
proof_exists_check-Decides subject = ground arith

pub credential_id_check-Decides :
    (tests : TextTests) (subject : VerificationSubject)
    → Decides (credential_id_check tests subject)
unfolding credential_id_check
credential_id_check-Decides tests subject =
    ground (arith, judge_id-Decides tests (property "id" (credential_of subject)))
