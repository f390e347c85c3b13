-- ===== src/Core/Structure/Conformance.antt =====
-- src/suites/core/vc-structure-check.ts and vp-structure-check.ts against the requirements of Core/Conforms.
use verifier_core.Shared.{String, Option, none, some, List, [], ◌∷◌, ◌≡◌, refl, ◌∙◌}
use verifier_core.Json.{Json, null, bool, num, arr, obj, str}
use verifier_core.Core.Checks.Verdicts.{Decides}
use verifier_core.Types.{TextTests, VerificationSubject, is_success}
use verifier_core.Core.Rules.{Violation, run_structure_rules, missing_subject_failure}
use verifier_core.Core.Conforms.{is_nil, credential_conforms, presentation_conforms, conforming}
use verifier_core.Core.Structure.Violations.{is_nil-vc_violations, is_nil-vp_violations}
use verifier_core.Core.Structure.{
  vc_violations, judge_credential, vc_structure_check, vp_violations, judge_presentation,
  vp_structure_check,
}

is_success-run_structure_rules :
    (title message : String) (vs : List Violation)
    → is_success (run_structure_rules title message vs) ≡ is_nil vs
unfolding run_structure_rules
is_success-run_structure_rules title message [] = refl
is_success-run_structure_rules title message (v ∷ vs) = refl

module _ (tests : TextTests) where
  judge_credential-is_success :
      (value : Option Json)
      → is_success (judge_credential tests value) ≡ conforming (credential_conforms tests) value
  unfolding judge_credential missing_subject_failure
  judge_credential-is_success (some (obj fields)) =
      is_success-run_structure_rules _ _ (vc_violations tests fields)
      ∙ is_nil-vc_violations tests fields
  judge_credential-is_success none = refl
  judge_credential-is_success (some null) = refl
  judge_credential-is_success (some (bool b)) = refl
  judge_credential-is_success (some (num n)) = refl
  judge_credential-is_success (some (str s)) = refl
  judge_credential-is_success (some (arr vs)) = refl

  -- The structure check of credentials succeeds exactly when the subject's credential is an object that conforms to
  -- the data model.
  pub vc_structure_check-is_success :
      (subject : VerificationSubject)
      → is_success (vc_structure_check tests subject)
        ≡ conforming (credential_conforms tests) subject.verifiable_credential
  unfolding vc_structure_check
  vc_structure_check-is_success subject = judge_credential-is_success subject.verifiable_credential

  judge_presentation-is_success :
      (value : Option Json)
      → is_success (judge_presentation tests value) ≡ conforming (presentation_conforms tests) value
  unfolding judge_presentation missing_subject_failure
  judge_presentation-is_success (some (obj fields)) =
      is_success-run_structure_rules _ _ (vp_violations tests fields)
      ∙ is_nil-vp_violations tests fields
  judge_presentation-is_success none = refl
  judge_presentation-is_success (some null) = refl
  judge_presentation-is_success (some (bool b)) = refl
  judge_presentation-is_success (some (num n)) = refl
  judge_presentation-is_success (some (str s)) = refl
  judge_presentation-is_success (some (arr vs)) = refl

  -- The structure check of presentations succeeds exactly when the subject's presentation is an object that
  -- conforms to the data model.
  pub vp_structure_check-is_success :
      (subject : VerificationSubject)
      → is_success (vp_structure_check tests subject)
        ≡ conforming (presentation_conforms tests) subject.verifiable_presentation
  unfolding vp_structure_check
  vp_structure_check-is_success subject =
      judge_presentation-is_success subject.verifiable_presentation

run_structure_rules-Decides :
    (title message : String) (vs : List Violation) → Decides (run_structure_rules title message vs)
unfolding run_structure_rules
run_structure_rules-Decides title message [] = refl
run_structure_rules-Decides title message (v ∷ vs) = refl

judge_credential-Decides :
    (tests : TextTests) (value : Option Json) → Decides (judge_credential tests value)
unfolding judge_credential missing_subject_failure
judge_credential-Decides tests (some (obj fields)) =
    run_structure_rules-Decides _ _ (vc_violations tests fields)
judge_credential-Decides tests none = refl
judge_credential-Decides tests (some null) = refl
judge_credential-Decides tests (some (bool b)) = refl
judge_credential-Decides tests (some (num n)) = refl
judge_credential-Decides tests (some (str s)) = refl
judge_credential-Decides tests (some (arr vs)) = refl

pub vc_structure_check-Decides :
    (tests : TextTests) (subject : VerificationSubject) → Decides (vc_structure_check tests subject)
unfolding vc_structure_check
vc_structure_check-Decides tests subject =
    judge_credential-Decides tests subject.verifiable_credential
