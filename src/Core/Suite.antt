-- ===== src/Core/Suite.antt =====
-- src/suites/core/index.ts: the suite of the six checks.
use verifier_core.Shared.{String, true, none, some, [], ◌∷◌}
use verifier_core.Types.{
  TextTests, done, VerificationSubject, VerificationSubjectType, verifiable_credential,
  verifiable_presentation, CheckOutcome, SuitePhase, VerificationCheck, VerificationSuite,
}
use verifier_core.Core.Checks.{
  context_check, vc_context_check, credential_id_check, proof_exists_check,
}
use verifier_core.Core.Structure.{vc_structure_check, vp_structure_check}

module _ {W : Type 0} (tests : TextTests) where
  -- A fatal check that reads the subject alone.
  abbrev pub structural :
      String
      → String
      → String
      → VerificationSubjectType
      → (VerificationSubject → CheckOutcome)
      → VerificationCheck W
  structural id name description type judge = record {
    id = id;
    name = name;
    description = some description;
    applies_to = some (type ∷ []);
    fatal = some true;
    halts = none;
    execute = λ subject context w. (done (judge subject), w);
  }

  abbrev pub core_suite : VerificationSuite W
  core_suite = record {
    id = "core";
    name = "Core Structure";
    description = some "Validates basic credential structure before cryptographic verification.";
    checks =
        structural "core.context-exists" "Context Exists"
          "Verifies that the credential has a non-empty @context property." verifiable_credential
          context_check
        ∷ structural "core.vc-context" "VC Context Present"
            "Verifies that the credential @context includes a valid Verifiable Credentials context URI."
            verifiable_credential vc_context_check
        ∷ structural "core.vc-structure" "VC Structure"
            "Verifies the credential meets the structural requirements of the VC Data Model."
            verifiable_credential (vc_structure_check tests)
        ∷ structural "core.vp-structure" "VP Structure"
            "Verifies the presentation meets the structural requirements of the VC Data Model."
            verifiable_presentation (vp_structure_check tests)
        ∷ structural "core.credential-id" "Credential ID Valid"
            "Verifies that the credential ID, if present, is a valid URL." verifiable_credential
            (credential_id_check tests)
        ∷ structural "core.proof-exists" "Proof Exists"
            "Verifies that the credential has a proof property." verifiable_credential
            proof_exists_check
        ∷ [];
    applies = none;
    phase = some SuitePhase.cryptographic;
  }
