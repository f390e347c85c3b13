-- ===== src/Verifier/Verify/CoreChecks.antt =====
-- src/verifier.ts with src/suites/core: what a verified credential has passed.
use verifier_core.Shared.{
  String, Bool, true, not, ◌&&◌, Option, some, List, ◌≡◌, refl, sym, ◌∙◌, ap, arith, Bool-cases,
  inl, inr,
}
use mathlib.Core.List.{Memᴰ}
use verifier_core.Json.{Json, property}
use verifier_core.Types.{
  Platform, TextTests, VerificationSubject, verifiable_credential, ProblemDetail, Payload,
  CheckOutcome, success, failure, skipped, is_success, is_failure, done,
}
use verifier_core.VcContexts.{includes_vc_context}
use verifier_core.RunSuites.{suite_runs_in_phases, evaluate_applies, applies_to_subject}
use verifier_core.Verifier.{Suites, Services, VerifyCredentialCall, or_option, expand_phases}
use verifier_core.Verifier.Verify.{verify_credential}
use verifier_core.Verifier.Verify.FailClosed.{credential_subject, verify_credential-fails_closed}
use verifier_core.Core.Checks.{
  is_nonempty_context, context_check, vc_context_check, credential_id_check, proof_exists_check,
}
use verifier_core.Core.Checks.Verdicts.{
  id_fits, proof_fits, context_check-is_success, vc_context_check-is_success,
  credential_id_check-is_success, proof_exists_check-is_success, Decides, context_check-Decides,
  vc_context_check-Decides, proof_exists_check-Decides, credential_id_check-Decides,
}
use verifier_core.Core.Structure.{vc_structure_check}
use verifier_core.Core.Conforms.{credential_conforms, conforming}
use verifier_core.Core.Structure.Conformance.{
  vc_structure_check-is_success, vc_structure_check-Decides,
}
use verifier_core.Core.Suite.{structural, core_suite}

-- What the core suite requires of a credential.
pub record IsWellFormed (tests : TextTests) (credential : Json) : Type 0 where
  pub context : is_nonempty_context (property "@context" credential) ≡ true
  pub vc_context : includes_vc_context (property "@context" credential) ≡ true
  pub structure : conforming (credential_conforms tests) (some credential) ≡ true
  pub id : id_fits tests (property "id" credential) ≡ true
  pub proof : proof_fits (property "proof" credential) ≡ true

-- The suites with the core suite of the source in its place.
abbrev with_core : {W : Type 0} → TextTests → Suites W → Suites W
with_core tests suites = record suites { core = core_suite tests }

failure_of :
    (o : CheckOutcome)
    → is_failure o ≡ true
    → (problems : List ProblemDetail) × (payload : Option Payload) × (o ≡ failure problems payload)
failure_of (failure problems payload) h = (problems, payload, refl)
failure_of (success message payload) h = ground arith
failure_of (skipped reason code halted_by) h = ground arith

second : (a b : Bool) → (a && b) ≡ true → b ≡ true
second a b h = ground arith

module _ {W : Type 0} (platform : Platform W) (tests : TextTests) (suites : Suites W)
    (services : Services W) (call : VerifyCredentialCall W) (w : W)
    (runs : suite_runs_in_phases
        (core_suite {W = W} tests)
        (expand_phases (or_option call.phases services.phases))
      ≡ true)
    (verified : (verify_credential platform (with_core tests suites) services call w).0.verified
      ≡ true) where
  passes :
      (id name description : String) (judge : VerificationSubject → CheckOutcome)
      → Memᴰ
          (structural {W = W} tests id name description verifiable_credential judge)
          (core_suite {W = W} tests).checks
      → Decides (judge (credential_subject call))
      → is_success (judge (credential_subject call)) ≡ true
  unfolding evaluate_applies applies_to_subject
  passes id name description judge m decides =
      elim (Bool-cases (is_success (judge (credential_subject call)))) [
        | inl t ↦ t
        | inr f ↦
            let refused =
              verify_credential-fails_closed platform (with_core tests suites) services call
                (core_suite {W = W} tests)
                (structural {W = W} tests id name description verifiable_credential judge) w
                (Memᴰ.head refl)
                (record {
                  runs = runs;
                  holds = λ context. refl;
                  member = m;
                  applies = refl;
                  fatal = refl;
                  never = λ context u.
                      let (problems, payload, e) =
                        failure_of (judge (credential_subject call)) (decides ∙ ap not f) in
                      inr (problems, payload, ap done e);
                }) in
            ground (arith, refused, verified)
      ]

  -- A credential that is verified, with the core suite of the source and phases that admit it, has a context
  -- that is not empty and names a VC context, conforms to the data model, has an `id` that is absent, null or a
  -- URL, and has a proof.
  pub verify_credential-IsWellFormed : IsWellFormed tests call.credential
  verify_credential-IsWellFormed = record {
    context = second _ _ (
        second _ _ (
          sym (context_check-is_success subject)
          ∙ passes _ _ _ context_check (Memᴰ.head refl) (context_check-Decides subject)));
    vc_context = second _ _ (
        sym (vc_context_check-is_success subject)
        ∙ passes _ _ _ vc_context_check (Memᴰ.tail (Memᴰ.head refl))
            (vc_context_check-Decides subject));
    structure =
        sym (vc_structure_check-is_success tests subject)
        ∙ passes _ _ _ (vc_structure_check tests) (Memᴰ.tail (Memᴰ.tail (Memᴰ.head refl)))
            (vc_structure_check-Decides tests subject);
    id = second _ _ (
        sym (credential_id_check-is_success tests subject)
        ∙ passes _ _ _ (credential_id_check tests)
            (Memᴰ.tail (Memᴰ.tail (Memᴰ.tail (Memᴰ.tail (Memᴰ.head refl)))))
            (credential_id_check-Decides tests subject));
    proof = second _ _ (
        sym (proof_exists_check-is_success subject)
        ∙ passes _ _ _ proof_exists_check
            (Memᴰ.tail (Memᴰ.tail (Memᴰ.tail (Memᴰ.tail (Memᴰ.tail (Memᴰ.head refl))))))
            (proof_exists_check-Decides subject));
  }
    where
      subject : VerificationSubject
      subject = credential_subject call
