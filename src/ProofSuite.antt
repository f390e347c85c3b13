-- ===== src/ProofSuite.antt =====
-- src/suites/proof/signature-check.ts and validity-period-check.ts, with src/util/vc-contexts.ts and
-- the problem of src/util/vc-date-messages.ts. The signature check starts its proof run anew, so it
-- dispatches the proof set itself; the memo that later checks read is left out.
pub mod Signature
pub mod Validity
mod Tests
use verifier_core.Shared.{
  ℕ, String, Bool, true, false, not, ◌&&◌, Option, none, some, List, [], ◌∷◌, ◌++◌, ◌<>◌, ◌==◌,
  if◌then◌else◌, is_true, or_else, ltb,
}
use verifier_core.Json.{Json, null, arr, str, items, property, is_truthy}
use verifier_core.Types.{
  Platform, ProblemDetail, problem, VerificationSubject, CryptoVerifyOptions, VerificationContext,
  CheckOutcome, success, failure, skipped,
}
use verifier_core.Types.ProblemTypes
use verifier_core.VcContexts.{VcVersion, v1, v2, vc_version_of}
use verifier_core.CryptoDispatch.{
  CryptoDispatchResult, ProofSetDispatchResult, document_has_proof, dispatch_proof_set_verification,
}

abbrev proof_failure : String → String → CheckOutcome
proof_failure title detail =
    failure (problem ProblemTypes.proof_verification_error title detail ∷ []) none

abbrev no_content : CheckOutcome
no_content =
    proof_failure "No Verifiable Content"
      "No verifiable credential or presentation found in subject."

abbrev no_applicable_service : CheckOutcome
no_applicable_service =
    proof_failure "No Applicable Crypto Service"
      "No registered crypto service can verify this subject (check canVerify / cryptoServices)."

abbrev no_proof : CheckOutcome
no_proof = proof_failure "No Proof" "Subject has no proof to verify."

abbrev presentation_not_signed : CheckOutcome
presentation_not_signed =
    proof_failure "Presentation Not Signed"
      "The presentation has no proof. Pass unsignedPresentation: true to accept an unsigned presentation."

abbrev unsigned_presentation_accepted : CheckOutcome
unsigned_presentation_accepted =
    skipped "Presentation is unsigned; accepted because unsignedPresentation is set."
      (some "unsigned-presentation") none

-- The outcome that a missing proof decides, `none` where there is a proof to verify.
pub without_proof : VerificationSubject → Option Bool → Option CheckOutcome
without_proof subject unsigned_presentation =
    if not (is_truthy subject.verifiable_credential)
      && not (is_truthy subject.verifiable_presentation)
    then some no_content
    else if is_truthy subject.verifiable_presentation
    then if document_has_proof subject.verifiable_presentation
      then none
      else if is_true unsigned_presentation
      then some unsigned_presentation_accepted
      else some presentation_not_signed
    else if document_has_proof subject.verifiable_credential
    then none
    else some no_proof

-- The `switch` on the combined result.
pub signature_outcome : CryptoDispatchResult → CheckOutcome
signature_outcome (CryptoDispatchResult.verified message) =
    success (or_else message "Signature verified successfully.") none
signature_outcome (CryptoDispatchResult.rejected problems true) =
    success "Signature verified successfully." none
signature_outcome (CryptoDispatchResult.rejected problems false) = failure problems none
signature_outcome CryptoDispatchResult.no_service = no_applicable_service
signature_outcome (CryptoDispatchResult.threw error message) =
    proof_failure "Verification Error" message

module _ {W : Type 0} where
  abbrev pub verify_options : VerificationContext W → CryptoVerifyOptions W
  verify_options context = record {
    document_loader = context.document_loader;
    challenge = context.challenge;
    domain = context.domain;
    now = some context.now;
  }

  -- `signatureCheck.execute`
  pub signature_check : VerificationSubject → VerificationContext W → W → CheckOutcome × W
  signature_check subject context w = elim (without_proof subject context.unsigned_presentation) [
    | some outcome ↦ (outcome, w)
    | none ↦
        let (dispatched, w') =
          dispatch_proof_set_verification context.crypto_services subject (verify_options context)
            w in
        (signature_outcome dispatched.combined, w')
  ]

abbrev pub start_property : VcVersion → String
start_property v1 = "issuanceDate"
start_property v2 = "validFrom"

abbrev pub end_property : VcVersion → String
end_property v1 = "expirationDate"
end_property v2 = "validUntil"

-- `dateOf`: absent (`undefined`), not a date (`null`), or an instant
pub data DateOf : Type 0 where
  absent unparseable : DateOf
  at : ℕ → DateOf

-- `end !== undefined && now > end`
abbrev pub has_ended : DateOf → ℕ → Bool
has_ended (at end) now = ltb end now
has_ended _ now = false

-- `start !== undefined && now < start`
abbrev pub has_not_started : DateOf → ℕ → Bool
has_not_started (at start) now = ltb now start
has_not_started _ now = false

abbrev not_a_date : String → CheckOutcome
not_a_date name =
    skipped (name <> " is not a date, so the validity period cannot be judged.")
      (some "unparseable-date") none

module _ {W : Type 0} (platform : Platform W) where
  date_of_text : Option ℕ → DateOf
  date_of_text none = unparseable
  date_of_text (some instant) = at instant

  pub date_of : Option Json → DateOf
  unfolding date_of_text
  date_of none = absent
  date_of (some (str s)) = date_of_text (platform.parse_date s)
  date_of (some _) = unparseable

  -- `String(credential[quoted])` of a property that parsed as a date
  abbrev quoted_text : Option Json → String
  quoted_text (some (str s)) = s
  quoted_text _ = ""

  -- `dateRejectionProblem` with its property given
  date_rejection_problem : Bool → Json → ℕ → String → ProblemDetail
  date_rejection_problem expired credential now name =
      let verdict = if expired then "Validity ended" else "Validity starts" in
      problem
        (if expired then ProblemTypes.credential_expired else ProblemTypes.credential_not_yet_valid)
        (if expired then "Credential Expired" else "Credential Not Yet Valid")
        (verdict
          <> " at "
          <> quoted_text (property name credential)
          <> " ("
          <> name
          <> "). Verified at "
          <> platform.to_iso_string now
          <> ".")

  abbrev problems_of : Json → VcVersion → DateOf → DateOf → ℕ → List ProblemDetail
  problems_of credential version start end now =
      (if has_ended end now
        then date_rejection_problem true credential now (end_property version) ∷ []
        else [])
      ++ (if has_not_started start now
          then date_rejection_problem false credential now (start_property version) ∷ []
          else [])

  abbrev judge_problems : List ProblemDetail → CheckOutcome
  judge_problems [] = success "The credential is within its validity period." none
  judge_problems (p ∷ ps) = failure (p ∷ ps) none

  -- The outcome for the two dates of a known version.
  pub judge_dates : Json → VcVersion → DateOf → DateOf → ℕ → CheckOutcome
  unfolding date_rejection_problem
  judge_dates credential version unparseable end now = not_a_date (start_property version)
  judge_dates credential version absent unparseable now = not_a_date (end_property version)
  judge_dates credential version (at start) unparseable now = not_a_date (end_property version)
  judge_dates credential version absent absent now = success "No validity period stated." none
  judge_dates credential version start end now =
      judge_problems (problems_of credential version start end now)

  abbrev judge_version : Json → Option VcVersion → ℕ → CheckOutcome
  judge_version credential none now =
      skipped "The first @context entry is not a VC context, so the validity period cannot be read."
        (some "unknown-vc-version") none
  judge_version credential (some version) now =
      judge_dates credential version (date_of (property (start_property version) credential))
        (date_of (property (end_property version) credential)) now

  -- `validityPeriodCheck.execute`, which reads no service
  pub validity_period_check : VerificationSubject → VerificationContext W → CheckOutcome
  validity_period_check subject context =
      if not (is_truthy subject.verifiable_credential)
      then skipped "No verifiable credential found in subject." none none
      else let credential = or_else subject.verifiable_credential null in
        judge_version credential (vc_version_of (property "@context" credential)) context.now
