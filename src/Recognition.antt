-- ===== src/Recognition.antt =====
-- src/suites/recognition and src/suites/trust: the checks that add to what is known of a credential. Neither is
-- fatal.
use verifier_core.Shared.{
  ℕ, String, true, false, not, Option, none, some, List, [], ◌∷◌, ◌<>◌, length, nat_eq, ltb,
  decimal, or_else, if◌then◌else◌,
}
use verifier_core.Json.{Json, Items, null, arr, obj, field, end, items, is_truthy}
use verifier_core.Types.{
  Attempt, done, thrown, Action, ◌>>=◌, pure, RecognitionResult, recognized, malformed,
  RecognizerSpec, VerificationSubject, verifiable_credential, VerificationContext, Payload,
  CheckOutcome, success, failure, skipped, SuitePhase, VerificationSuite,
}
use verifier_core.Registry.IssuerCheck.{credential_issuer_id}

judge_recognition : Attempt RecognitionResult → Attempt CheckOutcome
judge_recognition (thrown error) = thrown error
judge_recognition (done (recognized profile normalized)) = done (
    success ("recognized as " <> profile)
      (some (Payload.recognition (recognized profile normalized))))
judge_recognition (done (malformed profile problems)) = done (failure problems none)

-- The loop over the recognizers: the first whose predicate holds parses the credential.
try_recognizers : Option Json → ℕ → List RecognizerSpec → Attempt CheckOutcome
unfolding judge_recognition
try_recognizers credential now [] = done (skipped "no recognizer matched" none none)
try_recognizers credential now (recognizer ∷ recognizers) =
    let rest = try_recognizers credential now recognizers in
    elim (recognizer.applies credential now) [
      | thrown error ↦ thrown error
      | done false ↦ rest
      | done true ↦ judge_recognition (recognizer.parse credential)
    ]

module _ {W : Type 0} where
  -- `recognitionProfileCheck.execute`
  recognition_profile_check : VerificationSubject → VerificationContext W → Action W CheckOutcome
  unfolding try_recognizers
  recognition_profile_check subject context w =
      let recognizers = or_else context.recognizers [] in
      if nat_eq (length recognizers) 0
      then (done (skipped "no recognizers configured" none none), w)
      else (try_recognizers subject.verifiable_credential context.now recognizers, w)

  abbrev recognition_suite : VerificationSuite W
  recognition_suite = record {
    id = "recognition";
    name = "Credential Recognition";
    description =
        some
          "Pluggable credential recognition; produces normalized credential form for downstream consumption.";
    checks =
        record {
          id = "recognition.profile";
          name = "Credential Recognition";
          description =
              some
                "Selects the first matching recognizer and surfaces its normalized credential form.";
          applies_to = some (verifiable_credential ∷ []);
          fatal = some false;
          halts = none;
          execute = recognition_profile_check;
        }
        ∷ [];
    applies = none;
    phase = some SuitePhase.recognition;
  }

-- The lookup gives the array `matchingIssuers`.
module _ {W : Type 0} (lookup_did : String → Action W Items) where
  issuer_details : Items → CheckOutcome
  issuer_details matching_issuers =
      let count = length (items matching_issuers) in
      success
        (if ltb 0 count
          then "Issuer found in "
            <> decimal count
            <> " registr"
            <> (if nat_eq count 1 then "y" else "ies")
            <> "."
          else "Issuer not found in any configured registry.")
        (some (Payload.other (obj (field "matchingIssuers" (arr matching_issuers) end))))

  look_up_details : Option String → Action W CheckOutcome
  unfolding issuer_details
  look_up_details none = pure (skipped "Credential has no issuer DID." none none)
  look_up_details (some did) =
      lookup_did did >>= (λ matching_issuers. pure (issuer_details matching_issuers))

  -- The `execute` of `createIssuerDetailsCheck(lookupDid)`.
  issuer_details_check : VerificationSubject → Action W CheckOutcome
  unfolding look_up_details
  issuer_details_check subject =
      if not (is_truthy subject.verifiable_credential)
      then pure (skipped "No verifiable credential found in subject." none none)
      else look_up_details (credential_issuer_id (or_else subject.verifiable_credential null))

  -- `createIssuerDetailsSuite({ lookupDid })`
  abbrev create_issuer_details_suite : VerificationSuite W
  create_issuer_details_suite = record {
    id = "trust";
    name = "Issuer Trust";
    description = some "Surfaces rich issuer registry metadata.";
    checks =
        record {
          id = "trust.issuer-details";
          name = "Issuer Registry Details";
          description =
              some
                "Looks up rich issuer metadata for the credential issuer in the configured registries.";
          applies_to = some (verifiable_credential ∷ []);
          fatal = some false;
          halts = none;
          execute = λ subject context. issuer_details_check subject;
        }
        ∷ [];
    applies = none;
    phase = some SuitePhase.trust;
  }
