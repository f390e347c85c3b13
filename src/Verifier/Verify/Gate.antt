-- ===== src/Verifier/Verify/Gate.antt =====
-- src/verifier.ts: what is decided before any suite runs, and what an accepted presentation holds.
use verifier_core.Shared.{
  Bool, true, false, not, ◌&&◌, Option, none, some, List, [], ◌∷◌, ◌≡◌, refl, sym, ◌∙◌, arith, any,
  all, map, or_else,
}
use mathlib.Core.Path.{ap₂}
use verifier_core.Json.{Json}
use verifier_core.Types.{Platform, is_fatal_failure, PresentationVerificationResult, ProblemDetail}
use verifier_core.Schemas.{SafeParse, success, errors, parse_credential, parse_presentation}
use verifier_core.Verifier.{
  Suites, Services, VerifyCredentialCall, VerifyPresentationCall, invalid_challenge_options,
  extract_credentials_from,
}
use verifier_core.Verifier.Synthetic.{
  failed_presentation, parse_failure_credential_result, parse_failure_presentation_result,
}
use verifier_core.Verifier.Verify.Verdict.{verify_presentation-IsSound}
use verifier_core.Verifier.Verify.{
  credential_result, presentation_result, verify_parsed_credential, verify_credential,
  verify_credentials, verify_admitted_presentation, verify_parsed_presentation, verify_presentation,
}

accepted_parts : (a b : Bool) → (not a && b) ≡ true → (a ≡ false) × (b ≡ true)
accepted_parts a b h = ground arith

module _ {W : Type 0} (platform : Platform W) (suites : Suites W) (services : Services W) where
  verify_parsed_credential-credential :
      (parsed : SafeParse) (call : VerifyCredentialCall W) (w : W)
      → (verify_parsed_credential platform suites services parsed call w).0.verifiable_credential
        ≡ call.credential
  unfolding verify_parsed_credential credential_result parse_failure_credential_result
  verify_parsed_credential-credential (errors messages) call w = refl
  verify_parsed_credential-credential success call w = refl

  verify_credentials-credentials :
      (call : VerifyPresentationCall W) (timing : Bool) (credentials : List Json) (w : W)
      → map
          (λ r. r.verifiable_credential)
          (verify_credentials platform suites services call timing credentials w).0
        ≡ credentials
  unfolding verify_credentials verify_credential
  verify_credentials-credentials call timing [] w = refl
  verify_credentials-credentials call timing (c ∷ cs) w =
      let one : VerifyCredentialCall W = record {
        credential = c;
        additional_suites = call.additional_suites;
        registries = call.registries;
        phases = call.phases;
        timing = some timing;
      } in
      let first = verify_credential platform suites services one w in
      ap₂ (λ x xs. x ∷ xs) (verify_parsed_credential-credential (parse_credential c) one _)
        (verify_credentials-credentials call timing cs first.1)

  -- What a verified presentation has passed.
  pub record IsAccepted (call : VerifyPresentationCall W) (r : PresentationVerificationResult)
      : Type 0 where
    pub parsed : parse_presentation call.presentation ≡ success
    pub options : invalid_challenge_options call.challenge call.domain ≡ none
    pub credentials :
        map (λ c. c.verifiable_credential) r.credential_results
        ≡ or_else (extract_credentials_from call.presentation) []
    pub each : all (λ c. c.verified) r.credential_results ≡ true
    pub own : any is_fatal_failure r.presentation_results ≡ false

  verify_admitted-IsAccepted :
      (options : Option ProblemDetail) (call : VerifyPresentationCall W) (w : W)
      → let r = (verify_admitted_presentation platform suites services options call w).0 in
        r.verified ≡ true
        → (options ≡ none)
          × (map (λ c. c.verifiable_credential) r.credential_results
              ≡ or_else (extract_credentials_from call.presentation) [])
  unfolding verify_admitted_presentation failed_presentation presentation_result
  verify_admitted-IsAccepted (some p) call w h = absurd (cc)
  verify_admitted-IsAccepted none call w h = (
    refl,
    verify_credentials-credentials call _ (or_else (extract_credentials_from call.presentation) [])
        _,
  )

  verify_parsed-IsAccepted :
      (parsed : SafeParse) (call : VerifyPresentationCall W) (w : W)
      → let r = (verify_parsed_presentation platform suites services parsed call w).0 in
        r.verified ≡ true
        → (parsed ≡ success)
          × (invalid_challenge_options call.challenge call.domain ≡ none)
          × (map (λ c. c.verifiable_credential) r.credential_results
              ≡ or_else (extract_credentials_from call.presentation) [])
  unfolding verify_parsed_presentation parse_failure_presentation_result failed_presentation
  verify_parsed-IsAccepted (errors messages) call w h = absurd (cc)
  verify_parsed-IsAccepted success call w h =
      let (options, credentials) =
        verify_admitted-IsAccepted (invalid_challenge_options call.challenge call.domain) call w
          h in
      (refl, options, credentials)

  -- A presentation is verified only if it passes the gate, its challenge options are valid, no
  -- presentation-level row is a fatal failure, its results are for exactly the credentials that it embeds, in
  -- order, and each of them is verified.
  pub verify_presentation-IsAccepted :
      (call : VerifyPresentationCall W) (w : W)
      → (verify_presentation platform suites services call w).0.verified ≡ true
      → IsAccepted call (verify_presentation platform suites services call w).0
  unfolding verify_presentation
  verify_presentation-IsAccepted call w h =
      let (parsed, options, credentials) =
        verify_parsed-IsAccepted (parse_presentation call.presentation) call _ h in
      let sound = verify_presentation-IsSound platform suites services call w in
      let (own, each) = accepted_parts _ _ (sym sound.rows ∙ h) in
      record {
        parsed = parsed;
        options = options;
        credentials = credentials;
        each = each;
        own = own;
      }
