-- ===== src/Status/ListIssuer.antt =====
-- src/suites/status/list-issuer-check.ts, and the suite of src/suites/status/index.ts
pub mod Verdict
use verifier_core.Shared.{
  String, Bool, true, false, not, ◌&&◌, ◌||◌, Option, none, some, List, [], ◌∷◌, ◌==◌, ◌<>◌, length,
  nat_eq, ltb, if◌then◌else◌, or_else,
}
use verifier_core.Shared.Dict.{lookup}
use verifier_core.Json.{Json, null, is_truthy}
use verifier_core.Types.{
  done, ProblemDetail, problem, VerificationSubject, verifiable_credential, VerificationContext,
  CheckOutcome, success, failure, skipped, SuitePhase, VerificationCheck, VerificationSuite,
}
use verifier_core.Types.ProblemTypes
use verifier_core.Registry.IssuerCheck.{credential_issuer_id}
use verifier_core.Status.Lists.{
  ListsByUrl, StatusStore, checked_status_list_urls, take_verified_status_lists,
}
use verifier_core.Status.Bitstring.{CheckStatus, bitstring_status_check}

-- `listIssuer === undefined || listIssuer !== credentialIssuer`
abbrev pub differs : Option String → Option String → Bool
differs none credential_issuer = true
differs (some issuer) none = true
differs (some issuer) (some credential_issuer) = not (issuer == credential_issuer)

issuer_mismatch : String → Option String → Option String → ProblemDetail
issuer_mismatch url list_issuer credential_issuer =
    problem ProblemTypes.status_list_issuer_mismatch "Status List Issuer Mismatch" (
      "The status list "
      <> url
      <> " is issued by "
      <> or_else list_issuer "(no issuer)"
      <> ", not by the credential's issuer "
      <> or_else credential_issuer "(no issuer)"
      <> ".")

-- The problems that the loop collects, and whether a list was not recorded.
list_problems : Option String → ListsByUrl → List String → List ProblemDetail × Bool
unfolding issuer_mismatch
list_problems credential_issuer lists [] = ([], false)
list_problems credential_issuer lists (url ∷ urls) =
    let (problems, unestablished) = list_problems credential_issuer lists urls in
    elim (lookup url lists) [
      | none ↦ (problems, true)
      | some list ↦
          if differs (credential_issuer_id list) credential_issuer
          then (
            issuer_mismatch url (credential_issuer_id list) credential_issuer ∷ problems,
            unestablished,
          )
          else (problems, unestablished)
    ]

judge_lists : List ProblemDetail × Bool → CheckOutcome
judge_lists (problems, unestablished) =
    if ltb 0 (length problems)
    then failure problems none
    else if unestablished
    then skipped
        "A status list could not be loaded or its proof did not verify; status.bitstring reports why."
        (some "list-not-verified") none
    else success "Every status list is issued by the credential's issuer." none

module _ {W : Type 0} (store : StatusStore W) where
  -- `statusListIssuerCheck.execute`
  pub status_list_issuer_check : VerificationSubject → W → CheckOutcome × W
  unfolding list_problems judge_lists
  status_list_issuer_check subject w =
      let credential = or_else subject.verifiable_credential null in
      let urls = checked_status_list_urls credential in
      if not (is_truthy subject.verifiable_credential)
      then (skipped "No verifiable credential found in subject." none none, w)
      else if nat_eq (length urls) 0
      then (skipped "No status list was checked." (some "no-list-checked") none, w)
      else let (lists, w') = take_verified_status_lists store w in
        (judge_lists (list_problems (credential_issuer_id credential) lists urls), w')

module _ {W : Type 0} (check_status : CheckStatus W) (store : StatusStore W) where
  abbrev status_suite : VerificationSuite W
  status_suite = record {
    id = "status";
    name = "Credential Status";
    description = some "Checks revocation and suspension status via BitstringStatusList.";
    checks =
        record {
          id = "status.bitstring";
          name = "Bitstring Status Check";
          description = some "Checks revocation and suspension status via BitstringStatusList.";
          applies_to = some (verifiable_credential ∷ []);
          fatal = some true;
          halts = some false;
          execute = λ subject context w.
              let (outcome, w') = bitstring_status_check check_status store subject context w in
              (done outcome, w');
        }
        ∷ record {
          id = "status.list-issuer";
          name = "Status List Issuer Check";
          description = some "Reports when a status list is not issued by the credential's issuer.";
          applies_to = some (verifiable_credential ∷ []);
          fatal = some false;
          halts = none;
          execute = λ subject context w.
              let (outcome, w') = status_list_issuer_check store subject w in (done outcome, w');
        }
        ∷ [];
    applies = none;
    phase = some SuitePhase.cryptographic;
  }
