-- ===== src/Status/Tests.antt =====
-- Concrete runs of the status checks. The world of these samples is the store of the status lists and a number.
use verifier_core.Shared.{
  ℕ, String, true, false, Option, none, some, [], ◌∷◌, ◌≡◌, refl, or_else, ◌&&◌, any, all, ltb,
  length,
}
use verifier_core.Registry.IssuerCheck.{credential_issuer_id}
use verifier_core.Shared.Dict.{lookup}
use verifier_core.Json.{Json, null, str, obj, field, end, bool}
use verifier_core.Types.{
  done, accepted, CryptoService, VerificationSubject, VerificationContext, is_success, is_failure,
}
use verifier_core.CryptoDispatch.{
  is_verified, dispatch_proof_set_verification, proof_document, proof_set_of,
  dispatch_proof_verification, find_service, dispatch_to, ask_service,
}
use verifier_core.Status.Lists.{ListsByUrl, StatusStore, checked_status_list_urls}
use verifier_core.Status.Bitstring.{
  CheckStatus, answered, bitstring_status_check, verify_status_list_via, dispatch_list,
}
use verifier_core.Status.Bitstring.Verdict.{expected, bitstring_status_check-verdict}
use verifier_core.Status.Bitstring.Hook.{
  is_list_verified, proves, recorded, verify_status_list_via-recorded,
}
use verifier_core.Status.ListIssuer.{status_list_issuer_check}
use verifier_core.Status.ListIssuer.Verdict.{agrees, mismatches, status_list_issuer_check-verdict}

abbrev World : Type 0
World = Option ListsByUrl × ℕ

abbrev store : StatusStore World
store = record { lists = λ w. w.0; put = λ entry w. (entry, w.1); lists-put = λ entry w. refl }

abbrev service : CryptoService World
service = record {
  can_verify = λ s. done true;
  verify_credential = λ d o w. (done (accepted none), w);
  verify_presentation = λ d o w. (done (accepted none), w);
}

abbrev context : VerificationContext World
context = record {
  document_loader = λ url w. (done null, w);
  http_get_service = none;
  cache_service = none;
  crypto_services = service ∷ [];
  registries = none;
  lookup_issuers = none;
  challenge = none;
  domain = none;
  unsigned_presentation = none;
  recognizers = none;
  time_service = none;
  now = 5;
  timing = none;
}

abbrev list_credential : Json
list_credential = obj (field "issuer" (str "did:example:a") end)

abbrev list_url : String
list_url = "https://a.example/list"

abbrev revocable : Json
revocable = obj (
    field "issuer" (str "did:example:a") (
      field "credentialStatus"
        (obj (
          field "type" (str "BitstringStatusListEntry") (
            field "statusPurpose" (str "revocation")
              (field "statusListCredential" (str list_url) end))))
        end))

abbrev subject : VerificationSubject
subject = record { verifiable_credential = some revocable; verifiable_presentation = none }

-- A library that finds the bit of the only entry clear.
abbrev clear : CheckStatus World
clear credential document_loader purposes hook match_issuers w =
    let (answer, w') = hook list_credential document_loader list_url w in
    (
      answered none (some (record { status = some (bool false); credential_status = none } ∷ [])),
      w',
    )

bitstring_status_check-verdict_example :
    let outcome = (bitstring_status_check clear store subject context (none, 0)).0 in
    let (succeeds, fails) = expected clear store subject context (none, 0) in
    (is_success outcome ≡ succeeds) × (is_failure outcome ≡ fails)
bitstring_status_check-verdict_example =
    bitstring_status_check-verdict clear store subject context (none, 0)

verify_status_list_via-recorded_example :
    let dispatched =
      (dispatch_list store context list_credential context.document_loader (some [], 0)).0 in
    let (answer, w') =
      verify_status_list_via store context list_credential context.document_loader list_url
        (some [], 0) in
    (is_list_verified answer ≡ is_verified dispatched)
    × (lookup list_url (or_else (store.lists w') [])
        ≡ recorded (proves dispatched) list_url list_credential [] list_url)
unfolding dispatch_proof_set_verification proof_document proof_set_of dispatch_proof_verification
    find_service dispatch_to ask_service
verify_status_list_via-recorded_example =
    verify_status_list_via-recorded store context list_credential context.document_loader list_url
      list_url [] (some [], 0) refl

status_list_issuer_check-verdict_example :
    let w : World = (some ((list_url, list_credential) ∷ []), 0) in
    let outcome = (status_list_issuer_check store subject w).0 in
    let urls = checked_status_list_urls revocable in
    let issuer = credential_issuer_id revocable in
    (is_failure outcome ≡ (true && any (mismatches issuer ((list_url, list_credential) ∷ [])) urls))
    × (is_success outcome ≡ (
        true
        && (ltb 0 (length urls) && all (agrees issuer ((list_url, list_credential) ∷ [])) urls)))
status_list_issuer_check-verdict_example =
    status_list_issuer_check-verdict store subject (some ((list_url, list_credential) ∷ []), 0)
