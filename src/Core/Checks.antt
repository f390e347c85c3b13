-- ===== src/Core/Checks.antt =====
-- The six checks of src/suites/core, none of which reads a service.
pub mod Verdicts
use verifier_core.Shared.{
  ℕ, ◌+◌, String, Bool, true, false, not, ◌&&◌, ◌||◌, Option, none, some, List, [], ◌∷◌, ◌++◌, map,
  flat_map, length, nat_eq, ◌==◌, ◌<>◌, if◌then◌else◌, is_nonempty, or_else,
}
use verifier_core.Json.{
  Json, Fields, end, field, null, arr, obj, str, items, lookup_field, property, is_truthy,
}
use verifier_core.Types.{TextTests, VerificationSubject, CheckOutcome, success, failure, problem}
use verifier_core.Types.ProblemTypes
use verifier_core.CryptoDispatch.{proof_entries}
use verifier_core.VcContexts.{
  VcVersion, v1, v2, vc_version_of, vc_context_v1, vc_context_v2, includes_vc_context,
}
use verifier_core.Core.Pointer.{Segment, name, index, display_path}
use verifier_core.Core.Rules.{
  Violation, report_if, missing_subject_failure, run_structure_rules, is_url, is_date_time,
  check_first_context_entry, check_type_includes, as_entries, check_typed_entry,
  check_url_or_id_object,
}

abbrev rejected : String → String → String → CheckOutcome
rejected type title detail = failure (problem type title detail ∷ []) none

abbrev no_credential : String
no_credential = "No verifiable credential found in subject."

-- `isValidArray || isValidString`
abbrev pub is_nonempty_context : Option Json → Bool
is_nonempty_context (some (arr vs)) = not (nat_eq (length (items vs)) 0)
is_nonempty_context (some (str s)) = is_nonempty s
is_nonempty_context _ = false

abbrev pub credential_of : VerificationSubject → Json
credential_of subject = or_else subject.verifiable_credential null

-- `contextCheck`
unfoldable pub context_check : VerificationSubject → CheckOutcome
context_check subject =
    let context = property "@context" (credential_of subject) in
    if not (is_truthy subject.verifiable_credential)
    then rejected ProblemTypes.parsing_error "Invalid JSON-LD" no_credential
    else if not (is_truthy context)
    then rejected ProblemTypes.parsing_error "Invalid JSON-LD"
        "Credential is missing required @context property."
    else if not (is_nonempty_context context)
    then rejected ProblemTypes.parsing_error "Invalid JSON-LD"
        "Credential @context property is empty."
    else success "Credential has a valid @context property." none

-- `vcContextCheck`
unfoldable pub vc_context_check : VerificationSubject → CheckOutcome
vc_context_check subject =
    if not (is_truthy subject.verifiable_credential)
    then rejected ProblemTypes.parsing_error "No VC Context" no_credential
    else if not (includes_vc_context (property "@context" (credential_of subject)))
    then rejected ProblemTypes.parsing_error "No VC Context" (
        "Credential @context does not include required VC context URI (" <> vc_context_v1 <> " or "
        <> vc_context_v2 <> ").")
    else success "Credential @context includes a valid VC context URI." none

unfoldable pub judge_id : TextTests → Option Json → CheckOutcome
judge_id tests none = success "Credential has no ID (optional field)." none
judge_id tests (some null) = success "Credential has no ID (optional field)." none
judge_id tests (some (str id)) =
    if tests.accepts_url id
    then success "Credential has a valid ID." none
    else rejected ProblemTypes.invalid_credential_id "Invalid Credential ID"
        ("Credential ID is not a valid URL: " <> id)
judge_id tests (some _) =
    rejected ProblemTypes.invalid_credential_id "Invalid Credential ID"
      "Credential ID must be a string URL."

-- `credentialIdCheck`
unfoldable pub credential_id_check : TextTests → VerificationSubject → CheckOutcome
unfolding judge_id
credential_id_check tests subject =
    if not (is_truthy subject.verifiable_credential)
    then rejected ProblemTypes.invalid_credential_id "Invalid Credential ID" no_credential
    else judge_id tests (property "id" (credential_of subject))

-- `proof.length`, of an array
abbrev array_length : Option Json → Option ℕ
array_length (some (arr vs)) = some (length (items vs))
array_length _ = none

-- a proof array holds something else than proof objects
abbrev is_mixed : Option ℕ → ℕ → Bool
is_mixed none entries = false
is_mixed (some n) entries = not (nat_eq entries n)

-- `proofExistsCheck`
unfoldable pub proof_exists_check : VerificationSubject → CheckOutcome
proof_exists_check subject =
    let entries = length (proof_entries subject.verifiable_credential) in
    if not (is_truthy subject.verifiable_credential)
    then rejected ProblemTypes.proof_verification_error "No Proof" no_credential
    else if nat_eq entries 0
    then rejected ProblemTypes.proof_verification_error "No Proof"
        "Credential is missing required proof property."
    else if is_mixed (array_length (property "proof" (credential_of subject))) entries
    then rejected ProblemTypes.proof_verification_error "No Proof"
        "Credential proof property is invalid."
    else success "Credential has a valid proof property." none
