-- ===== src/Status/Bitstring.antt =====
-- src/suites/status/bitstring-status-check.ts. `checkStatus` of `@interop/vc-bitstring-status-list` is a
-- parameter. `problem.type in DATE_REJECTION_PROBLEMS` is read as one of the two keys that it has; a problem
-- type spelled like a member of `Object.prototype` is left out.
pub mod Verdict
pub mod Hook
use verifier_core.Shared.{
  ℕ, ◌+◌, String, Bool, true, false, not, ◌&&◌, ◌||◌, Option, none, some, List, [], ◌∷◌, ◌++◌, ◌==◌,
  ◌<>◌, map, filter, all, any, find?, length, nat_eq, ltb, is_some, is_nonempty, if◌then◌else◌,
  or_else, join, decimal,
}
use text.Mathlib.Text.{starts_with}
use verifier_core.Json.{
  Json, Items, Fields, end, nil, cons, null, bool, num, str, arr, obj, items, lookup_field,
  property, is_truthy, as_string, error_message, string_of,
}
use verifier_core.Types.{
  Attempt, done, Action, ProblemDetail, problem, VerificationSubject, verifiable_credential,
  VerificationContext, DocumentLoader, CheckOutcome, success, failure, skipped, VerificationCheck,
}
use verifier_core.Types.ProblemTypes
use verifier_core.CryptoDispatch.{
  CryptoDispatchResult, verified, rejected, no_service, threw, dispatch_proof_set_verification,
}
use verifier_core.Core.Pointer.{Segment, name, format_json_pointer}
use verifier_core.Core.Rules.{includes}
use verifier_core.Status.Sorting.{
  SortedEntries, sort_status_entries, unchecked_suffix, no_checked_entry_reason, quoted,
}
use verifier_core.Status.Lists.{
  bitstring_entry_type, checked_status_purposes, credential_status_entries, StatusEntryClass,
  checked, other_type, other_purpose, malformed, classify_status_entry, distinct, StatusStore,
  begin_status_list_run, record_verified_status_list,
}

abbrev status_type_error : String
status_type_error = "Status list credential type must include \"BitstringStatusListCredential\"."

abbrev status_list_signature_problem : String → ProblemDetail
status_list_signature_problem detail =
    problem ProblemTypes.status_list_signature_error "Status List Signature Error" detail

-- The two keys of `DATE_REJECTION_PROBLEMS`.
abbrev is_date_rejection : ProblemDetail → Bool
is_date_rejection p =
    p.type == ProblemTypes.credential_expired || p.type == ProblemTypes.credential_not_yet_valid

date_problem : ProblemDetail → String → ProblemDetail
date_problem dated list_name =
    let expired = dated.type == ProblemTypes.credential_expired in
    problem
      (if expired then ProblemTypes.status_list_expired else ProblemTypes.status_list_not_yet_valid)
      (if expired then "Status List Expired" else "Status List Not Yet Valid")
      ("The status list credential "
        <> list_name
        <> " "
        <> (if expired then "has expired" else "is not yet valid")
        <> ". "
        <> dated.detail)

rejection_problem : Option ProblemDetail → String → ProblemDetail
unfolding date_problem
rejection_problem (some dated) list_name = date_problem dated list_name
rejection_problem none list_name =
    status_list_signature_problem "The status list credential signature could not be verified."

-- `statusListProofProblems`, which the source calls for a dispatch that is not verified
status_list_proof_problems : CryptoDispatchResult → String → List ProblemDetail
unfolding rejection_problem
status_list_proof_problems (verified message) list_name = []
status_list_proof_problems no_service list_name =
    status_list_signature_problem
      "No registered crypto service can verify the status list credential's proof (unsigned list, or suite missing from cryptoServices)."
    ∷ []
status_list_proof_problems (threw error message) list_name =
    status_list_signature_problem message ∷ []
status_list_proof_problems (rejected problems proof_verified) list_name =
    rejection_problem (find? is_date_rejection problems) list_name ∷ []

-- What the hook answers: the error of a list that is not verified is a `StatusListProofError`.
pub data HookAnswer : Type 0 where
  list_verified : HookAnswer
  list_refused : (problems : List ProblemDetail) → HookAnswer

abbrev StatusListHook : Type 0 → Type 0
StatusListHook W =
    (credential : Json) (document_loader : DocumentLoader W) (url : String) → W → HookAnswer × W

-- The `cause` of an error: a `StatusListProofError`, or another value.
pub data StatusCause : Type 0 where
  proof_error : (problems : List ProblemDetail) → StatusCause
  other_cause : Json → StatusCause

-- An error value, less its `cause`, and the cause.
pub record StatusError : Type 0 where
  pub value : Json
  pub cause : Option StatusCause

pub record StatusEntryResult : Type 0 where
  pub status : Option Json
  pub credential_status : Option Fields

pub data CheckStatusAnswer : Type 0 where
  answered :
      (error : Option StatusError) (results : Option (List StatusEntryResult)) → CheckStatusAnswer
  raised : StatusError → CheckStatusAnswer

-- `checkStatus({ credential, documentLoader, statusPurposes, verifyStatusListCredential,
-- verifyMatchingIssuers })`
abbrev pub CheckStatus : Type 0 → Type 0
CheckStatus W =
    (credential : Json) (document_loader : DocumentLoader W) (status_purposes : List String)
    (verify_status_list_credential : StatusListHook W) (verify_matching_issuers : Bool)
    → W
    → CheckStatusAnswer × W

module _ {W : Type 0} (store : StatusStore W) (context : VerificationContext W) where
  -- What the hook does with the result of its dispatch.
  judge_list : CryptoDispatchResult → Json → String → W → HookAnswer × W
  judge_list (verified message) credential url w =
      (list_verified, record_verified_status_list store url credential w)
  judge_list (rejected problems true) credential url w = (
    list_refused (status_list_proof_problems (rejected problems true) url),
    record_verified_status_list store url credential w,
  )
  judge_list dispatched credential url w =
      (list_refused (status_list_proof_problems dispatched url), w)

  abbrev pub dispatch_list : Json → DocumentLoader W → W → CryptoDispatchResult × W
  dispatch_list credential document_loader w =
      let (dispatched, w') =
        dispatch_proof_set_verification context.crypto_services
          (record { verifiable_credential = some credential; verifiable_presentation = none })
          (record {
            document_loader = document_loader;
            challenge = none;
            domain = none;
            now = some context.now;
          })
          w in
      (dispatched.combined, w')

  -- `verifyStatusListVia`
  pub verify_status_list_via : StatusListHook W
  unfolding judge_list
  verify_status_list_via credential document_loader url w =
      let (dispatched, w') = dispatch_list credential document_loader w in
      judge_list dispatched credential url w'

-- `cause?.name`, of a cause that is no `StatusListProofError`
abbrev cause_text : String → Option StatusCause → Option String
cause_text member (some (other_cause cause)) = as_string (property member cause)
cause_text member _ = none

classify_unproved : String → Option StatusCause → List ProblemDetail
classify_unproved message cause =
    let cause_message = or_else (cause_text "message" cause) "" in
    if or_else (cause_text "name" cause) "" == "NotFoundError"
      || starts_with cause_message "NotFoundError"
    then problem ProblemTypes.status_list_not_found "Status List Not Found" message ∷ []
    else if starts_with message status_type_error || starts_with cause_message status_type_error
    then problem ProblemTypes.status_list_type_error "Status List Type Error" status_type_error ∷ []
    else problem ProblemTypes.status_list_error "Status List Error" message ∷ []

classify_cause : String → Option StatusCause → List ProblemDetail
unfolding classify_unproved
classify_cause message (some (proof_error problems)) = problems
classify_cause message cause = classify_unproved message cause

-- `classifyStatusError`
classify_status_error : StatusError → List ProblemDetail
unfolding classify_cause
classify_status_error error =
    classify_cause (error_message error.value "An error occurred while checking credential status.")
      error.cause

pub set_bit_problem : Fields → ProblemDetail
set_bit_problem entry =
    let suspended = or_else (as_string (lookup_field "statusPurpose" entry)) "" == "suspension" in
    problem
      (if suspended then ProblemTypes.credential_suspended else ProblemTypes.credential_revoked)
      (if suspended then "Credential Suspended" else "Credential Revoked")
      ("The status list "
        <> string_of (lookup_field "statusListCredential" entry)
        <> " marks the credential "
        <> (if suspended then "suspended" else "revoked")
        <> " (index "
        <> string_of (lookup_field "statusListIndex" entry)
        <> ").")

-- `result.status === true`
abbrev pub is_set : StatusEntryResult → Bool
is_set result = elim result.status [ some (bool b) ↦ b | _ ↦ false ]

valid_message : List String → List String → String
unfolding unchecked_suffix
valid_message other_types other_purposes =
    let message : String = "Credential status is valid (not revoked or suspended)." in
    let unchecked = unchecked_suffix other_types other_purposes in
    if is_nonempty unchecked then message <> " " <> unchecked else message

-- What follows `checkStatus`, the `catch` included.
judge_status : List String → List String → CheckStatusAnswer → CheckOutcome
unfolding valid_message
judge_status other_types other_purposes (raised error) = failure (classify_status_error error) none
judge_status other_types other_purposes (answered (some error) results) =
    failure (classify_status_error error) none
judge_status other_types other_purposes (answered none results) =
    let problems =
      map (λ result. set_bit_problem (or_else result.credential_status end))
        (filter is_set (or_else results [])) in
    if ltb 0 (length problems)
    then failure problems none
    else success (valid_message other_types other_purposes) none

module _ {W : Type 0} (check_status : CheckStatus W) (store : StatusStore W) where
  pub ask_status : Json → VerificationContext W → W → CheckStatusAnswer × W
  ask_status credential context w =
      check_status credential context.document_loader checked_status_purposes
        (verify_status_list_via store context) false (begin_status_list_run store w)

  judge_sorted : Bool → SortedEntries → Json → VerificationContext W → W → CheckOutcome × W
  unfolding ask_status judge_status no_checked_entry_reason
  judge_sorted true sorted credential context w =
      (skipped "Credential has no credentialStatus." none none, w)
  judge_sorted false sorted credential context w =
      if ltb 0 (length sorted.malformed_problems)
      then (failure sorted.malformed_problems none, w)
      else if nat_eq sorted.checked_count 0
      then (skipped (no_checked_entry_reason sorted.other_types sorted.other_purposes) none none, w)
      else let (answer, w') = ask_status credential context w in
        (judge_status sorted.other_types sorted.other_purposes answer, w')

  -- `bitstringStatusCheck.execute`
  pub bitstring_status_check : VerificationSubject → VerificationContext W → W → CheckOutcome × W
  unfolding judge_sorted
  bitstring_status_check subject context w =
      let credential = or_else subject.verifiable_credential null in
      let entries = credential_status_entries credential in
      if not (is_truthy subject.verifiable_credential)
      then (skipped "No verifiable credential found in subject." none none, w)
      else judge_sorted (nat_eq (length entries) 0) (sort_status_entries entries) credential context
          w
