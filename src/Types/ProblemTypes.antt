-- ===== src/Types/ProblemTypes.antt =====
-- src/problem-types.ts, the members that the modelled code uses
use verifier_core.Shared.{String}

abbrev pub parsing_error : String
parsing_error = "https://www.w3.org/TR/vc-data-model#PARSING_ERROR"

abbrev pub check_error : String
check_error = "https://www.w3.org/TR/vc-data-model#CHECK_ERROR"

abbrev pub credential_expired : String
credential_expired = "https://www.w3.org/TR/vc-data-model#CREDENTIAL_EXPIRED"

abbrev pub credential_not_yet_valid : String
credential_not_yet_valid = "https://www.w3.org/TR/vc-data-model#CREDENTIAL_NOT_YET_VALID"

abbrev pub proof_verification_error : String
proof_verification_error = "https://www.w3.org/TR/vc-data-model#PROOF_VERIFICATION_ERROR"

abbrev pub proof_unsupported : String
proof_unsupported = "https://www.w3.org/TR/vc-data-model#PROOF_UNSUPPORTED"

abbrev pub issuer_not_found : String
issuer_not_found = "https://www.w3.org/TR/vc-data-model#ISSUER_NOT_FOUND"

abbrev pub issuer_not_registered : String
issuer_not_registered = "https://www.w3.org/TR/vc-data-model#ISSUER_NOT_REGISTERED"

abbrev pub registry_unchecked : String
registry_unchecked = "https://www.w3.org/TR/vc-data-model#REGISTRY_UNCHECKED"

abbrev pub registry_error : String
registry_error = "https://www.w3.org/TR/vc-data-model#REGISTRY_ERROR"

abbrev pub malformed_value_error : String
malformed_value_error = "https://www.w3.org/TR/vc-data-model#MALFORMED_VALUE_ERROR"

abbrev pub invalid_credential_id : String
invalid_credential_id = "https://www.w3.org/TR/vc-data-model#INVALID_CREDENTIAL_ID"

abbrev pub status_list_not_found : String
status_list_not_found = "https://www.w3.org/TR/vc-data-model#STATUS_LIST_NOT_FOUND"

abbrev pub status_list_expired : String
status_list_expired = "https://www.w3.org/TR/vc-data-model#STATUS_LIST_EXPIRED"

abbrev pub status_list_signature_error : String
status_list_signature_error = "https://www.w3.org/TR/vc-data-model#STATUS_LIST_SIGNATURE_ERROR"

abbrev pub status_list_type_error : String
status_list_type_error = "https://www.w3.org/TR/vc-data-model#STATUS_LIST_TYPE_ERROR"

abbrev pub status_list_not_yet_valid : String
status_list_not_yet_valid = "https://www.w3.org/TR/vc-data-model#STATUS_LIST_NOT_YET_VALID"

abbrev pub status_list_issuer_mismatch : String
status_list_issuer_mismatch = "https://www.w3.org/TR/vc-data-model#STATUS_LIST_ISSUER_MISMATCH"

abbrev pub status_list_error : String
status_list_error = "https://www.w3.org/TR/vc-data-model#STATUS_LIST_ERROR"

abbrev pub credential_revoked : String
credential_revoked = "https://www.w3.org/TR/vc-data-model#CREDENTIAL_REVOKED"

abbrev pub credential_suspended : String
credential_suspended = "https://www.w3.org/TR/vc-data-model#CREDENTIAL_SUSPENDED"
