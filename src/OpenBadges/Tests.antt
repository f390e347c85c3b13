-- ===== src/OpenBadges/Tests.antt =====
-- A badge of two results: one names a `Status` description and has no status, the other names none that is declared.
use verifier_core.Shared.{◌≡◌, true, ◌&&◌, none, some, any, has_some}
use verifier_core.Json.{str, arr, obj, nil, cons, end, field}
use verifier_core.Types.{is_failure, VerificationSubject}
use verifier_core.OpenBadges.Checks.{
  parsed, results_of, descriptions_of, result_ref_check, missing_result_status_check,
  achieved_level_check,
}
use verifier_core.OpenBadges.Described.{dangles, lacks_status, overclaims}
use verifier_core.OpenBadges.Failures.{semantic_checks-is_failure}

abbrev badge : VerificationSubject
badge = record {
  verifiable_credential = some (
      obj (
        field "credentialSubject"
          (obj (
            field "achievement"
              (obj (
                field "resultDescription"
                  (arr (
                    cons
                      (obj (field "id" (str "urn:grade") (field "resultType" (str "Status") end)))
                      nil))
                  end))
              (field "result"
                (arr (
                  cons (obj (field "resultDescription" (str "urn:grade") end))
                    (cons (obj (field "resultDescription" (str "urn:other") end)) nil)))
                end)))
          end));
  verifiable_presentation = none;
}

semantic_checks-is_failure_example :
    let ds = descriptions_of (parsed badge) in
    let rs = results_of (parsed badge) in
    (is_failure (result_ref_check badge) ≡ (true && any (dangles ds) rs))
    × (is_failure (missing_result_status_check badge) ≡ (true && any (lacks_status ds) rs))
    × (is_failure (achieved_level_check badge)
        ≡ (true && any (λ r. has_some ds && overclaims ds r) rs))
semantic_checks-is_failure_example = semantic_checks-is_failure badge
