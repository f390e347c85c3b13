-- ===== src/OpenBadges/Checks.antt =====
-- src/openbadges: result-ref-check.ts, achieved-level-check.ts, missing-result-status-check.ts and
-- unknown-achievement-type-check.ts, with the tokens of known-achievement-types.ts.
use text.Mathlib.Text.{starts_with}
use verifier_core.Shared.{
  ℕ, ◌+◌, String, Bool, false, not, ◌||◌, Option, none, some, List, [], ◌∷◌, ◌++◌, ◌==◌, ◌<>◌,
  length, nat_eq, ltb, is_nonempty, decimal, join, or_else, if◌then◌else◌,
}
use verifier_core.Shared.Dict.{insert, lookup}
use verifier_core.Json.{Json, arr, str, items, property, is_truthy, null}
use verifier_core.Types.{
  ProblemDetail, VerificationSubject, CheckOutcome, success, failure, skipped,
}
use verifier_core.Core.Pointer.{Segment, name, index, format_json_pointer}
use verifier_core.Core.Rules.{includes}
use verifier_core.Status.Lists.{distinct}
use verifier_core.OpenBadges.Shapes.{ResultDescription, Result, AchievementSubject, parse_subject}

abbrev ob_invalid_result_reference : String
ob_invalid_result_reference = "https://www.w3.org/TR/vc-data-model#OB_INVALID_RESULT_REFERENCE"

abbrev ob_invalid_achieved_level : String
ob_invalid_achieved_level = "https://www.w3.org/TR/vc-data-model#OB_INVALID_ACHIEVED_LEVEL"

abbrev ob_missing_result_status : String
ob_missing_result_status = "https://www.w3.org/TR/vc-data-model#OB_MISSING_RESULT_STATUS"

abbrev ob_unknown_achievement_type : String
ob_unknown_achievement_type = "https://www.w3.org/TR/vc-data-model#OB_UNKNOWN_ACHIEVEMENT_TYPE"

abbrev pub skip : String → CheckOutcome
skip reason = skipped reason none none

abbrev pub no_credential : CheckOutcome
no_credential = skip "No verifiable credential found in subject."

abbrev pub no_results : CheckOutcome
no_results = skip "Credential has no credentialSubject.result field."

abbrev pub no_descriptions : CheckOutcome
no_descriptions = skip "Credential has no achievement.resultDescription[] to validate against."

badge_problem : String → String → List Segment → String → ProblemDetail
badge_problem type title pointer detail = record {
  type = type;
  title = title;
  detail = detail;
  instance_pointer = some (format_json_pointer pointer);
}

abbrev pub verdict : List ProblemDetail → String → CheckOutcome
verdict problems message =
    if nat_eq (length problems) 0 then success message none else failure problems none

-- `subjectParse.data`, of a credential whose subject has results
pub results_of : Option AchievementSubject → List Result
results_of none = []
results_of (some s) = or_else s.result []

pub descriptions_of : Option AchievementSubject → List ResultDescription
descriptions_of none = []
descriptions_of (some s) = elim s.achievement [
  | none ↦ []
  | some a ↦ or_else a.result_descriptions []
]

abbrev pub parsed : VerificationSubject → Option AchievementSubject
parsed subject =
    parse_subject (property "credentialSubject" (or_else subject.verifiable_credential null))

unfoldable pub texts : List (Option String) → List String
texts [] = []
texts (none ∷ ids) = texts ids
texts (some id ∷ ids) = id ∷ texts ids

unfoldable pub ids_of : List ResultDescription → List (Option String)
ids_of [] = []
ids_of (d ∷ ds) = d.id ∷ ids_of ds

reference_problem : ℕ → String → ProblemDetail
unfolding badge_problem
reference_problem i ref =
    badge_problem ob_invalid_result_reference "Invalid Result Reference"
      (name "credentialSubject" ∷ name "result" ∷ index i ∷ name "resultDescription" ∷ [])
      ("Result entry at index "
        <> decimal i
        <> " references ResultDescription id \""
        <> ref
        <> "\" which does not exist in achievement.resultDescription")

unfoldable pub reference_problems : List String → ℕ → List Result → List ProblemDetail
unfolding reference_problem
reference_problems known i [] = []
reference_problems known i (r ∷ rs) =
    let rest = reference_problems known (i + 1) rs in
    elim r.result_description [
      | none ↦ rest
      | some ref ↦ if includes known ref then rest else reference_problem i ref ∷ rest
    ]

-- `obv3ResultRefCheck.execute`
unfoldable pub result_ref_check : VerificationSubject → CheckOutcome
result_ref_check subject =
    let results = results_of (parsed subject) in
    let known = texts (ids_of (descriptions_of (parsed subject))) in
    if not (is_truthy subject.verifiable_credential)
    then no_credential
    else if nat_eq (length results) 0
    then no_results
    else verdict (reference_problems known 0 results) (
        "All "
        <> decimal (length results)
        <> " result entries reference valid ResultDescription IDs.")

-- The ids of the descriptions of type `Status`.
unfoldable pub status_typed_ids : List ResultDescription → List String
status_typed_ids [] = []
status_typed_ids (d ∷ ds) =
    let rest = status_typed_ids ds in
    elim d.id [
      | none ↦ rest
      | some id ↦ if or_else d.result_type "" == "Status" then id ∷ rest else rest
    ]

unfoldable pub refers_to : List String → Result → Bool
refers_to ids r = elim r.result_description [ none ↦ false | some ref ↦ includes ids ref ]

status_problem : ℕ → String → ProblemDetail
unfolding badge_problem
status_problem i ref =
    badge_problem ob_missing_result_status "Missing Result Status"
      (name "credentialSubject" ∷ name "result" ∷ index i ∷ [])
      ("Result entry at index "
        <> decimal i
        <> " references a Status-typed ResultDescription \""
        <> ref
        <> "\" but is missing a non-empty status value.")

-- The problems, and how many results were checked.
unfoldable pub status_problems : List String → ℕ → List Result → List ProblemDetail × ℕ
unfolding refers_to status_problem
status_problems ids i [] = ([], 0)
status_problems ids i (r ∷ rs) =
    let (problems, count) = status_problems ids (i + 1) rs in
    if not (refers_to ids r)
    then (problems, count)
    else if is_nonempty (or_else r.status "")
    then (problems, count + 1)
    else (status_problem i (or_else r.result_description "") ∷ problems, count + 1)

-- `obv3MissingResultStatusCheck.execute`
unfoldable pub missing_result_status_check : VerificationSubject → CheckOutcome
missing_result_status_check subject =
    let results = results_of (parsed subject) in
    let descriptions = descriptions_of (parsed subject) in
    let ids = status_typed_ids descriptions in
    let (problems, count) = status_problems ids 0 results in
    if not (is_truthy subject.verifiable_credential)
    then no_credential
    else if nat_eq (length results) 0
    then no_results
    else if nat_eq (length descriptions) 0
    then no_descriptions
    else if nat_eq (length ids) 0
    then success
        "No Status-typed ResultDescription found; missing-result-status check is not applicable."
        none
    else verdict problems
        ("All " <> decimal count <> " Status-typed result entries carry a status value.")

-- `levelsByRdId`, built from the first description to the last
unfoldable pub add_levels :
    List (String × List String) → List ResultDescription → List (String × List String)
add_levels by_id [] = by_id
add_levels by_id (d ∷ ds) =
    let levels = distinct (texts (or_else d.rubric_criterion_level [])) in
    let after : List (String × List String) = elim d.id [
      | none ↦ by_id
      | some id ↦ if ltb 0 (length levels) then insert id levels by_id else by_id
    ] in
    add_levels after ds

level_problem : ℕ → String → ProblemDetail
unfolding badge_problem
level_problem i detail =
    badge_problem ob_invalid_achieved_level "Invalid Achieved Level"
      (name "credentialSubject" ∷ name "result" ∷ index i ∷ name "achievedLevel" ∷ [])
      ("Result entry at index " <> decimal i <> " claims achievedLevel \"" <> detail)

unfoldable pub judge_level : ℕ → String → String → Option (List String) → List ProblemDetail
unfolding level_problem
judge_level i level ref none =
    level_problem i (
      level <> "\", but the referenced ResultDescription \"" <> ref
      <> "\" declares no rubricCriterionLevel entries.")
    ∷ []
judge_level i level ref (some levels) =
    if includes levels level
    then []
    else level_problem i (
        level
        <> "\" which is not declared in the referenced ResultDescription \""
        <> ref
        <> "\" (valid levels: "
        <> join ", " levels
        <> ").")
      ∷ []

unfoldable pub level_problems :
    List (String × List String) → ℕ → List Result → List ProblemDetail × ℕ
unfolding judge_level
level_problems by_id i [] = ([], 0)
level_problems by_id i (r ∷ rs) =
    let (problems, count) = level_problems by_id (i + 1) rs in
    elim r.achieved_level [
      | none ↦ (problems, count)
      | some level ↦ elim r.result_description [
        | none ↦ (problems, count)
        | some ref ↦ (judge_level i level ref (lookup ref by_id) ++ problems, count + 1)
      ]
    ]

-- `obv3AchievedLevelCheck.execute`
unfoldable pub achieved_level_check : VerificationSubject → CheckOutcome
achieved_level_check subject =
    let results = results_of (parsed subject) in
    let descriptions = descriptions_of (parsed subject) in
    let (problems, count) = level_problems (add_levels [] descriptions) 0 results in
    if not (is_truthy subject.verifiable_credential)
    then no_credential
    else if nat_eq (length results) 0
    then no_results
    else if nat_eq (length descriptions) 0
    then no_descriptions
    else verdict problems (
        if nat_eq count 0
        then "No result entries declare achievedLevel; nothing to validate."
        else "All "
          <> decimal count
          <> " achievedLevel values reference valid RubricCriterionLevel ids.")

-- `OB_3_0_ACHIEVEMENT_TYPES`
abbrev pub known_achievement_types : List String
known_achievement_types =
    "Achievement" ∷ "ApprenticeshipCertificate" ∷ "Assessment" ∷ "Assignment" ∷ "AssociateDegree"
    ∷ "Award" ∷ "Badge" ∷ "BachelorDegree" ∷ "Certificate" ∷ "CertificateOfCompletion"
    ∷ "Certification" ∷ "CommunityService" ∷ "Competency" ∷ "Course" ∷ "CoCurricular" ∷ "Degree"
    ∷ "Diploma" ∷ "DoctoralDegree" ∷ "Fieldwork" ∷ "GeneralEducationDevelopment"
    ∷ "JourneymanCertificate" ∷ "LearningProgram" ∷ "License" ∷ "Membership"
    ∷ "ProfessionalDoctorate" ∷ "QualityAssuranceCredential" ∷ "MasterCertificate" ∷ "MasterDegree"
    ∷ "MicroCredential" ∷ "ResearchDoctorate" ∷ "SecondarySchoolDiploma" ∷ []

achievement_type_problem : List Segment → String → String → ProblemDetail
unfolding badge_problem
achievement_type_problem pointer target entry =
    badge_problem ob_unknown_achievement_type "Unknown Achievement Type"
      (name "credentialSubject" ∷ name "achievement" ∷ name "achievementType" ∷ pointer)
      (target <> " = \"" <> entry
        <> "\" is not in the known AchievementType vocabulary and does not use the \"ext:\" extension prefix.")

judge_entry : List String → List Segment → String → Json → List ProblemDetail
unfolding achievement_type_problem
judge_entry known pointer target (str entry) =
    if includes known entry || starts_with entry "ext:"
    then []
    else achievement_type_problem pointer target entry ∷ []
judge_entry known pointer target _ = []

judge_entries : List String → ℕ → List Json → List ProblemDetail
unfolding judge_entry
judge_entries known i [] = []
judge_entries known i (v ∷ vs) =
    judge_entry known (index i ∷ []) ("achievement.achievementType[" <> decimal i <> "]") v
    ++ judge_entries known (i + 1) vs

-- `evaluateAchievementType` of a value that is there
evaluate_achievement_type : List String → Json → List ProblemDetail
unfolding judge_entry judge_entries
evaluate_achievement_type known (arr vs) = judge_entries known 0 (items vs)
evaluate_achievement_type known value = judge_entry known [] "achievement.achievementType" value

achievement_type_of : Option AchievementSubject → Option Json
achievement_type_of none = none
achievement_type_of (some s) = elim s.achievement [ none ↦ none | some a ↦ a.achievement_type ]

judge_types : List String → Option Json → CheckOutcome
unfolding evaluate_achievement_type
judge_types known none = skip "Credential has no achievement.achievementType to evaluate."
judge_types known (some value) =
    verdict (evaluate_achievement_type known value)
      "All achievement.achievementType values are recognized."

-- `executeForKnownTypes`, of both the plain check and the one that the factory makes
pub unknown_achievement_type_check : List String → VerificationSubject → CheckOutcome
unknown_achievement_type_check known subject =
    if not (is_truthy subject.verifiable_credential)
    then no_credential
    else judge_types known (achievement_type_of (parsed subject))
