-- ===== src/OpenBadges/Suite.antt =====
-- src/openbadges/recognize.ts and openbadges-suite.ts
use text.Mathlib.Text.{starts_with}
use verifier_core.Shared.{String, Bool, ◌&&◌, none, some, [], ◌∷◌, any, or_else}
use verifier_core.Json.{Json, null, property, string_values}
use verifier_core.Types.{
  done, VerificationSubject, verifiable_credential, CheckOutcome, SuitePhase, VerificationCheck,
  VerificationSuite,
}
use verifier_core.Core.Rules.{includes}
use verifier_core.OpenBadges.Checks.{
  result_ref_check, achieved_level_check, missing_result_status_check,
  unknown_achievement_type_check, known_achievement_types,
}

abbrev obv3_context_matcher : String
obv3_context_matcher = "https://purl.imsglobal.org/spec/ob/v3p0/context-3"

abbrev has_obv3_context : Json → Bool
has_obv3_context credential =
    any (λ context. starts_with context obv3_context_matcher)
      (string_values (property "@context" credential))

abbrev has_type_name : Json → String → Bool
has_type_name credential type_name = includes (string_values (property "type" credential)) type_name

abbrev is_open_badge_credential : Json → Bool
is_open_badge_credential credential =
    has_obv3_context credential && has_type_name credential "OpenBadgeCredential"

abbrev is_endorsement_credential : Json → Bool
is_endorsement_credential credential =
    has_obv3_context credential && has_type_name credential "EndorsementCredential"

module _ {W : Type 0} where
  abbrev semantic :
      String → String → String → (VerificationSubject → CheckOutcome) → VerificationCheck W
  semantic id name description judge = record {
    id = id;
    name = name;
    description = some description;
    applies_to = some (verifiable_credential ∷ []);
    fatal = some Bool.false;
    halts = none;
    execute = λ subject context w. (done (judge subject), w);
  }

  abbrev open_badges_semantic_suite : VerificationSuite W
  open_badges_semantic_suite = record {
    id = "openbadges.semantic";
    name = "OpenBadges Semantic";
    description = some "OpenBadges 3.0 cross-field semantic checks (no JSON Schema validation).";
    checks =
        semantic "schema.obv3.result-ref" "OBv3 Result Reference Check"
          "Validates that result entries reference valid ResultDescription IDs." result_ref_check
        ∷ semantic "schema.obv3.achieved-level" "OBv3 Achieved Level Check"
            "Validates that result.achievedLevel values reference declared RubricCriterionLevel ids."
            achieved_level_check
        ∷ semantic "schema.obv3.missing-result-status" "OBv3 Missing Result Status Check"
            "Validates that result entries linked to Status-typed ResultDescriptions carry a status value."
            missing_result_status_check
        ∷ semantic "schema.obv3.unknown-achievement-type" "OBv3 Unknown AchievementType Check"
            "Flags achievement.achievementType values that are neither in the known OBv3 vocabulary nor a caller-supplied augment, and do not use the \"ext:\" extension prefix."
            (unknown_achievement_type_check known_achievement_types)
        ∷ [];
    applies = some (λ subject context.
        done (is_open_badge_credential (or_else subject.verifiable_credential null)));
    phase = some SuitePhase.semantic;
  }
