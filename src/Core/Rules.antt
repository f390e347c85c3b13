-- ===== src/Core/Rules.antt =====
-- src/suites/core/structure-helpers.ts
use verifier_core.Shared.{
  ℕ, ◌+◌, String, Bool, true, false, not, ◌&&◌, Option, none, some, List, [], ◌∷◌, ◌++◌, map, any,
  length, nat_eq, ◌==◌, ◌<>◌,
}
use verifier_core.Json.{Json, arr, obj, str, items, lookup_field, string_values}
use verifier_core.Types.{TextTests, ProblemDetail, CheckOutcome, success, failure}
use verifier_core.Types.ProblemTypes
use verifier_core.VcContexts.{
  vc_context_v1, vc_context_v2, is_vc_context, first_context_entry, includes_vc_context,
}
use verifier_core.Core.Pointer.{Segment, name, index, format_json_pointer, display_path}

-- One call of `report`.
pub record Violation : Type 0 where
  pub pointer : List Segment
  pub detail : String

-- The violations of a rule that reports at most one.
abbrev pub report_if : Bool → List Segment → String → List Violation
report_if true pointer detail = record { pointer = pointer; detail = detail } ∷ []
report_if false pointer detail = []

unfoldable pub missing_subject_failure : String → String → CheckOutcome
missing_subject_failure title detail =
    failure
      (record {
        type = ProblemTypes.malformed_value_error;
        title = title;
        detail = detail;
        instance_pointer = none;
      }
        ∷ [])
      none

pub violation_problem : String → Violation → ProblemDetail
violation_problem title v = record {
  type = ProblemTypes.malformed_value_error;
  title = title;
  detail = v.detail;
  instance_pointer = some (format_json_pointer v.pointer);
}

unfoldable pub run_structure_rules : String → String → List Violation → CheckOutcome
run_structure_rules title success_message [] = success success_message none
run_structure_rules title success_message (v ∷ vs) =
    failure (map (violation_problem title) (v ∷ vs)) none

-- `isUrl`
abbrev pub is_url : TextTests → Option Json → Bool
is_url tests (some (str s)) = tests.accepts_url s
is_url tests _ = false

abbrev context_pointer : Option Json → List Segment
context_pointer (some (arr vs)) = name "@context" ∷ index 0 ∷ []
context_pointer _ = name "@context" ∷ []

unfoldable pub check_first_context_entry : Option Json → List Violation
check_first_context_entry context =
    report_if (includes_vc_context context && not (is_vc_context (first_context_entry context)))
      (context_pointer context)
      ("The first \"@context\" entry must be \"" <> vc_context_v1 <> "\" or \"" <> vc_context_v2
        <> "\".")

abbrev pub includes : List String → String → Bool
includes ss s = any (λ t. t == s) ss

unfoldable pub check_type_includes : Option Json → String → List Violation
check_type_includes none required = report_if true (name "type" ∷ []) "\"type\" is required."
check_type_includes (some type) required =
    report_if (not (includes (string_values (some type)) required)) (name "type" ∷ [])
      ("\"type\" must include \"" <> required <> "\".")

-- `asEntries`
unfoldable pub entries_from : ℕ → List Segment → List Json → List (Json × List Segment)
entries_from i pointer [] = []
entries_from i pointer (v ∷ vs) = (v, pointer ++ index i ∷ []) ∷ entries_from (i + 1) pointer vs

unfoldable pub as_entries : Json → List Segment → List (Json × List Segment)
unfolding entries_from
as_entries (arr vs) pointer = entries_from 0 pointer (items vs)
as_entries value pointer = (value, pointer) ∷ []

-- `checkTypedEntry`: the violations; the caller goes on with the fields of an object
unfoldable pub check_typed_entry : Json → List Segment → List Violation
check_typed_entry (obj fields) pointer =
    report_if (nat_eq (length (string_values (lookup_field "type" fields))) 0)
      (pointer ++ name "type" ∷ []) ("\"" <> display_path pointer <> "\" must have a \"type\".")
check_typed_entry entry pointer =
    report_if true pointer ("\"" <> display_path pointer <> "\" must be an object with a \"type\".")

module _ (tests : TextTests) where
  unfoldable pub check_url_or_id_object : Json → List Segment → List Violation
  check_url_or_id_object (str s) pointer =
      report_if (not (tests.accepts_url s)) pointer
        ("\"" <> display_path pointer <> "\" must be a URL.")
  check_url_or_id_object (obj fields) pointer =
      report_if (not (is_url tests (lookup_field "id" fields))) (pointer ++ name "id" ∷ [])
        ("\"" <> display_path pointer <> ".id\" must be a URL.")
  check_url_or_id_object value pointer =
      report_if true pointer
        ("\"" <> display_path pointer <> "\" must be a URL or an object with a URL \"id\".")

  abbrev pub is_date_time : Json → Bool
  is_date_time (str s) = tests.is_date_time s
  is_date_time value = false
