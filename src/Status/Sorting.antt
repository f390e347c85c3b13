-- ===== src/Status/Sorting.antt =====
-- src/suites/status/bitstring-status-check.ts: the sorting of the entries, and the messages that name the ignored ones.
use verifier_core.Shared.{
  ℕ, ◌+◌, String, Bool, true, false, Option, none, some, List, [], ◌∷◌, ◌++◌, ◌<>◌, map, all,
  length, nat_eq, ltb, if◌then◌else◌, join,
}
use verifier_core.Json.{Json}
use verifier_core.Types.{ProblemDetail}
use verifier_core.Types.ProblemTypes
use verifier_core.Core.Pointer.{Segment, name, format_json_pointer}
use verifier_core.Core.Rules.{includes}
use verifier_core.Status.Lists.{
  StatusEntryClass, checked, other_type, other_purpose, malformed, classify_status_entry, distinct,
}

abbrev legacy_status_types : List String
legacy_status_types = "StatusList2021Entry" ∷ "1EdTechRevocationList" ∷ []

pub quoted : List String → String
quoted values = join ", " (map (λ v. "\"" <> v <> "\"") (distinct values))

malformed_entry_problem : List Segment → String → ProblemDetail
malformed_entry_problem path detail = record {
  type = ProblemTypes.malformed_value_error;
  title = "Malformed Status Entry";
  detail = detail;
  instance_pointer = some (format_json_pointer path);
}

-- What `sortStatusEntries` counts and collects.
pub record SortedEntries : Type 0 where
  pub checked_count : ℕ
  pub other_types : List String
  pub other_purposes : List String
  pub malformed_problems : List ProblemDetail

abbrev nothing_sorted : SortedEntries
nothing_sorted = record {
  checked_count = 0;
  other_types = [];
  other_purposes = [];
  malformed_problems = [];
}

malformed_path : List Segment → Option String → List Segment
malformed_path pointer none = pointer
malformed_path pointer (some field) = pointer ++ name field ∷ []

-- One round of the loop, put before what the later rounds give.
unfoldable pub sort_entry : StatusEntryClass → List Segment → SortedEntries → SortedEntries
unfolding malformed_entry_problem malformed_path
sort_entry (checked entry) pointer later = record later { checked_count = later.checked_count + 1 }
sort_entry (other_type type) pointer later = record later { other_types = type ∷ later.other_types }
sort_entry (other_purpose purpose) pointer later = record later {
  other_purposes = purpose ∷ later.other_purposes;
}
sort_entry (malformed field detail) pointer later = record later {
  malformed_problems =
      malformed_entry_problem (malformed_path pointer field) detail ∷ later.malformed_problems;
}

unfoldable pub sort_status_entries : List (Json × List Segment) → SortedEntries
unfolding sort_entry
sort_status_entries [] = nothing_sorted
sort_status_entries ((entry, pointer) ∷ entries) =
    sort_entry (classify_status_entry entry) pointer (sort_status_entries entries)

abbrev sentence_if : Bool → String → List String
sentence_if true s = s ∷ []
sentence_if false s = []

unfoldable pub unchecked_suffix : List String → List String → String
unfolding quoted
unchecked_suffix other_types other_purposes = join " " (
    sentence_if (ltb 0 (length other_types))
      ("Unchecked status types: " <> quoted other_types <> ".")
    ++ sentence_if (ltb 0 (length other_purposes))
        ("Unchecked status purposes: " <> quoted other_purposes <> "."))

unfoldable pub no_checked_entry_reason : List String → List String → String
unfolding quoted unchecked_suffix
no_checked_entry_reason other_types other_purposes =
    if nat_eq (length other_purposes) 0
    then if all (λ t. includes legacy_status_types t) other_types
      then "Legacy status type " <> quoted other_types <> " is not checked."
      else "Status type " <> quoted other_types <> " is not BitstringStatusListEntry."
    else if nat_eq (length other_types) 0
    then "BitstringStatusListEntry with statusPurpose "
      <> quoted other_purposes
      <> " is not checked."
    else "No revocation or suspension BitstringStatusListEntry to check. "
      <> unchecked_suffix other_types other_purposes
