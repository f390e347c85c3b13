-- ===== src/Status/Bitstring/Verdict.antt =====
-- src/suites/status/bitstring-status-check.ts: what its outcome says.
use verifier_core.Shared.{
  String, Bool, true, false, not, ◌&&◌, ◌||◌, none, some, List, [], ◌∷◌, ◌≡◌, refl, arith, map,
  filter, all, any, length, nat_eq, ltb, or_else,
}
use verifier_core.Json.{end, Json, null, is_truthy}
use verifier_core.Types.{VerificationSubject, VerificationContext, is_success, is_failure}
use verifier_core.Core.Checks.Verdicts.{Decides}
use verifier_core.Core.Pointer.{Segment}
use verifier_core.Status.Lists.{
  StatusStore, StatusEntryClass, checked, other_type, other_purpose, malformed,
  credential_status_entries, classify_status_entry,
}
use verifier_core.Status.Sorting.{SortedEntries, sort_entry, sort_status_entries}
use verifier_core.Status.Bitstring.{
  set_bit_problem, CheckStatus, CheckStatusAnswer, answered, raised, StatusEntryResult, is_set,
  ask_status, bitstring_status_check, judge_sorted, judge_status,
}

abbrev is_checked : StatusEntryClass → Bool
is_checked (checked entry) = true
is_checked _ = false

abbrev is_malformed : StatusEntryClass → Bool
is_malformed (malformed field detail) = true
is_malformed _ = false

-- Some entry of the credential is in the class.
abbrev has_entry : (StatusEntryClass → Bool) → Json → Bool
has_entry p credential =
    any (λ entry. p (classify_status_entry entry.0)) (credential_status_entries credential)

-- The library read every status and no bit is set.
abbrev is_clear : CheckStatusAnswer → Bool
is_clear (answered none results) = all (λ result. not (is_set result)) (or_else results [])
is_clear _ = false

sort_entry-checked :
    (c : StatusEntryClass) (pointer : List Segment) (later : SortedEntries)
    → nat_eq (sort_entry c pointer later).checked_count 0
      ≡ (not (is_checked c) && nat_eq later.checked_count 0)
unfolding sort_entry
sort_entry-checked (checked entry) pointer later = ground arith
sort_entry-checked (other_type type) pointer later = refl
sort_entry-checked (other_purpose purpose) pointer later = refl
sort_entry-checked (malformed field detail) pointer later = refl

sort_entry-malformed :
    (c : StatusEntryClass) (pointer : List Segment) (later : SortedEntries)
    → ltb 0 (length (sort_entry c pointer later).malformed_problems)
      ≡ (is_malformed c || ltb 0 (length later.malformed_problems))
unfolding sort_entry
sort_entry-malformed (checked entry) pointer later = refl
sort_entry-malformed (other_type type) pointer later = refl
sort_entry-malformed (other_purpose purpose) pointer later = refl
sort_entry-malformed (malformed field detail) pointer later = ground arith

checked_count_lem :
    (entries : List (Json × List Segment))
    → nat_eq (sort_status_entries entries).checked_count 0
      ≡ not (any (λ entry. is_checked (classify_status_entry entry.0)) entries)
unfolding sort_status_entries
checked_count_lem [] = refl
checked_count_lem ((entry, pointer) ∷ entries) = ground (
  arith,
  sort_entry-checked (classify_status_entry entry) pointer (sort_status_entries entries),
  checked_count_lem entries,
)

malformed_lem :
    (entries : List (Json × List Segment))
    → ltb 0 (length (sort_status_entries entries).malformed_problems)
      ≡ any (λ entry. is_malformed (classify_status_entry entry.0)) entries
unfolding sort_status_entries
malformed_lem [] = refl
malformed_lem ((entry, pointer) ∷ entries) = ground (
  arith,
  sort_entry-malformed (classify_status_entry entry) pointer (sort_status_entries entries),
  malformed_lem entries,
)

length-map-filter :
    {A B : Type 0} (f : A → B) (p : A → Bool) (xs : List A)
    → ltb 0 (length (map f (filter p xs))) ≡ not (all (λ x. not (p x)) xs)
length-map-filter f p [] = refl
length-map-filter f p (x ∷ xs) = ground (arith, length-map-filter f p xs)

judge_status-is_success :
    (other_types other_purposes : List String) (answer : CheckStatusAnswer)
    → is_success (judge_status other_types other_purposes answer) ≡ is_clear answer
unfolding judge_status
judge_status-is_success other_types other_purposes (raised error) = refl
judge_status-is_success other_types other_purposes (answered (some error) results) = refl
judge_status-is_success other_types other_purposes (answered none results) = ground (
  arith,
  length-map-filter
      (λ (result : StatusEntryResult). set_bit_problem (or_else result.credential_status end))
      is_set (or_else results []),
)

judge_status-Decides :
    (other_types other_purposes : List String) (answer : CheckStatusAnswer)
    → Decides (judge_status other_types other_purposes answer)
unfolding judge_status
judge_status-Decides other_types other_purposes (raised error) = refl
judge_status-Decides other_types other_purposes (answered (some error) results) = refl
judge_status-Decides other_types other_purposes (answered none results) = ground arith

no_entry :
    {A : Type 0} (p : A → Bool) (xs : List A) → nat_eq (length xs) 0 ≡ true → any p xs ≡ false
no_entry p [] h = refl
no_entry p (x ∷ xs) h = ground arith

module _ {W : Type 0} (check_status : CheckStatus W) (store : StatusStore W) where
  -- What the check needs for a success, and for a failure.
  abbrev pub expected : VerificationSubject → VerificationContext W → W → Bool × Bool
  expected subject context w =
      let credential = or_else subject.verifiable_credential null in
      let clear = is_clear (ask_status check_status store credential context w).0 in
      let malformed = has_entry is_malformed credential in
      let checked = has_entry is_checked credential in
      (
        is_truthy subject.verifiable_credential && (not malformed && (checked && clear)),
        is_truthy subject.verifiable_credential && (malformed || (checked && not clear)),
      )

  judge_sorted-verdict :
      (entries : List (Json × List Segment)) (credential : Json) (context : VerificationContext W)
      (w : W)
      → let outcome =
          (judge_sorted check_status store
            (nat_eq (length entries) 0)
            (sort_status_entries entries)
            credential
            context
            w).0 in
        let clear = is_clear (ask_status check_status store credential context w).0 in
        let bad =
          any
            (λ (entry : Json × List Segment). is_malformed (classify_status_entry entry.0))
            entries in
        let read =
          any
            (λ (entry : Json × List Segment). is_checked (classify_status_entry entry.0))
            entries in
        (is_success outcome ≡ (not bad && (read && clear)))
        × (is_failure outcome ≡ (bad || (read && not clear)))
  unfolding judge_sorted
  judge_sorted-verdict [] credential context w = (refl, refl)
  judge_sorted-verdict (entry ∷ entries) credential context w =
      let sorted = sort_status_entries (entry ∷ entries) in
      let answer = (ask_status check_status store credential context w).0 in
      let read = checked_count_lem (entry ∷ entries) in
      let bad = malformed_lem (entry ∷ entries) in
      let succeeds = judge_status-is_success sorted.other_types sorted.other_purposes answer in
      let decides = judge_status-Decides sorted.other_types sorted.other_purposes answer in
      (ground arith, ground arith)

  -- The status check succeeds exactly when there is a credential, none of its status entries is malformed, one of
  -- them is a revocation or suspension entry of a bitstring list, and the library's answer holds no error and no
  -- set bit. It fails exactly when there is a credential and an entry is malformed, or an entry is
  -- checked and the answer holds an error or a set bit. In all other cases it is skipped.
  pub bitstring_status_check-verdict :
      (subject : VerificationSubject) (context : VerificationContext W) (w : W)
      → let outcome = (bitstring_status_check check_status store subject context w).0 in
        let (succeeds, fails) = expected subject context w in
        (is_success outcome ≡ succeeds) × (is_failure outcome ≡ fails)
  unfolding bitstring_status_check
  bitstring_status_check-verdict subject context w =
      let credential = or_else subject.verifiable_credential null in
      let (succeeds, fails) =
        judge_sorted-verdict (credential_status_entries credential) credential context w in
      (ground (arith, succeeds), ground (arith, fails))
