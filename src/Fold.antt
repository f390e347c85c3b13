-- ===== src/Fold.antt =====
-- src/fold-results.ts. A `Map` is its entries in insertion order; the tally's loop is a recursion
-- on the rows with the tally as its accumulator.
pub mod Id
pub mod Grouping
pub mod Verdict
pub mod Counting
mod Tests
use Prim.Native.String.{compare}
use text.Mathlib.Text.{is_lt}
use verifier_core.Shared.{
  ℕ, ◌+◌, ℤ, pos, ◌+ℤ◌, String, Bool, true, false, not, ◌&&◌, Option, none, some, List, [], ◌∷◌,
  ◌++◌, ◌==◌, ◌<>◌, if◌then◌else◌, is_some, is_true, ltb, nat_eq, decimal, join, find?, map,
}
use verifier_core.Shared.Dict.{lookup, insert}
use verifier_core.Types.{
  TaskTiming, CheckOutcome, success, failure, skipped, not_run_after_fatal, SuitePhase, CheckResult,
  VerificationSuite, is_fatal_failure, SuiteStatus, Counts, SuiteSummary,
}
use mathlib.Core.Option
use Id.{compute_id}

abbrev pub Groups : Type 0
Groups = List (String × List CheckResult)

module _ {W : Type 0} where
  index_from :
      List (String × VerificationSuite W)
      → List (VerificationSuite W)
      → List (String × VerificationSuite W)
  index_from m [] = m
  index_from m (s ∷ suites) = index_from (insert s.id s m) suites

  pub index_suites_by_id : List (VerificationSuite W) → List (String × VerificationSuite W)
  unfolding index_from
  index_suites_by_id suites = index_from [] suites

  -- `suite?.phase`
  abbrev pub derive_phase : Option (VerificationSuite W) → Option SuitePhase
  derive_phase none = none
  derive_phase (some suite) = suite.phase

-- One round of the grouping loop.
push_check : CheckResult → Groups → Groups
push_check c [] = (c.suite, c ∷ []) ∷ []
push_check c ((k, cs) ∷ groups) =
    if k == c.suite then (k, cs ++ c ∷ []) ∷ groups else (k, cs) ∷ push_check c groups

group_from : Groups → List CheckResult → Groups
group_from groups [] = groups
group_from groups (c ∷ checks) = group_from (push_check c groups) checks

pub group_checks_by_suite : List CheckResult → Groups
unfolding group_from
group_checks_by_suite checks = group_from [] checks

pub record SuiteTally : Type 0 where
  pub passed : ℕ
  pub failed : ℕ
  pub skipped : ℕ
  pub not_run : ℕ
  pub halted_by : Option String

abbrev pub empty_tally : SuiteTally
empty_tally = record { passed = 0; failed = 0; skipped = 0; not_run = 0; halted_by = none }

-- `a ??= b`
abbrev first_defined : Option String → Option String → Option String
first_defined none b = b
first_defined (some a) b = some a

abbrev is_code : String → Option String → Bool
is_code code none = false
is_code code (some c) = c == code

tally_outcome : SuiteTally → CheckOutcome → SuiteTally
tally_outcome tally (success _ _) = record tally { passed = tally.passed + 1 }
tally_outcome tally (failure _ _) = record tally { failed = tally.failed + 1 }
tally_outcome tally (skipped reason code halted_by) =
    if is_code not_run_after_fatal code
    then record tally {
      not_run = tally.not_run + 1;
      halted_by = first_defined tally.halted_by halted_by;
    }
    else record tally { skipped = tally.skipped + 1 }

tally_from : SuiteTally → List CheckResult → SuiteTally
tally_from tally [] = tally
tally_from tally (c ∷ checks) = tally_from (tally_outcome tally c.outcome) checks

pub tally_suite : List CheckResult → SuiteTally
unfolding tally_from tally_outcome
tally_suite checks = tally_from empty_tally checks

pub derive_status : Counts → SuiteStatus
derive_status counts =
    if ltb 0 counts.failed && ltb 0 counts.passed
    then SuiteStatus.mixed
    else if ltb 0 counts.failed
    then SuiteStatus.failure
    else if ltb 0 counts.passed
    then SuiteStatus.success
    else SuiteStatus.skipped

skip_reason : CheckOutcome → Option String
skip_reason (skipped reason _ _) = some reason
skip_reason _ = none

pick_applies_skip_reason : List CheckResult → Option SuitePhase → String → Option String
unfolding skip_reason
pick_applies_skip_reason (only ∷ []) phase suite_id =
    if only.id == compute_id phase suite_id (suite_id <> ".applies")
    then skip_reason only.outcome
    else none
pick_applies_skip_reason _ phase suite_id = none

plural_check : ℕ → String
plural_check n = if nat_eq n 1 then "check" else "checks"

-- `if (n > 0) tail.push(`${n} ${what}`)`
abbrev counted : ℕ → String → List String
counted n what = if ltb 0 n then (decimal n <> " " <> what) ∷ [] else []

abbrev in_parentheses : List String → String
in_parentheses [] = ""
in_parentheses tail = " (" <> join ", " tail <> ")"

counted_message : SuiteTally → ℕ → String
unfolding plural_check
counted_message tally total =
    let tail =
      counted tally.failed "failed"
      ++ (counted tally.skipped "skipped" ++ counted tally.not_run "not run after fatal") in
    decimal tally.passed
    <> " of "
    <> decimal total
    <> " "
    <> plural_check total
    <> " passed"
    <> in_parentheses tail

not_run_message : String → SuiteTally → ℕ → Option String → String
unfolding counted_message
not_run_message suite_id tally total none = counted_message tally total
not_run_message suite_id tally total (some halted_by) =
    if nat_eq tally.not_run total
    then suite_id <> " not run: " <> halted_by <> " failed"
    else counted_message tally total

format_message : String → SuiteTally → Option String → String
unfolding not_run_message
format_message suite_id tally (some reason) = suite_id <> " not applicable: " <> reason
format_message suite_id tally none =
    let total = tally.passed + tally.failed + tally.skipped + tally.not_run in
    not_run_message suite_id tally total tally.halted_by

timings : List CheckResult → List TaskTiming
timings [] = []
timings (c ∷ checks) = elim (c.timing) [ none ↦ timings checks | some t ↦ t ∷ timings checks ]

-- One round of the roll-up loop; texts are compared in code point order.
roll_up : TaskTiming → TaskTiming → TaskTiming
roll_up sum t = record {
  started_at = if is_lt (compare t.started_at sum.started_at) then t.started_at else sum.started_at;
  ended_at = if is_lt (compare sum.ended_at t.ended_at) then t.ended_at else sum.ended_at;
  duration_ms = sum.duration_ms +ℤ t.duration_ms;
}

roll_up_from : TaskTiming → List TaskTiming → TaskTiming
roll_up_from sum [] = sum
roll_up_from sum (t ∷ timed) = roll_up_from (roll_up sum t) timed

roll_up_timed : List TaskTiming → Option TaskTiming
roll_up_timed [] = none
roll_up_timed (t ∷ timed) = some (roll_up_from (record t { duration_ms = pos 0 }) (t ∷ timed))

rollup_suite_timing : List CheckResult → Option TaskTiming
unfolding timings roll_up roll_up_from roll_up_timed
rollup_suite_timing checks = roll_up_timed (timings checks)

pub summarize_suite : String → Option SuitePhase → List CheckResult → SuiteSummary
summarize_suite suite_id phase checks =
    let tally = tally_suite checks in
    let counts : Counts = record {
      passed = tally.passed;
      failed = tally.failed;
      skipped = tally.skipped + tally.not_run;
    } in
    let fatal_check = find? is_fatal_failure checks in
    record {
      id = compute_id phase suite_id "";
      phase = phase;
      suite = suite_id;
      status = derive_status counts;
      verified = not (is_some fatal_check);
      message = format_message suite_id tally (pick_applies_skip_reason checks phase suite_id);
      counts = counts;
      fatal_failure_at = Option.map (λ c. c.id) fatal_check;
      timing = rollup_suite_timing checks;
    }

module _ {W : Type 0} where
  pub summarize_group :
      List (String × VerificationSuite W) → String × List CheckResult → SuiteSummary
  summarize_group suite_index (suite_id, checks) =
      summarize_suite suite_id (derive_phase (lookup suite_id suite_index)) checks

  -- The rows as they are, and one summary for each suite that has rows.
  pub fold_check_results :
      List CheckResult → List (VerificationSuite W) → List CheckResult × List SuiteSummary
  unfolding summarize_group
  fold_check_results [] [] = ([], [])
  fold_check_results checks suites =
      let suite_index = index_suites_by_id suites in
      (checks, map (summarize_group suite_index) (group_checks_by_suite checks))
